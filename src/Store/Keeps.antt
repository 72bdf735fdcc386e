-- ===== src/Store/Keeps.antt =====
-- Properties that every step of a transaction keeps, one rule for each way to build a step.
use concrnt_playground.Prelude.{
  ℕ, String, Bool, true, false, ◌≡◌, refl, Option, some, Result, ok, err, panic, lost, List, [],
  ◌∷◌, ◌==◌, string_eq, if◌then◌else◌, message,
}
use concrnt_playground.Document.{Event}
use concrnt_playground.Store.{Db, Write, RecordKey, add_key, upsert_key, exists}
use concrnt_playground.Store.Tx.{
  put, look, answer, Pending, Tx, follow, ◌>>=◌, pure, lift, set_faults, statement, query, push,
  write, unlocked, next, insert_key, upsert_record_key, publish,
}

-- `m` keeps `P`, whatever comes of it.
pub record Keeps (P : Pending → Type 0) {A : Type 0} (m : Tx A) : Type 0 where
  pub at : (p : Pending) → P p → P (m p).1

-- What the primitive steps change has no bearing on `P`, but for the writes.
pub record IsStable (P : Pending → Type 0) : Type 0 where
  pub faults : (fs : List Bool) (p : Pending) → P p → P (set_faults fs p)
  pub ids : (n : ℕ) (p : Pending) → P p → P (record p { world = record p.world { next_id = n } })
  pub events :
      (es : List (String × Event)) (p : Pending)
      → P p
      → P (record p { world = record p.world { published = es } })

module _ {P : Pending → Type 0} where
  pub Keeps-pure : {A : Type 0} (a : A) → Keeps P (pure a)
  unfolding pure
  Keeps-pure a = record { at = λ p h. h }

  pub Keeps-lift : {A : Type 0} (r : Result A) → Keeps P (lift r)
  unfolding lift
  Keeps-lift r = record { at = λ p h. h }

  follow-keeps :
      {A B : Type 0} (r : Result A) (p : Pending) (f : A → Tx B)
      → ((a : A) → Keeps P (f a))
      → P p
      → P (follow r p f).1
  follow-keeps (ok a) p f hf h = (hf a).at p h
  follow-keeps (err e) p f hf h = h
  follow-keeps panic p f hf h = h
  follow-keeps lost p f hf h = h

  pub Keeps-bind :
      {A B : Type 0} (m : Tx A) (f : A → Tx B)
      → Keeps P m
      → ((a : A) → Keeps P (f a))
      → Keeps P (m >>= f)
  unfolding ◌>>=◌
  Keeps-bind m f hm hf = record { at = λ p h. follow-keeps (m p).0 (m p).1 f hf (hm.at p h) }

  pub Keeps-if :
      {A : Type 0} (b : Bool) (m n : Tx A) → Keeps P m → Keeps P n → Keeps P (if b then m else n)
  Keeps-if true m n hm hn = hm
  Keeps-if false m n hm hn = hn

module _ {P : Pending → Type 0} (stable : IsStable P) where
  answer-keeps : (fs : List Bool) (p : Pending) → P p → P (answer fs p).1
  answer-keeps [] p h = h
  answer-keeps (true ∷ fs) p h = stable.faults fs p h
  answer-keeps (false ∷ fs) p h = stable.faults fs p h

  pub Keeps-statement : Keeps P statement
  unfolding statement
  Keeps-statement = record { at = λ p h. answer-keeps p.world.faults p h }

  pub Keeps-look : {A : Type 0} (f : Db → A) → Keeps P (look f)
  unfolding look
  Keeps-look f = record { at = λ p h. h }

  pub Keeps-query : {A : Type 0} (f : Db → A) → Keeps P (query f)
  unfolding query
  Keeps-query f = Keeps-bind _ _ Keeps-statement (λ u. Keeps-look f)

  pub Keeps-publish : (channel : String) (event : Event) → Keeps P (publish channel event)
  unfolding publish
  Keeps-publish channel event =
      Keeps-bind _ _ Keeps-statement (λ u. record { at = λ p h. stable.events _ p h })

  pub Keeps-put : (w : Write) → ((p : Pending) → P p → P (push w p)) → Keeps P (put w)
  unfolding put
  Keeps-put w pushed = record { at = pushed }

  pub Keeps-write : (w : Write) → ((p : Pending) → P p → P (push w p)) → Keeps P (write w)
  unfolding write
  Keeps-write w pushed = Keeps-bind _ _ Keeps-statement (λ u. Keeps-put w pushed)

  pub Keeps-next : Keeps P next
  unfolding next
  Keeps-next = record { at = λ p h. stable.ids _ p h }

  pub Keeps-unlocked : (uri : String) → Keeps P (unlocked uri)
  Keeps-unlocked uri = record { at = λ p h. h }

module _ {P : Pending → Type 0} (stable : IsStable P) where
  taken_or :
      (key : RecordKey) (taken : Bool)
      → ((p : Pending) → P p → P (push (add_key key) p))
      → Keeps P (
          if taken
          then lift (err (message "duplicate key value"))
          else put (add_key key) >>= λ _. pure key)
  taken_or key true pushed = Keeps-lift _
  taken_or key false pushed = Keeps-bind _ _ (Keeps-put stable _ pushed) λ _. Keeps-pure key

  pub Keeps-insert_key :
      (parent : Option ℕ) (uri : String)
      → ((k : RecordKey) (p : Pending) → P p → P (push (add_key k) p))
      → Keeps P (insert_key parent uri)
  unfolding insert_key
  Keeps-insert_key parent uri pushed = Keeps-bind _ _ (Keeps-statement stable) λ _.
      Keeps-bind _ _ (Keeps-unlocked stable uri) λ _. Keeps-bind _ _ (Keeps-next stable) λ id.
        Keeps-bind _ _ (Keeps-look stable (λ db. exists (λ k. k.uri == uri) db.keys))
          λ taken. taken_or _ taken (pushed _)

  pub Keeps-upsert :
      (parent : Option ℕ) (uri id : String)
      → ((k : RecordKey) (p : Pending) → P p → P (push (upsert_key k) p))
      → Keeps P (upsert_record_key parent uri id)
  unfolding upsert_record_key
  Keeps-upsert parent uri id pushed = Keeps-bind _ _ (Keeps-statement stable) λ _.
      Keeps-bind _ _ (Keeps-unlocked stable uri)
        λ _. Keeps-bind _ _ (Keeps-next stable) λ n. Keeps-put stable _ (pushed _)

-- Where `m` comes to a result from a state with `P`, it leaves one with `Q`.
pub record Yields (P Q : Pending → Type 0) {A : Type 0} (m : Tx A) : Type 0 where
  pub at : (p : Pending) → P p → (a : A) → (m p).0 ≡ ok a → Q (m p).1

pub Keeps-Yields : {P : Pending → Type 0} {A : Type 0} (m : Tx A) → Keeps P m → Yields P P m
Keeps-Yields m k = record { at = λ p h a e. k.at p h }

pub Yields-bind :
    {P Q R : Pending → Type 0} {A B : Type 0} (m : Tx A) (f : A → Tx B)
    → Yields P Q m
    → ((a : A) → Yields Q R (f a))
    → Yields P R (m >>= f)
unfolding ◌>>=◌
Yields-bind {P} {Q} {R} {A} {B} m f hm hf = record {
  at = λ p h b e. follow-yields (m p).0 (m p).1 (hm.at p h) b e;
}
  where
    follow-yields :
        (r : Result A) (p : Pending)
        → ((a : A) → r ≡ ok a → Q p)
        → (b : B) → (follow r p f).0 ≡ ok b
        → R (follow r p f).1
    follow-yields (ok a) p h b e = (hf a).at p (h a refl) b e
    follow-yields (err x) p h b e = cc
    follow-yields panic p h b e = cc
    follow-yields lost p h b e = cc

pub Yields-statement :
    {P Q : Pending → Type 0} {A : Type 0}
    → IsStable P
    → (m : Tx A) → Yields P Q m
    → Yields P Q (statement >>= λ _. m)
Yields-statement stable m h = Yields-bind _ _ (Keeps-Yields _ (Keeps-statement stable)) λ _. h

pub Yields-write :
    {P Q : Pending → Type 0} (stable : IsStable P) (w : Write)
    → ((p : Pending) → P p → Q (push w p))
    → Yields P Q (write w)
unfolding write put
Yields-write stable w h = Yields-statement stable _ (record { at = λ p k a e. h p k })

pub Yields-upsert :
    {P Q : Pending → Type 0} (stable : IsStable P) (parent : Option ℕ) (uri id : String)
    → ((n : ℕ) (p : Pending)
        → P p
        → Q (
            push
              (upsert_key (record { id = n; parent_id = parent; uri = uri; record_id = some id }))
              p))
    → Yields P Q (upsert_record_key parent uri id)
unfolding upsert_record_key put
Yields-upsert stable parent uri id h = Yields-statement stable _ (
    Yields-bind _ _ (Keeps-Yields _ (Keeps-unlocked stable uri)) λ _.
      Yields-bind _ _ (Keeps-Yields _ (Keeps-next stable)) λ n. record { at = λ p k a e. h n p k })
