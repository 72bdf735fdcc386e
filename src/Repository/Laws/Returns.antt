-- ===== src/Repository/Laws/Returns.antt =====
-- Steps of transactions that come back, which the search for a parent is made of.
use concrnt_playground.Prelude.{
  ℕ, String, Bool, true, false, ◌≡◌, ◌≢◌, refl, sym, subst, Option, none, some, Result, ok, err,
  panic, lost, List, [], ◌∷◌, ◌==◌, string_eq, if◌then◌else◌,
}
use concrnt_playground.Store.{exists, Write, Db, RecordKey, find_key}
use concrnt_playground.Store.Tx.{
  mem, answer, Pending, Tx, ◌>>=◌, pure, lift, query, statement, look, follow, insert_key, put,
  unlocked, next,
}
use concrnt_playground.Store.Keeps.{
  Keeps-put, Keeps-look, Keeps-next, Keeps-unlocked, Keeps, IsStable, Keeps-statement,
}
use concrnt_playground.Repository.Parents.{softly, lookup_key, found_or, or_error}

-- No transaction around this one holds a key.
abbrev pub Free : Pending → Type 0
Free p = p.world.locked ≡ []

pub free : IsStable Free
free = record { faults = λ fs p h. h; ids = λ n p h. h; events = λ es p h. h }

-- The step does not diverge or wait for ever, and leaves the locks free.
pub record Returns {A : Type 0} (m : Tx A) : Type 0 where
  pub at : (p : Pending) → Free p → (m p).0 ≢ lost

pub Returns-pure : {A : Type 0} (a : A) → Returns (pure a)
unfolding pure
Returns-pure a = record { at = λ p h e. cc }

Returns-lift : {A : Type 0} (r : Result A) → r ≢ lost → Returns (lift r)
unfolding lift
Returns-lift r h = record { at = λ p f e. h e }

pub Returns-bind :
    {A B : Type 0} (m : Tx A) (f : A → Tx B)
    → Keeps Free m
    → Returns m
    → ((a : A) → Returns (f a))
    → Returns (m >>= f)
unfolding ◌>>=◌
Returns-bind {A} {B} m f k hm hf = record {
  at = λ p h. follow-returns (m p).0 (m p).1 (k.at p h) (hm.at p h);
}
  where
    follow-returns : (r : Result A) (p : Pending) → Free p → r ≢ lost → (follow r p f).0 ≢ lost
    follow-returns (ok a) p h n = (hf a).at p h
    follow-returns (err e) p h n = λ e. cc
    follow-returns panic p h n = λ e. cc
    follow-returns lost p h n = absurd (n refl)

Returns-if :
    {A : Type 0} (b : Bool) (m n : Tx A) → Returns m → Returns n → Returns (if b then m else n)
Returns-if true m n hm hn = hm
Returns-if false m n hm hn = hn

answer-returns : (fs : List Bool) (p : Pending) → (answer fs p).0 ≢ lost
answer-returns [] p e = cc
answer-returns (true ∷ fs) p e = cc
answer-returns (false ∷ fs) p e = cc

Returns-statement : Returns statement
unfolding statement
Returns-statement = record { at = λ p h. answer-returns p.world.faults p }

Returns-look : {A : Type 0} (f : Db → A) → Returns (look f)
unfolding look
Returns-look f = record { at = λ p h e. cc }

Returns-unlocked : (uri : String) → Returns (unlocked uri)
unfolding mem
Returns-unlocked uri = record {
  at = λ p h e.
      absurd (subst (λ us. (if mem uri us then lost else ok tt) ≡ lost → ⊥) (sym h) (λ f. cc) e);
}

Returns-put : (w : Write) → Returns (put w)
unfolding put
Returns-put w = record { at = λ p h e. cc }

pub Returns-insert_key : (parent : Option ℕ) (uri : String) → Returns (insert_key parent uri)
unfolding insert_key next
Returns-insert_key parent uri = Returns-bind _ _ (Keeps-statement free) Returns-statement λ _.
    Returns-bind _ _ (Keeps-unlocked free uri) (Returns-unlocked uri) λ _.
      Returns-bind _ _ (Keeps-next free) (record { at = λ p h e. cc })
        λ id. Returns-bind _ _ (Keeps-look free taken) (Returns-look taken) λ t.
          Returns-if t _ _ (Returns-lift _ (λ e. cc))
            (Returns-bind _ _ (Keeps-put free _ (λ p h. h)) (Returns-put _) λ _. Returns-pure _)
  where
    taken : Db → Bool
    taken db = exists (λ k. k.uri == uri) db.keys

softly-returns : (r : Result (Option RecordKey) × Pending) → r.0 ≢ lost → (softly r).0 ≢ lost
softly-returns (ok k, p) h f = h f
softly-returns (err e, p) h f = cc
softly-returns (panic, p) h f = h f
softly-returns (lost, p) h f = h f

pub Returns-lookup_key : (uri : String) → Returns (lookup_key uri)
unfolding query
Returns-lookup_key uri = record {
  at = λ p h. softly-returns _ (
      (Returns-bind _ _ (Keeps-statement free) Returns-statement
          (λ _. Returns-look (find_key uri))).at
        p h);
}

pub Returns-found_or :
    (o : Option RecordKey) (m : Tx RecordKey) → Returns m → Returns (found_or o m)
Returns-found_or none m h = h
Returns-found_or (some k) m h = Returns-pure k

or_error-returns : {A : Type 0} (o : Option A) → or_error o ≢ lost
or_error-returns none e = cc
or_error-returns (some a) e = cc

pub Returns-some :
    {A B : Type 0} (o : Option A) (a : A) (f : A → Tx B)
    → o ≡ some a
    → Returns (f a)
    → Returns (lift (or_error o) >>= f)
unfolding ◌>>=◌ lift
Returns-some o a f h r =
    subst (λ o. Returns (lift (or_error o) >>= f)) (sym h) (record { at = r.at })

pub Returns-case :
    {A : Type 0} (b c : Bool) (m n : Tx A)
    → b ≡ c
    → Returns (if c then m else n)
    → Returns (if b then m else n)
Returns-case b c m n h = subst (λ b. Returns (if b then m else n)) (sym h)
