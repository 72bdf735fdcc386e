-- ===== src/Repository/Laws/Stored.antt =====
-- What the tables hold about one document on the way through `CreateRecord` of record.go.
use concrnt_playground.Prelude.{
  eq_iff, eq_refl, ◌∙◌, ap, inr, inl, String, Bool, true, false, ◌≡◌, refl, sym, subst, some, ◌==◌,
  string_eq, if◌then◌else◌, arith, Bool-cases,
}
use concrnt_playground.Store.{
  upsert, is_ref, exists, Db, CommitLog, Record, RecordKey, Write, add_commit, add_record,
  upsert_key, flag_gc, drop_record, apply, find_commit, find_record, find_key, flagged, point_at,
}
use concrnt_playground.Store.Rows.{
  first-test, first-insert_new, insert_new-first, apply_all-append, first-append_new, first-update,
  update-first, first-reject, exists-first,
}
use concrnt_playground.Store.Tx.{Pending, push, view}
use concrnt_playground.Store.Keeps.{IsStable}

-- A property of the tables that a transaction sees.
unfoldable pub On : (Db → Type 0) → Pending → Type 0
On S p = S (view p)

pub On-IsStable : (S : Db → Type 0) → IsStable (On S)
unfolding On
On-IsStable S = record { faults = λ fs p h. h; ids = λ n p h. h; events = λ es p h. h }

pub On-push :
    (S T : Db → Type 0) (w : Write)
    → ((db : Db) → S db → T (apply w db))
    → (p : Pending) → On S p
    → On T (push w p)
unfolding On
On-push S T w h p s = subst T (sym (apply_all-append p.writes w p.world.db)) (h (view p) s)

-- A commit that is found under the key carries this document and this proof.
abbrev pub Agrees : String → String → String → Db → Type 0
Agrees document proof key db =
    (c : CommitLog) → find_commit key db ≡ some c → (c.document ≡ document) × (c.proof ≡ proof)

abbrev pub HasCommit : String → Db → Type 0
HasCommit id db = (c : CommitLog) × (find_commit id db ≡ some c)

abbrev pub HasRecord : String → Db → Type 0
HasRecord id db = (r : Record) × (find_record id db ≡ some r)

abbrev pub HasKey : String → String → Db → Type 0
HasKey id uri db = (k : RecordKey) × (find_key uri db ≡ some k) × (k.record_id ≡ some id)

flag_document : (c : CommitLog) (b : Bool) → (if b then flagged c else c).document ≡ c.document
flag_document c true = refl
flag_document c false = refl

flag_proof : (c : CommitLog) (b : Bool) → (if b then flagged c else c).proof ≡ c.proof
flag_proof c true = refl
flag_proof c false = refl

module _ (document proof : String) where
  -- The first write puts the commit there, or finds one with the same id.
  pub Agrees-add_commit :
      (key : String) (c : CommitLog) (db : Db)
      → c.document ≡ document
      → c.proof ≡ proof
      → Agrees document proof key db
      → Agrees document proof key (apply (add_commit c) db)
  unfolding apply find_commit
  Agrees-add_commit key c db d e h c' f =
      elim (insert_new-first (λ d. d.id == c.id) (λ d. d.id == key) c db.commits c' f) [
        | inl g ↦ h c' g
        | inr g ↦ (ap (λ x. x.document) g ∙ d, ap (λ x. x.proof) g ∙ e)
      ]

  pub Agrees-flag_gc :
      (key id : String) (db : Db)
      → Agrees document proof key db
      → Agrees document proof key (apply (flag_gc id) db)
  unfolding apply find_commit
  Agrees-flag_gc key id db h c e =
      let (b, f, g) =
        first-update (λ c. c.id == key) (λ c. c.id == id) flagged db.commits (λ x. refl) c e in
      let (d, p) = h b f in
      (
        ap (λ x. x.document) g ∙ flag_document b (b.id == id) ∙ d,
        ap (λ x. x.proof) g ∙ flag_proof b (b.id == id) ∙ p,
      )

pub HasCommit-add_commit : (c : CommitLog) (db : Db) → HasCommit c.id (apply (add_commit c) db)
unfolding apply find_commit
HasCommit-add_commit c db = first-insert_new (λ d. d.id == c.id) c db.commits (eq_refl c.id)

pub HasCommit-flag_gc :
    (id r : String) (db : Db) → HasCommit id db → HasCommit id (apply (flag_gc r) db)
unfolding apply find_commit
HasCommit-flag_gc id r db (c, h) =
    (_, update-first _ (λ c. c.id == r) flagged db.commits (λ x. refl) c h)

pub HasRecord-add_record :
    (r : Record) (db : Db) → HasRecord r.document_id (apply (add_record r) db)
unfolding apply find_record
HasRecord-add_record r db =
    first-insert_new (λ s. s.document_id == r.document_id) r db.records (eq_refl r.document_id)

other : (a b : String) → (a == b) ≡ false → (b == a) ≡ false
other a b h = elim (Bool-cases (b == a)) [
  | inl t ↦ absurd (ground (arith, eq_iff b a, eq_refl a, eq_iff a b))
  | inr f ↦ f
]

pub record_id_of :
    (id : String) (r : Record) (db : Db) → find_record id db ≡ some r → r.document_id ≡ id
unfolding find_record
record_id_of id r db h =
    (eq_iff r.document_id id).0 (first-test (λ s. s.document_id == id) db.records r h)

pub HasRecord-drop_record :
    (id r : String) (db : Db)
    → (r == id) ≡ false
    → HasRecord id db
    → HasRecord id (apply (drop_record r) db)
unfolding apply find_record
HasRecord-drop_record id r db ne (x, h) = (
  x,
  first-reject _ (λ s. s.document_id == r) db.records x h
      (ap (λ s. s == r) (record_id_of id x db h) ∙ other r id ne),
)

pub HasKey-upsert_key :
    (id : String) (k : RecordKey) (db : Db)
    → k.record_id ≡ some id
    → HasKey id k.uri (apply (upsert_key k) db)
unfolding apply find_key upsert
HasKey-upsert_key id k db h = elim (Bool-cases (exists (λ j. j.uri == k.uri) db.keys)) [
  | inl t ↦
      let (j, f) = exists-first (λ j. j.uri == k.uri) db.keys t in
      (
        point_at k.record_id j,
        ground (
          arith,
          first-test (λ j. j.uri == k.uri) db.keys j f,
          update-first (λ j. j.uri == k.uri) (λ j. j.uri == k.uri) (point_at k.record_id) db.keys
              (λ x. refl) j f,
        ),
        h,
      )
  | inr t ↦
      (k, ground (arith, first-append_new (λ j. j.uri == k.uri) db.keys k t (eq_refl k.uri)), h)
]

pub HasKey-drop_record :
    (id uri r : String) (db : Db)
    → (r == id) ≡ false
    → HasKey id uri db
    → HasKey id uri (apply (drop_record r) db)
unfolding apply find_key
HasKey-drop_record id uri r db ne (k, h, p) =
    (k, first-reject _ (λ j. is_ref r j.record_id) db.keys k h (ap (is_ref r) p ∙ other r id ne), p)
