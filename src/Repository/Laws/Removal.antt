-- ===== src/Repository/Laws/Removal.antt =====
-- What `Delete` of record.go takes away, and what it looks at.
use concrnt_playground.Prelude.{
  on_ok, ◌>>=◌, String, Bool, false, ◌≡◌, refl, sym, ap, ◌∙◌, subst, none, some, Result, ok, List,
  [], ◌∷◌, ◌==◌, string_eq, arith,
}
use concrnt_playground.Document.{Document, SignedDocument, Codec, delete_of}
use concrnt_playground.Store.{
  Db, Record, CommitLog, first, reject, apply, apply_all, drop_commit, delete_commit, find_commit,
  find_record, is_ref,
}
use concrnt_playground.Prelude.{eq_iff}
use concrnt_playground.Store.{Write}
use concrnt_playground.Store.Tx
use concrnt_playground.Store.Rows.{first-test, first-reject}
use concrnt_playground.Store.Tx.{
  push, World, Pending, write, put, statement, answer, transaction, conclude, commit,
}
use concrnt_playground.Repository.Read.{get_record_by_uri}
use concrnt_playground.Repository.Remove.{delete, delete_target}

-- Two signed documents with the same value have the same effect, whoever their authors and owners
-- are: Delete compares neither with those of the record that the value names.
pub delete-any_author :
    (codec : Codec) (sd sd' : SignedDocument) (doc doc' : Document) (w : World)
    → codec.unmarshal sd.document ≡ ok doc
    → codec.unmarshal sd'.document ≡ ok doc'
    → doc.value ≡ doc'.value
    → delete codec sd w ≡ delete codec sd' w
unfolding delete delete_target
delete-any_author codec sd sd' doc doc' w h h' v =
    ap (go) (ap read h ∙ ap (λ x. read (ok (record doc { value = x }))) v ∙ ap read (sym h'))
  where
    read : Result Document → Result Record
    read r = r >>= λ doc. delete_of doc.value >>= λ uri. get_record_by_uri w.db uri

    go : Result Record → Result (Unit {0}) × World
    go r = on_ok r (λ r. transaction (write (drop_commit r.document_id))) w

first-reject_none : {A : Type 0} (p : A → Bool) (xs : List A) → first p (reject p xs) ≡ none
unfolding first reject
first-reject_none p [] = refl
first-reject_none p (x ∷ xs) = ground (arith, first-reject_none p xs)

transaction-write :
    (v : Write) (w : World)
    → w.faults ≡ []
    → transaction (write v) w ≡ (ok tt, record w { db = apply v w.db })
unfolding transaction write statement put Tx.◌>>=◌ apply_all
transaction-write v w n =
    ap (λ fs. let r = answer fs start in conclude (Tx.follow r.0 r.1 (λ _. put v))) n
    ∙ ap (λ fs. commit tt (answer fs (push v start))) n
  where
    start : Pending
    start = record { world = w; writes = [] }

-- The tables without the commit, and the records and keys that go with it.
abbrev pub IsWithout : String → Db → Db → Type 0
IsWithout id db db' =
    (find_commit id db' ≡ none)
    × (find_record id db' ≡ none)
    × (first (λ k. is_ref id k.record_id) db'.keys ≡ none)
    × ((other : String) (c : CommitLog)
        → (other == id) ≡ false
        → find_commit other db ≡ some c
        → find_commit other db' ≡ some c)

delete_commit-IsWithout : (id : String) (db : Db) → IsWithout id db (delete_commit id db)
unfolding delete_commit find_commit find_record
delete_commit-IsWithout id db = (
  first-reject_none (λ c. c.id == id) db.commits,
  first-reject_none (λ r. r.document_id == id) db.records,
  first-reject_none (λ k. is_ref id k.record_id) db.keys,
  λ other c ne f.
      first-reject (λ d. d.id == other) (λ d. d.id == id) db.commits c f
        (ap (λ s. s == id) ((eq_iff c.id other).0 (first-test (λ d. d.id == other) db.commits c f))
          ∙ ne),
)

-- A Delete whose document names a record that is found, where no statement fails: it returns nil,
-- the commit of the record, the record and every key that points at it are gone, and every other
-- commit is found as before.
pub delete-removes :
    (codec : Codec) (sd : SignedDocument) (w : World) (r : Record)
    → delete_target codec sd w ≡ ok r
    → w.faults ≡ []
    → ((delete codec sd w).0 ≡ ok tt) × IsWithout r.document_id w.db (delete codec sd w).1.db
unfolding delete apply
delete-removes codec sd w r h n =
    subst (λ o. (o.0 ≡ ok tt) × IsWithout r.document_id w.db o.1.db)
      (sym (
        ap (λ r. on_ok r (λ r. transaction (write (drop_commit r.document_id))) w) h
        ∙ transaction-write (drop_commit r.document_id) w n))
      (refl, delete_commit-IsWithout r.document_id w.db)
