-- ===== src/Repository/Laws/Atomic.antt =====
-- `CreateRecord` and `CreateAssociation` of record.go that fail: the transaction is rolled back.
use concrnt_playground.Prelude.{
  on_ok, string_eq, ℕ, zero, suc, ◌≡◌, ◌≢◌, refl, Result, ok, err, panic, lost, [],
}
use concrnt_playground.Document.{Document, SignedDocument, Codec}
use concrnt_playground.Store.{Db}
use concrnt_playground.Store.Tx.{World, Pending, Tx, statement, transaction, conclude, commit}
use concrnt_playground.Store.Keeps.{Keeps, Keeps-statement}
use concrnt_playground.Repository.Create.{
  document_id, record_uri, owner_of, create_record, members_of,
}
use concrnt_playground.Repository.Associate.{create_association}
use concrnt_playground.Repository.Laws.Steps.{
  IsCommitted, committed, members-keep, body-Keeps, associate-Keeps,
}

-- The outcome is not a success.
abbrev pub Fails : {A : Type 0} → Result A × World → Type 0
Fails {A} r = (a : A) → r.0 ≢ ok a

commit-rolls_back :
    {A : Type 0} (db : Db) (a : A) (r : Result (Unit {0}) × Pending)
    → IsCommitted db r.1
    → Fails (commit a r)
    → (commit a r).1.db ≡ db
commit-rolls_back db a (ok u, p) h f = absurd (f a refl)
commit-rolls_back db a (err e, p) h f = h
commit-rolls_back db a (panic, p) h f = h
commit-rolls_back db a (lost, p) h f = h

conclude-rolls_back :
    {A : Type 0} (db : Db) (r : Result A × Pending)
    → IsCommitted db r.1
    → Fails (conclude r)
    → (conclude r).1.db ≡ db
conclude-rolls_back db (ok a, p) h f =
    commit-rolls_back db a (statement p) ((Keeps-statement (committed db)).at p h) f
conclude-rolls_back db (err e, p) h f = h
conclude-rolls_back db (panic, p) h f = h
conclude-rolls_back db (lost, p) h f = h

transaction-rolls_back :
    {A : Type 0} (m : Tx A) (w : World)
    → Keeps (IsCommitted w.db) m
    → Fails (transaction m w)
    → (transaction m w).1.db ≡ w.db
unfolding transaction
transaction-rolls_back m w k =
    conclude-rolls_back w.db (m (record { world = w; writes = [] })) (k.at _ refl)

on_ok-rolls_back :
    {A B : Type 0} (r : Result A) (f : A → World → Result B × World) (w : World)
    → ((a : A) → r ≡ ok a → Fails (f a w) → (f a w).1.db ≡ w.db)
    → Fails (on_ok r f w)
    → (on_ok r f w).1.db ≡ w.db
on_ok-rolls_back (ok a) f w h fails = h a refl fails
on_ok-rolls_back (err e) f w h fails = refl
on_ok-rolls_back panic f w h fails = refl
on_ok-rolls_back lost f w h fails = refl

-- A CreateRecord of a document that is no member of a collection and that does not return nil, for
-- whatever statements fail, leaves the committed tables as they were.
pub create_record-rolls_back :
    (codec : Codec) (depth : ℕ) (sd : SignedDocument) (w : World)
    → ((doc : Document) → codec.unmarshal sd.document ≡ ok doc → members_of doc.member_of ≡ [])
    → Fails (create_record codec depth sd w)
    → (create_record codec depth sd w).1.db ≡ w.db
unfolding create_record
create_record-rolls_back codec zero sd w no_members fails = refl
create_record-rolls_back codec (suc depth) sd w no_members fails =
    on_ok-rolls_back (codec.unmarshal sd.document) _ w
      (λ doc read. transaction-rolls_back _ w (
        body-Keeps (committed w.db) (λ v p h. h) codec depth (create_record codec depth) sd doc
          (members-keep (committed w.db) codec (create_record codec depth)
            (document_id codec sd doc) (record_uri (document_id codec sd doc) doc) (owner_of doc)
            (members_of doc.member_of) (no_members doc read))))
      fails

-- A CreateAssociation that does not return nil, for whatever statements fail, leaves the committed
-- tables as they were.
pub create_association-rolls_back :
    (codec : Codec) (sd : SignedDocument) (w : World)
    → Fails (create_association codec sd w)
    → (create_association codec sd w).1.db ≡ w.db
unfolding create_association
create_association-rolls_back codec sd w =
    on_ok-rolls_back (codec.unmarshal sd.document) _ w λ doc read.
      transaction-rolls_back _ w (associate-Keeps (committed w.db) (λ v p h. h) codec sd doc)
