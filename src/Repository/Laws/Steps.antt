-- ===== src/Repository/Laws/Steps.antt =====
-- The transactions of internal/infra/repository/record.go step by step, until the commit.
use concrnt_playground.Prelude.{
  subst, sym, string_eq, ℕ, zero, suc, String, Bool, true, false, ◌≡◌, Option, none, some, Result,
  ok, err, panic, lost, List, [], ◌∷◌,
}
use concrnt_playground.Document.{Document, SignedDocument, Codec}
use concrnt_playground.Store.{
  add_owner, CommitOwner, upsert_key, add_key, find_key, Association, exists, Db, Write, RecordKey,
}
use concrnt_playground.Store.Tx.{World, Pending, Tx, write, push}
use concrnt_playground.Store.Keeps.{
  Keeps, IsStable, Keeps-pure, Keeps-lift, Keeps-bind, Keeps-if, Keeps-query, Keeps-publish,
  Keeps-write, Keeps-insert_key, Keeps-upsert,
}
use concrnt_playground.Repository.Parents.{get_or_create_parent, softly, lookup_key, found_or}
use concrnt_playground.Repository.Create.{
  owner_of, document_id, record_uri, retire_record, owners_of, create_body, store_record,
  write_commit, write_owners, distribute, retire, now, members_of,
}
use concrnt_playground.Repository.Associate.{
  clashes, associate_body, insert_association, add_unless,
}

-- The committed tables are still `db`.
abbrev pub IsCommitted : Db → Pending → Type 0
IsCommitted db p = p.world.db ≡ db

module _ {P : Pending → Type 0} (stable : IsStable P) where
  softly-keeps : (r : Result (Option RecordKey) × Pending) → P r.1 → P (softly r).1
  softly-keeps (ok k, p) h = h
  softly-keeps (err e, p) h = h
  softly-keeps (panic, p) h = h
  softly-keeps (lost, p) h = h

  pub lookup_key-Keeps : (uri : String) → Keeps P (lookup_key uri)
  lookup_key-Keeps uri = record { at = λ p h. softly-keeps _ ((Keeps-query stable _).at p h) }

  pub found_or-Keeps :
      (o : Option RecordKey) (m : Tx RecordKey) → Keeps P m → Keeps P (found_or o m)
  found_or-Keeps none m h = h
  found_or-Keeps (some k) m h = Keeps-pure k

  pub parents-keep :
      ((k : RecordKey) (p : Pending) → P p → P (push (add_key k) p))
      → (depth : ℕ) (uri : String) → Keeps P (get_or_create_parent depth uri)
  unfolding get_or_create_parent
  parents-keep pushed zero uri = Keeps-lift lost
  parents-keep pushed (suc depth) uri = Keeps-bind _ _ (Keeps-lift _) λ parent_uri.
      Keeps-bind _ _ (Keeps-lift _) λ parsed. Keeps-if _ _ _ (Keeps-pure none) (
        Keeps-bind _ _ (lookup_key-Keeps parent_uri) λ found.
          Keeps-bind _ _
            (found_or-Keeps found _ (
              Keeps-bind _ _ (parents-keep pushed depth parent_uri)
                λ grand. Keeps-insert_key stable _ parent_uri pushed))
            λ parent. Keeps-pure _)

  pub owners-keep :
      ((o : CommitOwner) (p : Pending) → P p → P (push (add_owner o) p))
      → (id : String) (os : List String) → Keeps P (write_owners id os)
  unfolding write_owners
  owners-keep pushed id [] = Keeps-pure tt
  owners-keep pushed id (o ∷ os) =
      Keeps-bind _ _ (Keeps-write stable _ (pushed _)) λ _. owners-keep pushed id os

  pub now-Keeps : Keeps P now
  now-Keeps = record { at = λ p h. h }

  pub members-keep :
      (codec : Codec) (create : SignedDocument → World → Result (Unit {0}) × World)
      (id uri owner : String) (members : List String)
      → members ≡ []
      → Keeps P (distribute codec create id uri owner members)
  unfolding distribute
  members-keep codec create id uri owner members h =
      subst (λ us. Keeps P (distribute codec create id uri owner us)) (sym h) (Keeps-pure tt)

pub committed : (db : Db) → IsStable (IsCommitted db)
committed db = record { faults = λ fs p h. h; ids = λ n p h. h; events = λ es p h. h }

-- What no write of a transaction changes before the commit.
module _ {P : Pending → Type 0} (stable : IsStable P)
    (pushed : (w : Write) (p : Pending) → P p → P (push w p)) where
  written : (w : Write) → Keeps P (write w)
  written w = Keeps-write stable w (pushed w)

  commit-Keeps :
      (codec : Codec) (id : String) (sd : SignedDocument) (doc : Document)
      → Keeps P (write_commit codec id sd doc)
  unfolding write_commit
  commit-Keeps codec id sd doc =
      Keeps-bind _ _ (written _)
        λ _. owners-keep stable (λ o. pushed (add_owner o)) id (owners_of doc)

  retire_record-Keeps : (id : String) (r : Option String) → Keeps P (retire_record id r)
  retire_record-Keeps id none = Keeps-pure tt
  retire_record-Keeps id (some r) =
      Keeps-if _ _ _ (Keeps-pure tt) (Keeps-bind _ _ (written _) λ _. written _)

  retire-Keeps : (id : String) (k : Option RecordKey) → Keeps P (retire id k)
  retire-Keeps id none = Keeps-pure tt
  retire-Keeps id (some k) = retire_record-Keeps id k.record_id

  store-Keeps :
      (codec : Codec) (depth : ℕ) (id : String) (sd : SignedDocument) (doc : Document)
      → Keeps P (store_record codec depth id sd doc)
  unfolding store_record
  store-Keeps codec depth id sd doc = Keeps-bind _ _ (commit-Keeps codec id sd doc) λ _.
      Keeps-bind _ _ (now-Keeps stable) λ clock. Keeps-bind _ _ (written _) λ _.
        Keeps-bind _ _ (Keeps-query stable (find_key (record_uri id doc))) λ old.
          Keeps-bind _ _ (parents-keep stable (λ k. pushed (add_key k)) depth _) λ parent.
            Keeps-bind _ _ (Keeps-upsert stable _ _ id (λ k. pushed (upsert_key k)))
              λ _. retire-Keeps id old

  pub body-Keeps :
      (codec : Codec) (depth : ℕ) (create : SignedDocument → World → Result (Unit {0}) × World)
      (sd : SignedDocument) (doc : Document)
      → Keeps P (
          distribute codec create
            (document_id codec sd doc)
            (record_uri (document_id codec sd doc) doc)
            (owner_of doc)
            (members_of doc.member_of))
      → Keeps P (create_body codec depth create sd doc)
  unfolding create_body
  body-Keeps codec depth create sd doc h =
      Keeps-bind _ _ (store-Keeps codec depth _ sd doc)
        λ _. Keeps-bind _ _ h λ _. Keeps-publish stable _ _

  add_unless-Keeps : (a : Association) (taken : Bool) → Keeps P (add_unless a taken)
  add_unless-Keeps a true = Keeps-lift _
  add_unless-Keeps a false = record { at = pushed _ }

  insert-Keeps : (a : Association) → Keeps P (insert_association a)
  unfolding insert_association
  insert-Keeps a =
      Keeps-bind _ _ (Keeps-query stable (λ db. exists (clashes a) db.associations))
        λ taken. add_unless-Keeps a taken

  pub associate-Keeps :
      (codec : Codec) (sd : SignedDocument) (doc : Document) → Keeps P (associate_body codec sd doc)
  unfolding associate_body
  associate-Keeps codec sd doc = Keeps-bind _ _ (commit-Keeps codec _ sd doc) λ _.
      Keeps-bind _ _ (Keeps-lift _) λ target_uri.
        Keeps-bind _ _ (Keeps-query stable (find_key target_uri)) λ found.
          Keeps-bind _ _ (Keeps-lift _) λ target.
            Keeps-bind _ _ (now-Keeps stable)
              λ clock. Keeps-bind _ _ (insert-Keeps _) λ _. Keeps-publish stable _ _
