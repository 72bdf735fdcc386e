-- ===== src/Repository/Laws/ReadBack.antt =====
-- `CreateRecord`, then `GetSignedDocument` of record.go at the URI of the record.
use concrnt_playground.Prelude.{
  on_ok, ◌>>=◌, ℕ, zero, suc, String, ◌≡◌, refl, sym, ap, ◌∙◌, subst, Option, none, some, Result,
  ok, err, panic, lost, [], string_eq,
}
use concrnt_playground.Document.{Document, SignedDocument, Codec}
use concrnt_playground.Uri.{parse_cc_uri}
use concrnt_playground.Store.{apply_all, Db, CommitLog, find_commit, find_record, find_key}
use concrnt_playground.Store.Tx.{World, Pending, Tx, statement, transaction, commit, conclude}
use concrnt_playground.Store.Keeps.{
  Yields, Keeps-bind, Keeps-query, Keeps-publish, Keeps-statement, Keeps-Yields, Yields-bind,
  Yields-write, Yields-upsert,
}
use concrnt_playground.Repository.Create.{
  create_record, create_body, store_record, write_commit, owners_of, owner_of, document_id,
  record_uri, members_of,
}
use concrnt_playground.Repository.Parents.{key_id}
use concrnt_playground.Repository.Read.{signed, commit_by_key, commit_or, get_signed_document}
use concrnt_playground.Repository.Laws.Steps.{owners-keep, parents-keep, members-keep, now-Keeps}
use concrnt_playground.Repository.Laws.Stored.{On, On-IsStable, On-push, Agrees}
use concrnt_playground.Repository.Laws.Stages.{
  Clear, Filed, Placed, Filed-owner, Recorded-key, Clear-commit, Filed-record, Recorded-upsert,
  retire-Keeps,
}
use concrnt_playground.Repository.Read.{
  get_commit_by_uri, preload_record, preload_document, or_zero, zero_record, zero_commit,
}
use concrnt_playground.Repository.Laws.Stored.{record_id_of}

module _ (codec : Codec) (sd : SignedDocument) (doc : Document) (key : String) where
  abbrev id : String
  id = document_id codec sd doc

  abbrev uri : String
  uri = record_uri id doc

  abbrev proof : String
  proof = codec.marshal_proof sd.proof

  abbrev Before : Db → Type 0
  Before = Clear sd.document proof key id uri

  abbrev During : Db → Type 0
  During = Filed sd.document proof key id uri

  abbrev After : Db → Type 0
  After = Placed sd.document proof key id uri

  commit-files : Yields (On Before) (On During) (write_commit codec id sd doc)
  unfolding write_commit
  commit-files =
      Yields-bind _ _
        (Yields-write (On-IsStable _) _
          (On-push _ _ _ λ db. Clear-commit sd.document proof key id uri _ db refl refl refl))
        λ _. Keeps-Yields _ (
          owners-keep (On-IsStable _)
            (λ o. On-push _ _ _ (Filed-owner sd.document proof key id uri o)) id (owners_of doc))

  record-places : (depth : ℕ) → Yields (On Before) (On After) (store_record codec depth id sd doc)
  unfolding store_record
  record-places depth = Yields-bind _ _ commit-files λ _.
      Yields-bind _ _ (Keeps-Yields _ (now-Keeps (On-IsStable _))) λ clock.
        Yields-bind _ _
          (Yields-write (On-IsStable _) _
            (On-push _ _ _ λ db. Filed-record sd.document proof key id uri _ db refl))
          λ _. Yields-bind _ _ (Keeps-Yields _ (Keeps-query (On-IsStable _) (find_key uri))) λ old.
            Yields-bind _ _
              (Keeps-Yields _ (
                parents-keep (On-IsStable _)
                  (λ k. On-push _ _ _ (Recorded-key sd.document proof key id uri k)) depth uri))
              λ parent.
                Yields-bind _ _
                  (Yields-upsert (On-IsStable _) (key_id parent) uri id (λ n.
                    On-push _ _ _
                      λ db. Recorded-upsert sd.document proof key id uri _ db refl refl))
                  λ _. Keeps-Yields _ (retire-Keeps sd.document proof key id uri old)

  body-places :
      (depth : ℕ) (create : SignedDocument → World → Result (Unit {0}) × World)
      → members_of doc.member_of ≡ []
      → Yields (On Before) (On After) (create_body codec depth create sd doc)
  unfolding create_body
  body-places depth create h = Yields-bind _ _ (record-places depth) λ _. Keeps-Yields _ (
      Keeps-bind _ _ (members-keep (On-IsStable _) codec create id uri (owner_of doc) _ h)
        λ _. Keeps-publish (On-IsStable _) _ _)

  -- The lookup at the URI of the record, whichever way it finds the commit.
  commit_at :
      (db : Db) (o : Option CommitLog)
      → find_commit key db ≡ o
      → After db
      → (c : CommitLog) × (commit_or db uri o ≡ ok c)
        × (c.document ≡ sd.document)
        × (c.proof ≡ proof)
  unfolding preload_record preload_document find_commit find_record find_key
  commit_at db (some c) h ((((a, b), f), r), k) = (c, refl, (a c h).0, (a c h).1)
  commit_at db none h ((((a, b), (c, f)), (r, g)), (k, e, i)) = (
    c,
    ap (commit_by_key db) e
        ∙ ap (λ o. ok (preload_document db (preload_record db o))) i
        ∙ ap (λ o. ok (preload_document db (or_zero zero_record o))) g
        ∙ ap (λ s. ok (or_zero zero_commit (find_commit s db))) (record_id_of id r db g)
        ∙ ap (λ o. ok (or_zero zero_commit o)) f,
    (b c f).0,
    (b c f).1,
  )

  read_placed :
      (db : Db) (owner : String)
      → codec.unmarshal_proof proof ≡ ok sd.proof
      → parse_cc_uri uri ≡ ok (owner, key)
      → After db
      → get_signed_document codec db uri ≡ ok sd
  unfolding get_signed_document get_commit_by_uri
  read_placed db owner q u h =
      let (c, e, d, p) = commit_at db (find_commit key db) refl h in
      ap (λ r. (r >>= λ q. commit_or db uri (find_commit q.1 db)) >>= signed codec) u
      ∙ ap (λ r. r >>= signed codec) e
      ∙ ap (λ r. r >>= λ x. ok (record { document = c.document; proof = x }))
          (ap codec.unmarshal_proof p ∙ q)
      ∙ ap (λ x. ok (record { document = x; proof = sd.proof })) d

commit-holds :
    {A : Type 0} (S : Db → Type 0) (a b : A) (r : Result (Unit {0}) × Pending)
    → On S r.1
    → (commit a r).0 ≡ ok b
    → S (commit a r).1.db
unfolding On
commit-holds S a b (ok u, p) h e = h
commit-holds S a b (err x, p) h e = absurd cc
commit-holds S a b (panic, p) h e = absurd cc
commit-holds S a b (lost, p) h e = absurd cc

conclude-holds :
    {A : Type 0} (S : Db → Type 0) (b : A) (r : Result A × Pending)
    → ((a : A) → r.0 ≡ ok a → On S r.1)
    → (conclude r).0 ≡ ok b
    → S (conclude r).1.db
conclude-holds S b (ok a, p) h e =
    commit-holds S a b (statement p) ((Keeps-statement (On-IsStable S)).at p (h a refl)) e
conclude-holds S b (err x, p) h e = absurd cc
conclude-holds S b (panic, p) h e = absurd cc
conclude-holds S b (lost, p) h e = absurd cc

transaction-holds :
    {A : Type 0} (S T : Db → Type 0) (m : Tx A) (w : World) (b : A)
    → Yields (On S) (On T) m
    → S w.db
    → (transaction m w).0 ≡ ok b
    → T (transaction m w).1.db
unfolding transaction apply_all On
transaction-holds S T m w b y s e = conclude-holds T b (m _) (λ a f. y.at _ s a f) e

-- Just after a CreateRecord that returns nil, GetSignedDocument reads the document with its proof at
-- the URI of the record, where the document is no member of a collection, its proof survives JSON,
-- the URI parses, and before the call no commit was stored, under the key of the URI or under the id
-- of the document, with another document or with another proof.
pub create_record-get_signed_document :
    (codec : Codec) (depth : ℕ) (sd : SignedDocument) (doc : Document) (owner key : String)
    (w : World)
    → codec.unmarshal sd.document ≡ ok doc
    → members_of doc.member_of ≡ []
    → codec.unmarshal_proof (codec.marshal_proof sd.proof) ≡ ok sd.proof
    → parse_cc_uri (record_uri (document_id codec sd doc) doc) ≡ ok (owner, key)
    → Agrees sd.document (codec.marshal_proof sd.proof) key w.db
    → Agrees sd.document (codec.marshal_proof sd.proof) (document_id codec sd doc) w.db
    → (create_record codec depth sd w).0 ≡ ok tt
    → get_signed_document codec
        (create_record codec depth sd w).1.db
        (record_uri (document_id codec sd doc) doc)
      ≡ ok sd
unfolding create_record
create_record-get_signed_document codec zero sd doc owner key w m n q u a b e = absurd cc
create_record-get_signed_document codec (suc depth) sd doc owner key w m n q u a b e =
    subst
      (λ o.
        o.0 ≡ ok tt
        → get_signed_document codec o.1.db (record_uri (document_id codec sd doc) doc) ≡ ok sd)
      (sym (
        ap
          (λ r.
            on_ok r
              (λ doc. transaction (create_body codec depth (create_record codec depth) sd doc)) w)
          m))
      (λ f. read_placed codec sd doc key _ owner q u (
        transaction-holds _ _ _ w tt
          (body-places codec sd doc key depth (create_record codec depth) n) (a, b) f))
      e
