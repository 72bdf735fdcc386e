-- ===== src/Rest/EndToEnd.antt =====
-- A document that was posted, and the GET that reads it back.
use concrnt_playground.Rest.System.{on_world, services, System, Setup}
use concrnt_playground.Prelude.{
  ok_injective, String, ◌≡◌, ◌≢◌, refl, sym, subst, ap, ◌∙◌, Bool, false, none, [], ◌==◌, string_eq,
  if◌then◌else◌, Result, ok, err, panic, lost, eq_iff, arith,
}
use concrnt_playground.Document.{Document, SignedDocument, delete_url}
use concrnt_playground.Uri.{parse_cc_uri}
use concrnt_playground.Uri.Plain.{IsKey, IsOwner, composed}
use concrnt_playground.Repository.Create.{create_record, record_uri, document_id, members_of}
use concrnt_playground.Repository.Read.{get_signed_document}
use concrnt_playground.Repository.Laws.Stored.{Agrees}
use concrnt_playground.Repository.Laws.ReadBack.{create_record-get_signed_document}
use concrnt_playground.Usecase.{commit, repository}
use concrnt_playground.Usecase.Laws.{commit-created}
use concrnt_playground.Rest.{
  manifest, or_missing, Action, status_ok, or_internal_error, Request, Response, signed_document,
  success,
}
use concrnt_playground.Rest.Routes.{bound, answer, handle_commit}
use concrnt_playground.Rest.Resource.{handle_resource, answer_or_missing}
use concrnt_playground.Rest.Found.{reparsed, handle_resource-resource_at}

-- What a posted document needs for its GET: it creates a record that is in no collection, its URI is
-- that of a plain owner and key, its proof survives JSON, and no commit is stored already, under its
-- key or its id, with another document or with another proof.
pub record IsPlainPost (setup : Setup) (req : Request) (s : System) (sd : SignedDocument)
    (doc : Document) (owner key : String) : Type 0 where
  pub bound : setup.bind_signed_document req.body ≡ ok sd
  pub decoded : setup.codec.unmarshal sd.document ≡ ok doc
  pub creation : doc.schema ≢ delete_url
  pub unassociated : doc.associate ≡ none
  pub no_members : members_of doc.member_of ≡ []
  pub proof : setup.codec.unmarshal_proof (setup.codec.marshal_proof sd.proof) ≡ ok sd.proof
  pub owner_plain : IsOwner owner
  pub key_plain : IsKey key
  pub uri : record_uri (document_id setup.codec sd doc) doc ≡ composed owner key
  pub under_key : Agrees sd.document (setup.codec.marshal_proof sd.proof) key s.world.db
  pub under_id :
      Agrees sd.document
        (setup.codec.marshal_proof sd.proof)
        (document_id setup.codec sd doc)
        s.world.db

succeeded :
    (r : Result (Unit {0})) (response : Response)
    → or_internal_error (λ u. status_ok) r ≡ ok response
    → response.status ≡ 200
    → r ≡ ok tt
succeeded (ok tt) response e f = refl
succeeded (err x) response e f =
    let g : 500 ≡ response.status = ap (λ r. r.status) (ok_injective _ response e) in
    absurd (omega arith)
succeeded panic response e f = absurd cc
succeeded lost response e f = absurd cc

parsed_uri :
    (owner key : String)
    → IsOwner owner
    → IsKey key
    → parse_cc_uri (composed owner key) ≡ ok (owner, key)
unfolding parse_cc_uri
parsed_uri owner key o k = rw (reparsed owner key o k) refl

module _ (setup : Setup) (req : Request) (s : System) (sd : SignedDocument) (doc : Document)
    (owner key : String) (post : IsPlainPost setup req s sd doc owner key)
    (response : Response) where
  runs :
      handle_commit (services setup) req s
      ≡ answer
          (λ u. status_ok)
          (on_world (commit (repository setup.codec setup.depth) setup.codec setup.curve sd))
          s
  unfolding handle_commit
  runs =
      ap
        (λ r.
          bound r
            (λ sd.
              answer (λ u. status_ok)
                (on_world (commit (repository setup.codec setup.depth) setup.codec setup.curve sd)))
            s)
        post.bound

  committed :
      (handle_commit (services setup) req s).0 ≡ ok response
      → response.status ≡ 200
      → (commit (repository setup.codec setup.depth) setup.codec setup.curve sd s.world).0 ≡ ok tt
  unfolding answer
  committed e f = succeeded _ response (sym (ap (λ o. o.0) runs) ∙ e) f

  created :
      (handle_commit (services setup) req s).0 ≡ ok response
      → response.status ≡ 200
      → (create_record setup.codec setup.depth sd s.world).0 ≡ ok tt
        × ((handle_commit (services setup) req s).1.world
            ≡ (create_record setup.codec setup.depth sd s.world).1)
  unfolding answer
  created e f =
      let c =
        commit-created (repository setup.codec setup.depth) setup.codec setup.curve sd doc s.world
          post.decoded post.creation post.unassociated (committed e f) in
      (sym (ap (λ o. o.0) c) ∙ committed e f, ap (λ o. o.1.world) runs ∙ ap (λ o. o.1) c)

  stored :
      (handle_commit (services setup) req s).0 ≡ ok response
      → response.status ≡ 200
      → get_signed_document setup.codec
          (handle_commit (services setup) req s).1.world.db
          (composed owner key)
        ≡ ok sd
  stored e f =
      let (k, w) = created e f in
      subst (λ v. get_signed_document setup.codec v.db (composed owner key) ≡ ok sd) (sym w)
        (subst
          (λ u.
            get_signed_document setup.codec (create_record setup.codec setup.depth sd s.world).1.db
              u
            ≡ ok sd)
          post.uri
          (create_record-get_signed_document setup.codec setup.depth sd doc owner key s.world
            post.decoded post.no_members post.proof
            (ap parse_cc_uri post.uri ∙ parsed_uri owner key post.owner_plain post.key_plain)
            post.under_key post.under_id k))

  abbrev asked : Request → Bool → Action System Response
  asked get b =
      if b
      then answer_or_missing manifest ((services setup).get_chunkline_manifest (composed owner key))
      else answer_or_missing signed_document ((services setup).get_signed (composed owner key))

  other_accept :
      (get : Request)
      → get.accept ≢ "application/chunkline+json"
      → (get.accept == "application/chunkline+json") ≡ false
  other_accept get n = ground (arith, eq_iff get.accept "application/chunkline+json", n)

  -- Just after a POST that answered with status 200, a GET of the document's URI answers with that
  -- document and its proof, and with status 200, where the document is neither an association nor a
  -- deletion nor a member of a collection, its URI is that of a plain owner and key, its proof
  -- survives JSON, before the POST no commit was stored, under that key or under the id of the
  -- document, with another document or with another proof, and the GET does not ask for a manifest.
  pub handle_resource-handle_commit :
      (handle_commit (services setup) req s).0 ≡ ok response
      → response.status ≡ 200
      → (get : Request) → get.param "uri" ≡ composed owner key
      → get.accept ≢ "application/chunkline+json"
      → (handle_resource setup.config
          (services setup)
          get
          (handle_commit (services setup) req s).1).0
        ≡ ok (success (signed_document sd))
  unfolding answer_or_missing
  handle_resource-handle_commit e f get p n =
      let t = (handle_commit (services setup) req s).1 in
      ap (λ o. o.0)
        (handle_resource-resource_at setup.config (services setup) get owner key t post.owner_plain
          post.key_plain p)
      ∙ (ap (λ b. (asked get b t).0) (other_accept get n)
          ∙ ap (or_missing signed_document) (stored e f))
