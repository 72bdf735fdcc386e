-- ===== src/Rest/Resource.antt =====
-- handleResource of internal/present/rest/handler.go: what a URI stands for.
use Prim.Native.String.{◌++◌}
use concrnt_playground.Prelude.{
  String, ◌||◌, ◌==◌, string_eq, if◌then◌else◌, Result, ok, err, panic, lost,
}
use concrnt_playground.Prelude.Action.{Action}
use concrnt_playground.Url.{Url}
use concrnt_playground.Url.Escape.{unescape, query}
use concrnt_playground.Url.Parse.{parse}
use concrnt_playground.Url.Print.{to_string}
use concrnt_playground.Uri.{parse_cc_uri_with_hint, is_ccid}
use concrnt_playground.Rest.{
  Config, Request, Response, Payload, Services, or_missing, location, redirect, entity, well_known,
  manifest, signed_document,
}
use concrnt_playground.Rest.Routes.{answer, given, refuse, reply}

-- A call whose NotFoundError is a 404
unfoldable pub answer_or_missing : {S A : Type 0} → (A → Payload) → Action S A → Action S Response
answer_or_missing show m s = (or_missing show (m s).0, (m s).1)

module _ {S : Type 0} (config : Config) (services : Services S) where
  -- A URI with no key stands for an entity, for this server, or for another one.
  unfoldable pub owner_resource : String → String → Action S Response
  unfolding is_ccid answer
  owner_resource owner hint =
      if is_ccid owner
      then answer entity (services.get_entity owner hint)
      else if owner == config.csid
      then reply (record {
        status = 303;
        payload = redirect ("https://" ++ (config.fqdn ++ "/.well-known/concrnt"));
      })
      else answer (λ server. well_known server.well_known) (services.resolve owner hint)

  -- A URI with a key stands for a document, or for a chunkline where the client accepts one.
  unfoldable pub document_resource : Request → String → Url → Action S Response
  unfolding answer_or_missing to_string
  document_resource req uri_string uri =
      if req.accept == "application/chunkline+json"
      then answer_or_missing manifest (services.get_chunkline_manifest uri_string)
      else answer_or_missing signed_document (services.get_signed (to_string uri))

  abbrev pub cc_resource :
      Request → String → Url → Result (String × String × String) → Action S Response
  cc_resource req uri_string uri (ok (owner, key, hint)) =
      if key == "" then owner_resource owner hint else document_resource req uri_string uri
  cc_resource req uri_string uri (err e) = refuse "invalid uri"
  cc_resource req uri_string uri panic = λ s. (panic, s)
  cc_resource req uri_string uri lost = λ s. (lost, s)

  unfoldable pub handle_resource : Request → Action S Response
  unfolding unescape parse to_string parse_cc_uri_with_hint owner_resource document_resource
  handle_resource req = given (unescape query (req.param "uri")) "invalid uri" λ uri_string.
      given (parse uri_string) "invalid uri" λ uri.
        if uri.scheme == "http" || uri.scheme == "https"
        then reply (record { status = 303; payload = location (to_string uri) })
        else if uri.scheme == "cc"
        then cc_resource req uri_string uri (parse_cc_uri_with_hint uri_string)
        else refuse "unsupported uri scheme"
