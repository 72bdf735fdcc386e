-- ===== src/Rest/Found.antt =====
-- Which document or chunkline a GET of /resource answers with.
use concrnt_playground.Rest.Resource.{answer_or_missing, document_resource, handle_resource}
use concrnt_playground.Rest.{signed_document, manifest, Config, Response, Request, Services}
use concrnt_playground.Prelude.{
  String, ◌≡◌, sym, ap, ◌∙◌, false, ◌==◌, string_eq, if◌then◌else◌, ok,
}
use concrnt_playground.Prelude.Action.{Action}
use concrnt_playground.Url.Escape.{query}
use concrnt_playground.Uri.{parse_cc_uri_with_hint}
use concrnt_playground.Uri.Plain.{
  IsKey, IsOwner, composed, unescape-raw, is_uri_byte, IsRaw-uri, cons_ne_nil,
}
use concrnt_playground.Uri.RoundTrip.{
  parse-composed, every-composed, compose-composed, parse_cc_uri-compose_cc_uri,
}
use concrnt_playground.Uri.Printed.{to_string-parsed}
use concrnt_playground.Rest.{signed_document}

-- The call that a URI with an owner and a key stands for.
abbrev pub resource_at : {S : Type 0} → Services S → Request → String → Action S Response
resource_at services req uri =
    if req.accept == "application/chunkline+json"
    then answer_or_missing manifest (services.get_chunkline_manifest uri)
    else answer_or_missing signed_document (services.get_signed uri)

key_named : (key : String) → IsKey key → (key == "") ≡ false
key_named Prim.Native.String.[] k = elim k [ ]
key_named (Prim.Native.String.◌∷◌ c key) k = cons_ne_nil c key

pub reparsed :
    (owner key : String)
    → IsOwner owner
    → IsKey key
    → parse_cc_uri_with_hint (composed owner key) ≡ ok (owner, key, "")
reparsed owner key o k =
    ap parse_cc_uri_with_hint (sym (compose-composed owner key o k))
    ∙ parse_cc_uri-compose_cc_uri owner key o k

-- A GET of the URI of a plain owner and key answers with the signed document at that very URI, or with
-- its chunkline manifest where the client accepts one; with status 404 where there is none, and with
-- status 500 for every other error.
pub handle_resource-resource_at :
    {S : Type 0} (config : Config) (services : Services S) (req : Request) (owner key : String)
    (s : S)
    → IsOwner owner
    → IsKey key
    → req.param "uri" ≡ composed owner key
    → handle_resource config services req s ≡ resource_at services req (composed owner key) s
unfolding handle_resource document_resource
handle_resource-resource_at config services req owner key s o k e = rw (
  e,
  unescape-raw query is_uri_byte (composed owner key) IsRaw-uri (every-composed owner key o k),
  parse-composed owner key o k,
  reparsed owner key o k,
  key_named key k,
  to_string-parsed owner key o k,
)
