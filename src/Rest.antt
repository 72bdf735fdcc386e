-- ===== src/Rest.antt =====
-- internal/present/rest: the routes of the server, from a request to a response. Rest.Routes has the
-- handlers; here are requests, responses and what the handlers call.
pub mod Routes
pub mod Resource
pub mod System
pub mod Laws
pub mod Found
pub mod EndToEnd
mod EndToEndTests
pub mod Tests
use concrnt_playground.Prelude.{
  ℕ, String, Bool, true, false, Option, none, some, List, [], ◌∷◌, Result, ok, err, panic, lost,
  Error, message, not_found, error_text,
}
use concrnt_playground.Prelude.Int.{ℤ}
use concrnt_playground.Prelude.Action.{Action}
use concrnt_playground.Cdid.Stamp.{Time}
use concrnt_playground.Document.{Document, SignedDocument, WellKnownConcrnt, SoftwareInfo}
use concrnt_playground.Chunkline.{Manifest, BodyItem}
use concrnt_playground.Registry.{EntityRow, Server, RegisterRequest}

-- domain.Config, as far as it is read
pub record Config : Type 0 where
  pub fqdn : String
  pub layer : String
  pub csid : String

-- What a handler reads of a request; a parameter or a header that is missing is empty.
pub record Request : Type 0 where
  pub param : String → String
  pub query_param : String → String
  pub accept : String
  pub body : String

-- What is sent as JSON, or as a text, or as the place to go to.
pub data Payload : Type 0 where
  error_response : String → Payload
  status_ok : Payload
  location : String → Payload
  redirect : String → Payload
  text : String → Payload
  entity : EntityRow → Payload
  well_known : WellKnownConcrnt → Payload
  manifest : Manifest → Payload
  signed_document : SignedDocument → Payload
  documents : List (String × Document) → Payload
  document_list : List Document → Payload
  items : List BodyItem → Payload
  counts : List (String × ℕ) → Payload
  ordered_counts : List (String × ℕ × ℤ) → Payload

pub record Response : Type 0 where
  pub status : ℕ
  pub payload : Payload

-- presenter.OK, BadRequest, BadRequestMessage, NotFound and InternalError
abbrev pub success : Payload → Response
success payload = record { status = 200; payload = payload }

abbrev pub bad_request : Error → Response
bad_request e = record { status = 400; payload = error_response (error_text e) }

abbrev pub bad_request_message : String → Response
bad_request_message msg = record { status = 400; payload = error_response msg }

abbrev pub missing : String → Response
missing msg = record { status = 404; payload = error_response msg }

abbrev pub internal_error : Error → Response
internal_error e = record { status = 500; payload = error_response (error_text e) }

-- What becomes of the error of a call: a panic or a hang stays one.
abbrev pub or_internal_error : {A : Type 0} → (A → Payload) → Result A → Result Response
or_internal_error show (ok a) = ok (success (show a))
or_internal_error show (err e) = ok (internal_error e)
or_internal_error show panic = panic
or_internal_error show lost = lost

-- The same, where `errors.Is(err, domain.ErrNotFound)` is asked first.
abbrev pub or_missing : {A : Type 0} → (A → Payload) → Result A → Result Response
or_missing show (ok a) = ok (success (show a))
or_missing show (err (not_found resource)) = ok (missing "resource not found")
or_missing show (err (message msg)) = ok (internal_error (message msg))
or_missing show panic = panic
or_missing show lost = lost

-- What the handlers call, over a state `S` of the whole server, and what echo, encoding/json and
-- time.Parse read.
pub record Services (S : Type 0) : Type 0 where
  pub now : Action S Time
  pub commit : SignedDocument → Action S (Unit {0})
  pub get_signed : String → Action S SignedDocument
  pub query :
      String → String → Option Time → Option Time → ℤ → String → Action S (List (String × Document))
  pub get_chunkline_manifest : String → Action S Manifest
  pub lookup_local_itrs : List String → ℤ → Action S (List (String × ℕ))
  pub load_local_body : String → ℤ → Action S (List BodyItem)
  pub get_recent : List String → Time → ℤ → Action S (List BodyItem)
  pub register : RegisterRequest → Action S (Unit {0})
  pub get_entity : String → String → Action S EntityRow
  pub resolve : String → String → Action S Server
  pub get_associated_records : String → String → String → String → Action S (List Document)
  pub get_associated_record_counts_by_schema : String → Action S (List (String × ℕ))
  pub get_associated_record_counts_by_variant : String → String → Action S (List (String × ℕ × ℤ))
  pub bind_signed_document : String → Result SignedDocument
  pub bind_register_request : String → Result RegisterRequest
  pub parse_rfc3339 : String → Option Time
