-- ===== src/Document.antt =====
-- types.go: documents, proofs and events; and the JSON that carries them.
use concrnt_playground.Prelude.{ℕ, String, Option, List, string_eq, Result, ok, err, message}
use concrnt_playground.Policy.{Value, null, str, obj, field, end}
use concrnt_playground.Cdid.Stamp.{Time}

-- concrnt.Document[any]; a nil pointer is `none`, and `Policies` is not read by the program.
pub record Document : Type 0 where
  pub key : String
  pub value : Value
  pub author : String
  pub owner : Option String
  pub schema : String
  pub created_at : Time
  pub member_of : Option (List String)
  pub associate : Option String
  pub association_variant : Option String

-- concrnt.Proof
pub record Proof : Type 0 where
  pub type : String
  pub signature : Option String
  pub href : Option String

-- concrnt.SignedDocument
pub record SignedDocument : Type 0 where
  pub document : String
  pub proof : Proof

-- concrnt.Event
pub record Event : Type 0 where
  pub type : String
  pub uri : String
  pub sd : SignedDocument

abbrev pub delete_url : String
delete_url = "https://schema.concrnt.net/delete.json"

abbrev pub reference_url : String
reference_url = "https://schema.concrnt.net/reference.json"

abbrev pub proof_type_ecrecover : String
proof_type_ecrecover = "concrnt-ecrecover-direct"

-- A `schemas.Delete` read from the value of a document: null leaves the empty text.
unfoldable pub delete_of : Value → Result String
delete_of (str s) = ok s
delete_of null = ok ""
delete_of _ = err (message "json: cannot unmarshal value into schemas.Delete")

-- `schemas.Reference{Href: href}` as a value
abbrev pub reference : String → Value
reference href = obj (field "href" (str href) end)

-- What encoding/json does with documents and proofs, and the two hashes, which modules outside the
-- repository compute. Documents of all value types are one type here: `value` is what
-- the field holds as an `any`.
pub record Codec : Type 0 where
  pub unmarshal : String → Result Document
  pub marshal : Document → String
  -- the href and the content type of a Document[schemas.Reference]
  pub unmarshal_reference : String → Result (String × String)
  pub unmarshal_proof : String → Result Proof
  pub marshal_proof : Proof → String
  -- GetHash of crypto.go, which Crypto.Signing has over the Keccak of a `Curve`
  pub get_hash : String → List ℕ
  -- xxh3.HashString, printed in hexadecimal
  pub unique_hash : String → String

-- concrnt.ConcrntEndpoint
pub record ConcrntEndpoint : Type 0 where
  pub template : String
  pub method : String
  pub query : Option (List String)

-- concrnt.SoftwareInfo
pub record SoftwareInfo : Type 0 where
  pub version : String
  pub build_machine : String
  pub build_time : String
  pub go_version : String

-- concrnt.WellKnownConcrnt
pub record WellKnownConcrnt : Type 0 where
  pub version : String
  pub domain : String
  pub csid : String
  pub layer : String
  pub endpoints : List (String × ConcrntEndpoint)
  pub software_info : SoftwareInfo

-- concrnt.Entity
pub record Entity : Type 0 where
  pub ccid : String
  pub domain : String
  pub affiliation_document : String
  pub affiliation_signature : String
