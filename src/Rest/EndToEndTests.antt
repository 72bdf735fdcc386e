-- ===== src/Rest/EndToEndTests.antt =====
-- A note that alice posts, and its GET.
use concrnt_playground.Prelude.{String, ◌≡◌, refl, none, some, [], ◌∷◌, string_eq, ok}
use concrnt_playground.Prelude.Int.{pos}
use concrnt_playground.Policy.{null}
use concrnt_playground.Document.{Document, SignedDocument, Proof, Codec}
use concrnt_playground.Store.{Db}
use concrnt_playground.Rest.{status_ok, success, signed_document}
use concrnt_playground.Rest.Routes.{handle_commit}
use concrnt_playground.Rest.Resource.{handle_resource}
use concrnt_playground.Rest.System.{System, Setup, services}
use concrnt_playground.Rest.Tests.{config, setup, running, nothing, get_request}
use concrnt_playground.Rest.EndToEnd.{IsPlainPost, handle_resource-handle_commit}

abbrev note : Document
note = record {
  key = "notes/first";
  value = null;
  author = "con1alice";
  owner = none;
  schema = "note";
  created_at = record { unix = pos 1700000000; nanosecond = 0 };
  member_of = none;
  associate = none;
  association_variant = none;
}

abbrev proof : Proof
proof = record { type = "concrnt-ecrecover-direct"; signature = some "00"; href = none }

abbrev posted : SignedDocument
posted = record { document = "note"; proof = proof }

abbrev codec : Codec
codec = record {
  unmarshal = λ s. ok note;
  marshal = λ doc. doc.key;
  unmarshal_reference = λ s. ok (s, "");
  unmarshal_proof = λ s. ok proof;
  marshal_proof = λ p. "proof";
  get_hash = λ s. 1 ∷ 2 ∷ 3 ∷ 4 ∷ 5 ∷ 6 ∷ 7 ∷ 8 ∷ 9 ∷ 10 ∷ 11 ∷ [];
  unique_hash = λ s. s;
}

abbrev alices : Setup
alices = record setup { codec = codec; bind_signed_document = λ s. ok posted }

abbrev no_rows : Db
no_rows = record { commits = []; owners = []; records = []; keys = []; associations = [] }

abbrev empty : System
empty = record running { world = record running.world { db = no_rows } }

post_answered :
    (handle_commit (services alices) (get_request nothing nothing) empty).0 ≡ ok (success status_ok)
unfolding handle_commit concrnt_playground.Usecase.commit concrnt_playground.Usecase.validate
    concrnt_playground.Crypto.decode_hex concrnt_playground.Crypto.verify_signature
    concrnt_playground.Usecase.accept concrnt_playground.Repository.Create.create_record
    concrnt_playground.Store.Tx.◌>>=◌ concrnt_playground.Store.Tx.pure
    concrnt_playground.Store.Tx.lift concrnt_playground.Url.Parse.split_authority
post_answered = refl

post-IsPlainPost :
    IsPlainPost alices (get_request nothing nothing) empty posted note "con1alice" "notes/first"
unfolding concrnt_playground.Repository.Create.record_uri concrnt_playground.Url.Bytes.every
    concrnt_playground.Url.Bytes.is_one_of concrnt_playground.Store.find_commit
post-IsPlainPost = record {
  bound = refl;
  decoded = refl;
  creation = λ e. cc e;
  unassociated = refl;
  no_members = refl;
  proof = refl;
  owner_plain = refl;
  key_plain = (λ e. cc e, refl);
  uri = refl;
  under_key = λ c e. absurd (cc e);
  under_id = λ c e. absurd (cc e);
}

abbrev at_note : String → String
at_note name = "cc://con1alice/notes/first"

handle_resource-handle_commit_example :
    (handle_resource config
      (services alices)
      (get_request at_note nothing)
      (handle_commit (services alices) (get_request nothing nothing) empty).1).0
    ≡ ok (success (signed_document posted))
handle_resource-handle_commit_example =
    handle_resource-handle_commit alices (get_request nothing nothing) empty posted note "con1alice"
      "notes/first" post-IsPlainPost (success status_ok) post_answered refl
      (get_request at_note nothing) refl (λ e. cc e)
