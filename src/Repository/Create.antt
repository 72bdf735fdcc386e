-- ===== src/Repository/Create.antt =====
-- `CreateRecord` of internal/infra/repository/record.go.
use concrnt_playground.Prelude.{
  on_ok, ℕ, zero, suc, ◌/◌, ◌%◌, String, false, Option, none, some, Result, ok, err, panic, lost,
  List, [], ◌∷◌, take, ◌==◌, string_eq, if◌then◌else◌,
}
use concrnt_playground.Prelude.Int.{pos}
use concrnt_playground.Cdid.{new}
use concrnt_playground.Cdid
use concrnt_playground.Cdid.Stamp.{Time}
use concrnt_playground.Document.{Document, SignedDocument, Proof, Codec, reference, reference_url}
use concrnt_playground.Uri.{parse_cc_uri, compose_cc_uri}
use concrnt_playground.Url.Bytes.{replace_all}
use concrnt_playground.Url.Join.{join_two}
use concrnt_playground.Store.{
  RecordKey, add_commit, add_owner, add_record, flag_gc, drop_record, find_key,
}
use concrnt_playground.Store.Tx.{
  World, Tx, ◌>>=◌, ◌>>◌, pure, lift, query, write, upsert_record_key, publish, nested, transaction,
}
use concrnt_playground.Repository.Parents.{get_or_create_parent, key_id}

-- The id of a signed document: ten bytes of its hash and its time.
unfoldable pub document_id : Codec → SignedDocument → Document → String
unfolding Cdid.string Cdid.new
document_id codec sd doc =
    Cdid.string (Cdid.new (take 10 (codec.get_hash sd.document)) doc.created_at)

abbrev pub or_author : Option String → String → String
or_author none author = author
or_author (some o) author = o

-- `owner := doc.Author`, or the owner that the document names
abbrev pub owner_of : Document → String
owner_of doc = or_author doc.owner doc.author

abbrev also : Option String → String → List String
also none author = []
also (some o) author = if author == "" then [] else o ∷ []

abbrev pub owners_of : Document → List String
owners_of doc = doc.author ∷ also doc.owner doc.author

-- The key with the id put in, and the URI of the record.
unfoldable pub record_uri : String → Document → String
unfolding replace_all compose_cc_uri
record_uri id doc = compose_cc_uri (owner_of doc) (replace_all "{cdid}" id doc.key)

-- time.Now() and the instant of a document's time
abbrev pub instant : ℕ → Time
instant n = record { unix = pos (n / 1000000000); nanosecond = n % 1000000000 }

abbrev pub now : Tx ℕ
now p = (ok p.world.clock, p)

-- The rows of commit_logs and commit_owners, which both functions write first.
unfoldable pub write_owners : String → List String → Tx (Unit {0})
unfolding write
write_owners id [] = pure tt
write_owners id (o ∷ os) = do
  write (add_owner (record { commit_log_id = id; owner = o }))
  write_owners id os

unfoldable pub write_commit : Codec → String → SignedDocument → Document → Tx (Unit {0})
unfolding write write_owners
write_commit codec id sd doc = do
  write (
      add_commit (record {
        id = id;
        document = sd.document;
        proof = codec.marshal_proof sd.proof;
        gc_candidate = false;
      }))
  write_owners id (owners_of doc)

-- The commit that the key pointed at becomes a candidate for collection, and its record goes.
abbrev pub retire_record : String → Option String → Tx (Unit {0})
retire_record id none = pure tt
retire_record id (some r) = if r == id then pure tt else do write (flag_gc r); write (drop_record r)

abbrev pub retire : String → Option RecordKey → Tx (Unit {0})
retire id none = pure tt
retire id (some k) = retire_record id k.record_id

-- The reference that a member of a collection leaves there.
abbrev pub reference_document : String → String → String → String → ℕ → Document
reference_document path uri owner member_owner clock = record {
  key = path;
  value = reference uri;
  author = owner;
  owner = some member_owner;
  schema = reference_url;
  created_at = instant clock;
  member_of = none;
  associate = none;
  association_variant = none;
}

abbrev pub reference_proof : String → Proof
reference_proof uri = record { type = "document-reference"; signature = none; href = some uri }

-- One turn of the loop over `MemberOf`: a URI that does not parse and a reference that fails are
-- passed over.
abbrev pub distribute_to :
    Codec
    → (SignedDocument → World → Result (Unit {0}) × World)
    → String
    → String
    → String
    → Result (String × String)
    → Tx (Unit {0})
    → Tx (Unit {0})
distribute_to codec create id uri owner (ok (member_owner, key)) rest = do
  clock ← now
  let doc = reference_document (join_two key id) uri owner member_owner clock
  let reference_sd : SignedDocument = record {
    document = codec.marshal doc;
    proof = reference_proof uri;
  }
  failure ← nested (create reference_sd)
  rest
distribute_to codec create id uri owner (err e) rest = rest
distribute_to codec create id uri owner panic rest = lift panic
distribute_to codec create id uri owner lost rest = lift lost

-- The loop over `MemberOf`
unfoldable pub distribute :
    Codec
    → (SignedDocument → World → Result (Unit {0}) × World)
    → String
    → String
    → String
    → List String
    → Tx (Unit {0})
unfolding parse_cc_uri join_two nested
distribute codec create id uri owner [] = pure tt
distribute codec create id uri owner (member ∷ members) =
    distribute_to codec create id uri owner (parse_cc_uri member)
      (distribute codec create id uri owner members)

abbrev pub members_of : Option (List String) → List String
members_of none = []
members_of (some us) = us

-- The part of the transaction that writes the tables.
unfoldable pub store_record : Codec → ℕ → String → SignedDocument → Document → Tx (Unit {0})
unfolding write_commit write find_key query get_or_create_parent upsert_record_key record_uri
store_record codec depth id sd doc = do
  write_commit codec id sd doc
  clock ← now
  write (
      add_record
        (record { document_id = id; owner = owner_of doc; schema = doc.schema; c_date = clock }))
  old ← query (find_key (record_uri id doc))
  parent ← get_or_create_parent depth (record_uri id doc)
  upsert_record_key (key_id parent) (record_uri id doc) id
  retire id old

unfoldable pub create_body :
    Codec
    → ℕ
    → (SignedDocument → World → Result (Unit {0}) × World)
    → SignedDocument
    → Document
    → Tx (Unit {0})
unfolding document_id record_uri store_record distribute publish
create_body codec depth create sd doc = do
  let id = document_id codec sd doc
  store_record codec depth id sd doc
  distribute codec create id (record_uri id doc) (owner_of doc) (members_of doc.member_of)
  publish (record_uri id doc) (record { type = "created"; uri = record_uri id doc; sd = sd })

-- RecordRepository.CreateRecord; the number is how many calls the stack still holds.
unfoldable pub create_record : Codec → ℕ → SignedDocument → World → Result (Unit {0}) × World
unfolding create_body transaction
create_record codec zero sd w = (lost, w)
create_record codec (suc depth) sd w =
    let create = create_record codec depth in
    on_ok (codec.unmarshal sd.document) (λ doc. transaction (create_body codec depth create sd doc))
      w
