-- ===== src/Repository/Tests.antt =====
-- Runs of the repository of records on small tables, and the properties applied to them.
use concrnt_playground.Prelude.{
  ◌≢◌, String, Bool, true, false, ◌≡◌, refl, ap, sym, none, some, Result, ok, err, panic, lost,
  List, [], ◌∷◌, ◌==◌, string_eq, if◌then◌else◌, arith, message,
}
use concrnt_playground.Prelude.Int.{pos}
use concrnt_playground.Policy.{str}
use concrnt_playground.Document.{Document, SignedDocument, Proof, Codec}
use concrnt_playground.Store.{Db}
use concrnt_playground.Store.Tx.{World, ◌>>=◌, pure, lift}
use concrnt_playground.Repository.Create.{create_record, document_id, record_uri}
use concrnt_playground.Uri.{parse_cc_uri}
use concrnt_playground.Url.Parse.{parse, split_authority}
use concrnt_playground.Url.Join.{join_parent}
use concrnt_playground.Document.{delete_url}
use concrnt_playground.Store.{Record, CommitLog, find_commit}
use concrnt_playground.Repository.Create.{members_of}
use concrnt_playground.Repository.Associate.{create_association}
use concrnt_playground.Repository.Read.{get_signed_document}
use concrnt_playground.Repository.Remove.{delete, delete_target}
use concrnt_playground.Repository.Parents.{get_or_create_parent}
use concrnt_playground.Repository.Laws.Atomic.{
  Fails, create_record-rolls_back, create_association-rolls_back,
}
use concrnt_playground.Repository.Laws.ReadBack.{create_record-get_signed_document}
use concrnt_playground.Repository.Laws.Parents.{root, up, get_or_create_parent-returns}
use concrnt_playground.Repository.Laws.Removal.{IsWithout, delete-any_author, delete-removes}

abbrev note : Document
note = record {
  key = "notes/{cdid}";
  value = str "hello";
  author = "con1alice";
  owner = none;
  schema = "note";
  created_at = record { unix = pos 1700000000; nanosecond = 0 };
  member_of = none;
  associate = none;
  association_variant = none;
}

abbrev proof : Proof
proof = record { type = "concrnt-ecrecover-direct"; signature = some "00"; href = none }

abbrev removal : String → Document
removal author = record note {
  key = "";
  value = str "cc://con1alice/notes/first";
  author = author;
  schema = delete_url;
}

abbrev bad_json : {A : Type 0} → Result A
bad_json = err (message "unexpected end of JSON input")

abbrev codec : Codec
codec = record {
  unmarshal = λ s.
      if s == "note"
      then ok note
      else if s == "own removal"
      then ok (removal "con1alice")
      else if s == "other removal"
      then ok (removal "con1mallory")
      else bad_json;
  marshal = λ doc. doc.key;
  unmarshal_reference = λ s. bad_json;
  unmarshal_proof = λ s. if s == "proof" then ok proof else bad_json;
  marshal_proof = λ p. "proof";
  get_hash = λ s. 1 ∷ 2 ∷ 3 ∷ 4 ∷ 5 ∷ 6 ∷ 7 ∷ 8 ∷ 9 ∷ 10 ∷ 11 ∷ [];
  unique_hash = λ s. s;
}

abbrev signed : String → SignedDocument
signed document = record { document = document; proof = proof }

abbrev world : Db → List Bool → World
world db faults = record {
  db = db;
  next_id = 2;
  clock = 1700000001000000000;
  published = [];
  faults = faults;
  locked = [];
}

abbrev no_rows : Db
no_rows = record { commits = []; owners = []; records = []; keys = []; associations = [] }

-- A note at cc://con1alice/notes/first, and the placeholder above it.
abbrev first_record : Record
first_record = record { document_id = "c1"; owner = "con1alice"; schema = "note"; c_date = 5 }

abbrev first_commit : CommitLog
first_commit = record { id = "c1"; document = "note"; proof = "proof"; gc_candidate = false }

abbrev one_note : Db
one_note = record {
  commits = first_commit ∷ [];
  owners = record { commit_log_id = "c1"; owner = "con1alice" } ∷ [];
  records = first_record ∷ [];
  keys =
      record { id = 0; parent_id = none; uri = "cc://con1alice/notes"; record_id = none }
      ∷ record {
        id = 1;
        parent_id = some 0;
        uri = "cc://con1alice/notes/first";
        record_id = some "c1";
      }
      ∷ [];
  associations = [];
}

abbrev members : Result Document → List String
members (ok doc) = members_of doc.member_of
members r = []

note_created : (create_record codec 5 (signed "note") (world no_rows [])).0 ≡ ok tt
unfolding create_record ◌>>=◌ pure lift split_authority
note_created = refl

note_refused :
    (create_record codec 5 (signed "note") (world no_rows (false ∷ false ∷ true ∷ []))).0
    ≡ err (message "statement failed")
unfolding create_record ◌>>=◌ pure lift split_authority
note_refused = refl

create_record-rolls_back_example :
    (create_record codec 5 (signed "note") (world no_rows (false ∷ false ∷ true ∷ []))).1.db
    ≡ no_rows
create_record-rolls_back_example =
    create_record-rolls_back codec 5 (signed "note") (world no_rows (false ∷ false ∷ true ∷ []))
      no_members fails
  where
    no_members : (doc : Document) → ok note ≡ ok doc → members_of doc.member_of ≡ []
    no_members doc h = ap members (sym h)

    fails :
        Fails (create_record codec 5 (signed "note") (world no_rows (false ∷ false ∷ true ∷ [])))
    fails a e = absurd (cc note_refused)

association_panics : (create_association codec (signed "note") (world no_rows [])).0 ≡ panic
unfolding create_association ◌>>=◌ pure lift
association_panics = refl

create_association-rolls_back_example :
    (create_association codec (signed "note") (world no_rows [])).1.db ≡ no_rows
create_association-rolls_back_example =
    create_association-rolls_back codec (signed "note") (world no_rows [])
      (λ a e. absurd (cc association_panics))

create_record-get_signed_document_example :
    get_signed_document codec
      (create_record codec 5 (signed "note") (world no_rows [])).1.db
      (record_uri (document_id codec (signed "note") note) note)
    ≡ ok (signed "note")
unfolding parse_cc_uri record_uri document_id split_authority find_commit
create_record-get_signed_document_example =
    create_record-get_signed_document codec 5 (signed "note") note _ _ (world no_rows []) refl refl
      refl refl (λ c e. absurd cc) (λ c e. absurd cc) note_created

get_or_create_parent-returns_example :
    (get_or_create_parent 2 "cc://con1alice/notes/first"
      (record { world = world no_rows []; writes = [] })).0
    ≢ lost
unfolding join_parent parse split_authority
get_or_create_parent-returns_example =
    get_or_create_parent-returns 2 1 "cc://con1alice/notes/first"
      (record { world = world no_rows []; writes = [] })
      (up _ refl refl refl (root _ refl refl refl)) (omega arith) refl

delete-any_author_example :
    delete codec (signed "own removal") (world one_note [])
    ≡ delete codec (signed "other removal") (world one_note [])
delete-any_author_example =
    delete-any_author codec (signed "own removal") (signed "other removal") (removal "con1alice")
      (removal "con1mallory") (world one_note []) refl refl refl

delete-removes_example :
    ((delete codec (signed "other removal") (world one_note [])).0 ≡ ok tt)
    × IsWithout "c1" one_note (delete codec (signed "other removal") (world one_note [])).1.db
unfolding delete_target parse_cc_uri split_authority
delete-removes_example =
    delete-removes codec (signed "other removal") (world one_note []) first_record refl refl
