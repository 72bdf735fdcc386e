-- ===== src/Repository/QueryTests.antt =====
-- A collection with three members, and Query on it.
use concrnt_playground.Prelude.{
  ℕ, String, ◌*◌, true, false, ◌≡◌, refl, Option, none, some, [], ◌∷◌, ok, err, message, string_eq,
}
use concrnt_playground.Prelude.Int.{pos, negsuc}
use concrnt_playground.Cdid.Stamp.{Time}
use concrnt_playground.Policy.{null}
use concrnt_playground.Document.{Document, Codec}
use concrnt_playground.Store.{Db, Record, RecordKey, CommitLog}
use concrnt_playground.Repository.Query.{wanted, query, get_associated_record_counts_by_schema}
use concrnt_playground.Repository.Laws.Queried.{IsAnswer, query-IsAnswer}

abbrev member_key : ℕ → String → String → RecordKey
member_key id uri record_id = record {
  id = id;
  parent_id = some 1;
  uri = uri;
  record_id = some record_id;
}

abbrev row : String → ℕ → Record
row id seconds = record {
  document_id = id;
  owner = "con1alice";
  schema = "https://example.com/note.json";
  c_date = seconds * 1000000000;
}

abbrev commit : String → CommitLog
commit id = record { id = id; document = id; proof = "{}"; gc_candidate = false }

-- Members at 100, 1200 and 1201 seconds.
abbrev pub timeline : Db
timeline = record {
  commits = commit "d1" ∷ commit "d2" ∷ commit "d3" ∷ [];
  owners = [];
  records = row "d1" 100 ∷ row "d2" 1200 ∷ row "d3" 1201 ∷ [];
  keys =
      record { id = 1; parent_id = none; uri = "cc://con1alice/home"; record_id = none }
      ∷ member_key 2 "cc://con1alice/home/a" "d1"
      ∷ member_key 3 "cc://con1alice/home/b" "d2"
      ∷ member_key 4 "cc://con1alice/home/c" "d3"
      ∷ [];
  associations = [];
}

abbrev note : String → Document
note key = record {
  key = key;
  value = null;
  author = "con1alice";
  owner = none;
  schema = "https://example.com/note.json";
  created_at = record { unix = pos 0; nanosecond = 0 };
  member_of = none;
  associate = none;
  association_variant = none;
}

abbrev pub codec : Codec
codec = record {
  unmarshal = λ s. ok (note s);
  marshal = λ doc. doc.key;
  unmarshal_reference = λ s. ok (s, "");
  unmarshal_proof = λ s. err (message "unexpected end of JSON input");
  marshal_proof = λ p. "";
  get_hash = λ s. [];
  unique_hash = λ s. s;
}

abbrev until : Option Time
until = some (record { unix = pos 1200; nanosecond = 0 })

-- The newest member up to 1200 seconds.
newest_test :
    query codec timeline "cc://con1alice/home/" "" none until (pos 1) "desc"
    ≡ ok (("cc://con1alice/home/b", note "d2") ∷ [])
unfolding query
newest_test = refl

-- A negative limit is no limit, and an underscore in a prefix stands for any character.
unlimited_test :
    query codec timeline "cc://con1_lice" "" none none (negsuc 4) "asc"
    ≡ ok (
        ("cc://con1alice/home/a", note "d1")
        ∷ ("cc://con1alice/home/b", note "d2")
        ∷ ("cc://con1alice/home/c", note "d3")
        ∷ [])
unfolding query
unlimited_test = refl

query-IsAnswer_example :
    IsAnswer codec timeline
      (wanted "cc://con1alice/home/" "" none until)
      (pos 1)
      true
      (("cc://con1alice/home/b", note "d2") ∷ [])
query-IsAnswer_example =
    query-IsAnswer codec timeline "cc://con1alice/home/" "" none until (pos 1) "desc"
      (("cc://con1alice/home/b", note "d2") ∷ []) newest_test

counts_test :
    get_associated_record_counts_by_schema timeline "cc://con1alice/home"
    ≡ err (message "column associations.item_id does not exist")
unfolding get_associated_record_counts_by_schema
counts_test = refl
