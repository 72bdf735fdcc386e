-- ===== src/Repository/Query.antt =====
-- The lists of internal/infra/repository/record.go: Query, GetAssociatedRecords and the two counts.
use concrnt_playground.Prelude.{
  ℕ, String, Bool, true, Option, none, some, List, [], ◌∷◌, ◌==◌, string_eq, ◌&&◌, ◌||◌, Result, ok,
  err, message, ◌>>=◌, ◌>>◌, insert,
}
use concrnt_playground.Prelude.Int.{ℤ}
use concrnt_playground.Cdid.Stamp.{Time}
use concrnt_playground.Document.{Document, Codec}
use concrnt_playground.Store.{Db, select}
use concrnt_playground.Store.Sorting.{page}
use concrnt_playground.Store.Joined.{Row, join_keys, joined, c_micros, is_since, is_until}
use concrnt_playground.Store.Like.{like}
use concrnt_playground.Repository.Read.{get_record_key_by_uri, preload_document}

abbrev in_range : (Time → ℕ → Bool) → Option Time → ℕ → Bool
in_range test none c = true
in_range test (some t) c = test t c

-- The conditions of Query.
abbrev pub wanted : String → String → Option Time → Option Time → Row → Bool
wanted prefix schema since until row =
    like (Prim.Native.String.◌++◌ prefix "%") row.key.uri
    && (schema == "" || row.rec.schema == schema)
    && in_range is_since since (c_micros row)
    && in_range is_until until (c_micros row)

-- The document of each row, put into a map by the row's URI.
unfoldable pub read_rows :
    Codec → Db → List Row → List (String × Document) → Result (List (String × Document))
unfolding insert preload_document
read_rows codec db [] documents = ok documents
read_rows codec db (row ∷ rows) documents =
    codec.unmarshal (preload_document db row.rec).document >>= λ doc.
    read_rows codec db rows (insert row.key.uri doc documents)

abbrev pub queried : Db → String → String → Option Time → Option Time → ℤ → String → List Row
queried db prefix schema since until limit order =
    page (order == "desc") c_micros limit (select (wanted prefix schema since until) (joined db))

-- RecordRepository.Query
unfoldable pub query :
    Codec
    → Db
    → String
    → String
    → Option Time
    → Option Time
    → ℤ
    → String
    → Result (List (String × Document))
unfolding read_rows like select page join_keys
query codec db prefix schema since until limit order =
    read_rows codec db (queried db prefix schema since until limit order) []

-- The three statements join on `associations.item_id`, which is no column of the table, so the
-- database refuses each of them, whatever the rest of the statement is.
abbrev no_item_id : {A : Type 0} → Result A
no_item_id = err (message "column associations.item_id does not exist")

-- RecordRepository.GetAssociatedRecords
unfoldable pub get_associated_records :
    Db → String → String → String → String → Result (List Document)
unfolding get_record_key_by_uri
get_associated_records db target schema variant author = do
  get_record_key_by_uri db target
  no_item_id

-- RecordRepository.GetAssociatedRecordCountsBySchema
unfoldable pub get_associated_record_counts_by_schema : Db → String → Result (List (String × ℕ))
unfolding get_record_key_by_uri
get_associated_record_counts_by_schema db target = do get_record_key_by_uri db target; no_item_id

-- RecordRepository.GetAssociatedRecordCountsByVariant, with the order of each variant
unfoldable pub get_associated_record_counts_by_variant :
    Db → String → String → Result (List (String × ℕ × ℤ))
unfolding get_record_key_by_uri
get_associated_record_counts_by_variant db target schema = do
  get_record_key_by_uri db target
  no_item_id
