-- ===== src/Chunkline.antt =====
-- internal/infra/repository/chunkline.go and internal/usecase/chunkline.go: the members of a
-- collection in chunks of ten minutes, the newest first.
pub mod Dates
pub mod Gateway
pub mod Laws
pub mod Served
mod Tests
use Prim.Native.String.{◌++◌}
use concrnt_playground.Prelude.{
  ℕ, String, ◌+◌, ◌*◌, ◌/◌, ◌-◌, ◌%◌, ◌^◌, Bool, true, false, not, ◌&&◌, Option, none, some, List,
  [], ◌∷◌, map, ◌==◌, nat_eq, string_eq, if◌then◌else◌, Result, ok, err, panic, lost, Error,
  message, annotate, ◌>>=◌, insert,
}
use concrnt_playground.Prelude.Int.{ℤ, pos, negsuc, i64}
use concrnt_playground.Cdid.Stamp.{Time, u64}
use concrnt_playground.Document.{Codec, reference_url}
use concrnt_playground.Url.Escape.{escape, segment}
use concrnt_playground.Uri.{parse_cc_uri}
use concrnt_playground.Store.{Db, RecordKey, find_key, select}
use concrnt_playground.Store.Sorting.{page}
use concrnt_playground.Store.Joined.{Row, joined, join_keys, c_micros, is_until}
use concrnt_playground.Repository.Read.{get_record_key_by_uri, preload_document}

-- chunkline.Manifest, as far as it is filled, with the two templates of `Descending`
pub record Manifest : Type 0 where
  pub version : String
  pub chunk_size : ℕ
  pub first_chunk : ℕ
  pub iterator : String
  pub body : String

-- chunkline.BodyItem; the time in microseconds, as the database keeps it.
pub record BodyItem : Type 0 where
  pub timestamp : ℕ
  pub href : String
  pub content_type : String

-- `parent_id = ?`
abbrev pub is_child : ℕ → Row → Bool
is_child id row = elim row.key.parent_id [ none ↦ false | some parent ↦ parent == id ]

-- `Unix() / 600`
abbrev pub chunk_of : ℕ → ℕ
chunk_of instant = instant / 1000000 / 600

abbrev pub first_chunk_of : List Row → ℕ
first_chunk_of [] = 0
first_chunk_of (row ∷ rows) = chunk_of (c_micros row)

abbrev pub template : String → String → String → String
template ccid key end = "/chunkline/" ++ (ccid ++ ("/" ++ (escape segment key ++ end)))

-- ChunklineRepository.GetChunklineManifest
unfoldable pub get_chunkline_manifest : Db → String → Result Manifest
unfolding get_record_key_by_uri parse_cc_uri select page join_keys escape
get_chunkline_manifest db uri = do
  key ← get_record_key_by_uri db uri
  parsed ← parse_cc_uri uri
  ok (record {
    version = "1.0";
    chunk_size = 600;
    first_chunk =
        first_chunk_of (page false c_micros (pos 1) (select (is_child key.id) (joined db)));
    iterator = template parsed.0 parsed.1 "/{chunk}/itr";
    body = template parsed.0 parsed.1 "/{chunk}/body";
  })

-- `time.Unix((chunkID+1)*600, 0)` and `time.Unix((chunkID-1)*600, 0)`
abbrev pub seconds : ℕ → Time
seconds word = record { unix = i64 (word % 2 ^ 64); nanosecond = 0 }

abbrev pub chunk_date : ℤ → Time
chunk_date chunk = seconds (((u64 chunk + 1) % 2 ^ 64) * 600)

abbrev pub prev_chunk_date : ℤ → Time
prev_chunk_date chunk = seconds (((u64 chunk + (2 ^ 64 - 1)) % 2 ^ 64) * 600)

abbrev pub before_cutoff : ℕ → ℤ → Row → Bool
before_cutoff id chunk row = is_child id row && is_until (chunk_date chunk) (c_micros row)

-- `MAX(r.c_date)` of a group, which is there where the group is not empty.
abbrev pub put_itr : String → List Row → List (String × ℕ) → List (String × ℕ)
put_itr uri [] itrs = itrs
put_itr uri (row ∷ rows) itrs = insert uri (chunk_of (c_micros row)) itrs

abbrev pub newest_first : Db → Option RecordKey → ℤ → List Row
newest_first db none chunk = []
newest_first db (some parent) chunk =
    page true c_micros (negsuc 0) (select (before_cutoff parent.id chunk) (joined db))

-- ChunklineRepository.LookupLocalItrs, one group after the other; a URI has one row, being unique.
unfoldable pub lookup_local_itrs : Db → List String → ℤ → List (String × ℕ)
unfolding insert find_key select page join_keys
lookup_local_itrs db [] chunk = []
lookup_local_itrs db (uri ∷ uris) chunk =
    put_itr uri (newest_first db (find_key uri db) chunk) (lookup_local_itrs db uris chunk)

abbrev pub in_window : ℕ → ℤ → Row → Bool
in_window id chunk row =
    before_cutoff id chunk row && not (is_until (prev_chunk_date chunk) (c_micros row))

-- Whether there is no row, or the last one is after an instant.
abbrev pub ends_after : Time → List Row → Bool
ends_after t [] = true
ends_after t (row ∷ []) = not (is_until t (c_micros row))
ends_after t (row ∷ next ∷ rows) = ends_after t (next ∷ rows)

-- The members that a body lists: the newest 32 up to the chunk's end, or all of its window where
-- those do not reach back to the window's start.
unfoldable pub body_rows : Db → ℕ → ℤ → List Row
unfolding select page join_keys
body_rows db id chunk =
    let members = page true c_micros (pos 32) (select (before_cutoff id chunk) (joined db)) in
    if ends_after (prev_chunk_date chunk) members
    then page true c_micros (negsuc 0) (select (in_window id chunk) (joined db))
    else members

abbrev pub or_default : String → String → String
or_default default text = if text == "" then default else text

-- What a reference refers to; one that does not decode counts as a document.
abbrev pub referred : ℕ → String → Result (String × String) → BodyItem
referred instant uri (ok (href, content_type)) = record {
  timestamp = instant;
  href = or_default uri href;
  content_type = or_default "application/concrnt.document+json" content_type;
}
referred instant uri _ = record {
  timestamp = instant;
  href = uri;
  content_type = "application/concrnt.document+json";
}

abbrev pub body_item : Codec → Db → Row → BodyItem
body_item codec db row =
    if row.rec.schema == reference_url
    then referred (c_micros row) row.key.uri
        (codec.unmarshal_reference (preload_document db row.rec).document)
    else record {
      timestamp = c_micros row;
      href = row.key.uri;
      content_type = "application/concrnt.document+json";
    }

-- ChunklineRepository.LoadLocalBody
unfoldable pub load_local_body : Codec → Db → String → ℤ → Result (List BodyItem)
unfolding get_record_key_by_uri body_rows preload_document
load_local_body codec db uri chunk = do
  parent ← get_record_key_by_uri db uri
  ok (map (body_item codec db) (body_rows db parent.id chunk))

-- ChunklineUsecase.GetRecent, with a gateway's QueryDescending or none
abbrev pub Gateway : Type 0
Gateway = List String → Time → ℤ → Result (List BodyItem)

unfoldable pub get_recent : Option Gateway → List String → Time → ℤ → Result (List BodyItem)
get_recent none uris until limit = err (message "chunkline gateway not configured")
get_recent (some query_descending) uris until limit =
    annotate "failed to query descending" (query_descending uris until limit)
