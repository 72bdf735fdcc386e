-- ===== src/Repository/Read.antt =====
-- The lookups of internal/infra/repository/record.go, outside and inside a transaction.
use concrnt_playground.Prelude.{
  String, false, Option, none, some, Result, ok, err, not_found, ◌>>=◌,
}
use concrnt_playground.Document.{Document, SignedDocument, Codec}
use concrnt_playground.Uri.{parse_cc_uri}
use concrnt_playground.Store.{Db, CommitLog, Record, RecordKey, find_commit, find_record, find_key}

-- The zero values, which Preload leaves where there is no row.
abbrev pub zero_commit : CommitLog
zero_commit = record { id = ""; document = ""; proof = ""; gc_candidate = false }

abbrev pub zero_record : Record
zero_record = record { document_id = ""; owner = ""; schema = ""; c_date = 0 }

abbrev pub or_zero {ℓ} : {A : Type ℓ} → A → Option A → A
or_zero z none = z
or_zero z (some a) = a

-- Preload("Record") and Preload("Record.Document")
unfoldable pub preload_record : Db → Option String → Record
unfolding find_record
preload_record db none = zero_record
preload_record db (some id) = or_zero zero_record (find_record id db)

unfoldable pub preload_document : Db → Record → CommitLog
unfolding find_commit
preload_document db r = or_zero zero_commit (find_commit r.document_id db)

-- A statement that failed counts as no row in these lookups; here none fails.
abbrev pub commit_by_key : Db → Option RecordKey → Result CommitLog
commit_by_key db none = err (not_found "commit")
commit_by_key db (some k) = ok (preload_document db (preload_record db k.record_id))

abbrev pub commit_or : Db → String → Option CommitLog → Result CommitLog
commit_or db uri (some c) = ok c
commit_or db uri none = commit_by_key db (find_key uri db)

-- getCommitByURI
unfoldable pub get_commit_by_uri : Db → String → Result CommitLog
unfolding find_commit find_key preload_record preload_document
get_commit_by_uri db uri = do p ← parse_cc_uri uri; commit_or db uri (find_commit p.1 db)

abbrev pub record_by_key : Db → Option RecordKey → Result Record
record_by_key db none = err (not_found "record")
record_by_key db (some k) = ok (preload_record db k.record_id)

abbrev pub record_or : Db → String → Option Record → Result Record
record_or db uri (some r) = ok r
record_or db uri none = record_by_key db (find_key uri db)

-- getRecordByURI
unfoldable pub get_record_by_uri : Db → String → Result Record
unfolding find_record find_key preload_record
get_record_by_uri db uri = do p ← parse_cc_uri uri; record_or db uri (find_record p.1 db)

abbrev pub key_or_missing : Option RecordKey → Result RecordKey
key_or_missing none = err (not_found "record key")
key_or_missing (some k) = ok k

-- GetRecordKeyByURI
unfoldable pub get_record_key_by_uri : Db → String → Result RecordKey
unfolding find_key
get_record_key_by_uri db uri = key_or_missing (find_key uri db)

-- RecordRepository.GetDocument
unfoldable pub get_document : Codec → Db → String → Result Document
unfolding get_commit_by_uri
get_document codec db uri = do commit ← get_commit_by_uri db uri; codec.unmarshal commit.document

abbrev pub signed : Codec → CommitLog → Result SignedDocument
signed codec commit = do
  proof ← codec.unmarshal_proof commit.proof
  ok (record { document = commit.document; proof = proof })

-- RecordRepository.GetSignedDocument
unfoldable pub get_signed_document : Codec → Db → String → Result SignedDocument
unfolding get_commit_by_uri
get_signed_document codec db uri = get_commit_by_uri db uri >>= signed codec
