-- ===== src/Repository/Remove.antt =====
-- `Delete` of internal/infra/repository/record.go.
use concrnt_playground.Prelude.{on_ok, Result, ◌>>=◌}
use concrnt_playground.Document.{SignedDocument, Codec, delete_of}
use concrnt_playground.Store.{drop_commit, Record}
use concrnt_playground.Store.Tx.{World, write, transaction}
use concrnt_playground.Repository.Read.{get_record_by_uri}

-- The record that the document names as the one to delete.
unfoldable pub delete_target : Codec → SignedDocument → World → Result Record
unfolding get_record_by_uri delete_of
delete_target codec sd w = do
  doc ← codec.unmarshal sd.document
  uri ← delete_of doc.value
  get_record_by_uri w.db uri

-- RecordRepository.Delete
unfoldable pub delete : Codec → SignedDocument → World → Result (Unit {0}) × World
unfolding delete_target write transaction
delete codec sd w =
    on_ok (delete_target codec sd w) (λ r. transaction (write (drop_commit r.document_id))) w
