-- ===== src/Repository/Associate.antt =====
-- `CreateAssociation` and `CreateAck` of internal/infra/repository/record.go.
use Prim.Native.String.{◌++◌}
use concrnt_playground.Prelude.{
  on_ok, String, Bool, true, false, ◌||◌, Option, none, some, Result, ok, err, panic, message, ◌==◌,
  string_eq,
}
use concrnt_playground.Document.{Document, SignedDocument, Codec}
use concrnt_playground.Store.{Association, add_association, find_key, exists}
use concrnt_playground.Store.Tx.{World, Tx, ◌>>=◌, ◌>>◌, lift, query, push, publish, transaction}
use concrnt_playground.Repository.Create.{document_id, owner_of, write_commit, now}
use concrnt_playground.Repository.Read.{key_or_missing}

abbrev pub clashes : Association → Association → Bool
clashes a b = b.document_id == a.document_id || b.unique == a.unique

abbrev pub add_unless : Association → Bool → Tx (Unit {0})
add_unless a true = lift (err (message "duplicate key value"))
add_unless a false = λ p. (ok tt, push (add_association a) p)

-- INSERT of an association: its document and its `unique` column may not be there yet.
unfoldable pub insert_association : Association → Tx (Unit {0})
unfolding query exists
insert_association a = do
  taken ← query (λ db. exists (clashes a) db.associations)
  add_unless a taken

abbrev pub or_empty : Option String → String
or_empty none = ""
or_empty (some s) = s

-- `*doc.Associate`
abbrev pub deref : Option String → Result String
deref none = panic
deref (some s) = ok s

unfoldable pub associate_body : Codec → SignedDocument → Document → Tx (Unit {0})
unfolding document_id write_commit find_key query insert_association publish
associate_body codec sd doc = do
  let id = document_id codec sd doc
  write_commit codec id sd doc
  target_uri ← lift (deref doc.associate)
  found ← query (find_key target_uri)
  target ← lift (key_or_missing found)
  clock ← now
  insert_association (record {
    target_id = target.id;
    document_id = id;
    unique = codec.unique_hash (owner_of doc ++ (target_uri ++ or_empty doc.association_variant));
    owner = owner_of doc;
    schema = doc.schema;
    value = sd.document;
    c_date = clock;
  })
  publish target.uri (record { type = "associated"; uri = target.uri; sd = sd })

-- RecordRepository.CreateAssociation
unfoldable pub create_association : Codec → SignedDocument → World → Result (Unit {0}) × World
unfolding associate_body transaction
create_association codec sd =
    on_ok (codec.unmarshal sd.document) (λ doc. transaction (associate_body codec sd doc))

-- RecordRepository.CreateAck
unfoldable pub create_ack : SignedDocument → World → Result (Unit {0}) × World
create_ack sd w = (err (message "not implemented"), w)
