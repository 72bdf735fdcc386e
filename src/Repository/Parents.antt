-- ===== src/Repository/Parents.antt =====
-- `getOrCreateParentRecordKey` of internal/infra/repository/record.go.
use concrnt_playground.Prelude.{
  ℕ, zero, suc, String, Option, none, some, Result, ok, err, lost, message, ◌==◌, string_eq,
  if◌then◌else◌,
}
use concrnt_playground.Url.Join.{join_parent}
use concrnt_playground.Url.Parse.{parse}
use concrnt_playground.Store.{RecordKey, find_key}
use concrnt_playground.Store.Tx.{Tx, Pending, ◌>>=◌, pure, lift, query, insert_key}

abbrev pub or_error {ℓ} : {A : Type ℓ} → Option A → Result A
or_error none = err (message "invalid uri")
or_error (some a) = ok a

abbrev pub key_id : Option RecordKey → Option ℕ
key_id none = none
key_id (some k) = some k.id

-- The row that was found, or the one that `create` makes where there is none.
abbrev pub found_or : Option RecordKey → Tx RecordKey → Tx RecordKey
found_or (some k) create = pure k
found_or none create = create

-- A lookup that fails is GetRecordKeyByURI's not found too, so this goes on to the insert then.
abbrev pub softly : Result (Option RecordKey) × Pending → Result (Option RecordKey) × Pending
softly (err e, p) = (ok none, p)
softly r = r

abbrev pub lookup_key : String → Tx (Option RecordKey)
lookup_key uri = λ p. softly ((query (find_key uri)) p)

-- The first argument is how many calls the stack still holds.
unfoldable pub get_or_create_parent : ℕ → String → Tx (Option RecordKey)
unfolding join_parent parse find_key query insert_key
get_or_create_parent zero uri = lift lost
get_or_create_parent (suc depth) uri = do
  parent_uri ← lift (or_error (join_parent uri))
  parsed ← lift (or_error (parse parent_uri))
  let above = get_or_create_parent depth parent_uri
  if parsed.path == "/" then pure none else do
    found ← lookup_key parent_uri
    parent ← found_or found (do grand ← above; insert_key (key_id grand) parent_uri)
    pure (some parent)
