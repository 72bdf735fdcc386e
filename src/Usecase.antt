-- ===== src/Usecase.antt =====
-- internal/usecase/record.go: `Commit` checks who signed a document and hands it to the operation
-- that its schema and its `associate` call for.
pub mod Laws
mod Tests
use concrnt_playground.Prelude.{
  on_ok, ℕ, String, Bool, true, false, Option, none, some, Result, ok, err, panic, lost, message,
  ◌>>=◌, ◌==◌, string_eq, if◌then◌else◌,
}
use concrnt_playground.Crypto.{Curve, verify_signature, decode_hex, or_fail}
use concrnt_playground.Document.{
  Document, SignedDocument, Proof, Codec, delete_url, proof_type_ecrecover,
}
use concrnt_playground.Store.Tx.{World}
use concrnt_playground.Url.{Url}
use concrnt_playground.Url.Parse.{parse}
use concrnt_playground.Repository.Create
use concrnt_playground.Repository.Associate
use concrnt_playground.Repository.Remove

-- The operations of usecase.RecordRepository that change its state `S`.
pub record RecordRepository (S : Type 0) : Type 0 where
  pub create_record : SignedDocument → S → Result (Unit {0}) × S
  pub create_association : SignedDocument → S → Result (Unit {0}) × S
  pub create_ack : SignedDocument → S → Result (Unit {0}) × S
  pub delete : SignedDocument → S → Result (Unit {0}) × S

-- repository.RecordRepository, for a stack that holds so many calls.
abbrev pub repository : Codec → ℕ → RecordRepository World
repository codec depth = record {
  create_record = Create.create_record codec depth;
  create_association = Associate.create_association codec;
  create_ack = Associate.create_ack;
  delete = Remove.delete codec;
}

abbrev pub or_required : Option String → Result String
or_required none = err (message "signature is required for ecrecover proof")
or_required (some s) = ok s

-- The case of the proof `concrnt-ecrecover-direct`.
abbrev pub validate_ecrecover : Curve → SignedDocument → String → Result (Unit {0})
validate_ecrecover curve sd author = do
  text ← or_required sd.proof.signature
  signature ← or_fail (decode_hex text) "encoding/hex: invalid byte"
  verify_signature curve sd.document signature author

-- The part of Commit that validates the proof.
unfoldable pub validate : Curve → SignedDocument → String → Result (Unit {0})
validate curve sd author =
    if sd.proof.type == proof_type_ecrecover
    then validate_ecrecover curve sd author
    else err (message "unsupported proof type")

module _ {S : Type 0} (repo : RecordRepository S) where
  abbrev pub associated : Option Url → SignedDocument → S → Result (Unit {0}) × S
  associated none sd s = (err (message "invalid uri"), s)
  associated (some u) sd s =
      if u.path == "" then repo.create_ack sd s else repo.create_association sd s

  -- What becomes of a document that has no special schema, by its `associate`.
  abbrev pub accept_plain : Option String → SignedDocument → S → Result (Unit {0}) × S
  accept_plain none sd s = repo.create_record sd s
  accept_plain (some target) sd s = associated (parse target) sd s

  -- The part of Commit that accepts the document.
  unfoldable pub accept : Document → SignedDocument → S → Result (Unit {0}) × S
  accept doc sd s =
      if doc.schema == delete_url then repo.delete sd s else accept_plain doc.associate sd s

  -- RecordUsecase.Commit
  unfoldable pub commit : Codec → Curve → SignedDocument → S → Result (Unit {0}) × S
  commit codec curve sd s =
      on_ok (codec.unmarshal sd.document)
        (λ doc. on_ok (validate curve sd doc.author) (λ _. accept doc sd)) s
