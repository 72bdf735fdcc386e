-- ===== src/Usecase/Tests.antt =====
-- Commits to a repository that counts calls, and the properties applied to them.
use concrnt_playground.Prelude.{
  ℕ, ◌+◌, String, ◌≡◌, ◌≢◌, ◌↔◌, refl, ap, subst, none, some, Result, ok, err, [], ◌∷◌, string_eq,
  message,
}
use concrnt_playground.Prelude.Int.{pos}
use concrnt_playground.Policy.{null}
use concrnt_playground.Document.{Document, SignedDocument, Codec}
use concrnt_playground.Crypto.{verify_signature, prefix_of, decode_hex}
use concrnt_playground.Crypto.Tests.{toy}
use concrnt_playground.Usecase.{RecordRepository, commit, validate}
use concrnt_playground.Usecase.Laws.{
  IsSigned, Dispatches, validate-IsSigned, commit-unsigned, commit-signed,
}

abbrev reply : String → Document
reply author = record {
  key = "";
  value = null;
  author = author;
  owner = none;
  schema = "reply";
  created_at = record { unix = pos 0; nanosecond = 0 };
  member_of = none;
  associate = some "cc://con1alice/notes/first";
  association_variant = none;
}

abbrev codec : Codec
codec = record {
  unmarshal = λ s. ok (reply s);
  marshal = λ doc. doc.author;
  unmarshal_reference = λ s. ok (s, "");
  unmarshal_proof = λ s. err (message "unexpected end of JSON input");
  marshal_proof = λ p. "";
  get_hash = λ s. [];
  unique_hash = λ s. s;
}

-- Each operation adds another power of ten.
abbrev counter : RecordRepository ℕ
counter = record {
  create_record = λ sd n. (ok tt, n + 1);
  create_association = λ sd n. (ok tt, n + 10);
  create_ack = λ sd n. (ok tt, n + 100);
  delete = λ sd n. (ok tt, n + 1000);
}

abbrev signed : String → SignedDocument
signed author = record {
  document = author;
  proof = record { type = "concrnt-ecrecover-direct"; signature = some "00ff"; href = none };
}

by_alice : IsSigned toy (signed "con1alice") "con1alice"
unfolding prefix_of decode_hex
by_alice = ("00ff", 0 ∷ 255 ∷ [], refl, refl, refl, (7 ∷ [], 7 ∷ [], "con", refl, refl, refl, refl))

bob_refused :
    validate toy (signed "con1bob") "con1bob"
    ≡ err (message "signature is not matched with address")
unfolding validate decode_hex verify_signature
bob_refused = refl

not_by_bob : ¬ IsSigned toy (signed "con1bob") "con1bob"
not_by_bob i = cc (bob_refused, (validate-IsSigned toy (signed "con1bob") "con1bob").1 i)

abbrev author_of : Result Document → String
author_of (ok doc) = doc.author
author_of r = ""

validate-IsSigned_example :
    (validate toy (signed "con1alice") "con1alice" ≡ ok tt)
    ↔ IsSigned toy (signed "con1alice") "con1alice"
validate-IsSigned_example = validate-IsSigned toy (signed "con1alice") "con1alice"

commit-unsigned_example :
    ((commit counter codec toy (signed "con1bob") 0).0 ≢ ok tt)
    × ((commit counter codec toy (signed "con1bob") 0).1 ≡ 0)
commit-unsigned_example =
    commit-unsigned counter codec toy (signed "con1bob") 0
      λ doc h. subst (λ a. ¬ IsSigned toy (signed "con1bob") a) (ap author_of h) not_by_bob

commit-signed_example :
    Dispatches counter
      (reply "con1alice")
      (signed "con1alice")
      0
      (commit counter codec toy (signed "con1alice") 0)
commit-signed_example =
    commit-signed counter codec toy (signed "con1alice") (reply "con1alice") 0 refl by_alice
