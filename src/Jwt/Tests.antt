-- ===== src/Jwt/Tests.antt =====
-- Tokens in a toy encoding, and the properties of jwt applied to them.
use concrnt_playground.Prelude.{
  inr, arith, ℕ, zero, suc, String, ◌≡◌, ◌↔◌, refl, none, some, ok, err, List, [], ◌∷◌, ◌==◌,
  string_eq, if◌then◌else◌, message,
}
use concrnt_playground.Prelude.Int.{pos, negsuc}
use concrnt_playground.Crypto.Signing.{sign_bytes, priv_key_to_addr}
use concrnt_playground.Crypto.Tests.{toy, signer, scheme}
use concrnt_playground.Jwt.{
  Claims, Encoding, create, validate, parse_int, check_expiry, server_header,
}
use concrnt_playground.Jwt.Laws.{IsToken, IsFaithful, validate-IsToken, validate-create}

abbrev pub claims : Claims
claims = record {
  issuer = "con1alice";
  subject = "concrnt";
  audience = "example.com";
  expiration_time = "100";
  issued_at = "";
  jwt_id = "";
}

abbrev letter : List ℕ → String
letter (zero ∷ bytes) = "h"
letter (suc (suc n) ∷ bytes) = "s"
letter bytes = "c"

-- One byte for each part of the token.
abbrev pub one_byte : Encoding
one_byte = record {
  encode = letter;
  decode = λ s.
      if s == "h"
      then some (0 ∷ [])
      else if s == "c"
      then some (1 ∷ [])
      else if s == "s"
      then some (9 ∷ [])
      else none;
  write_header = λ header. 0 ∷ [];
  read_header = λ bytes. some server_header;
  write_claims = λ c. 1 ∷ [];
  read_claims = λ bytes. some claims;
}

max_read : parse_int "9223372036854775807" ≡ some (pos 9223372036854775807)
unfolding parse_int
max_read = refl

min_read : parse_int "-9223372036854775808" ≡ some (negsuc 9223372036854775807)
unfolding parse_int
min_read = refl

over_refused : parse_int "9223372036854775808" ≡ none
unfolding parse_int
over_refused = refl

sign_refused : parse_int "-" ≡ none
unfolding parse_int
sign_refused = refl

expired : validate one_byte toy (pos 101) "h.c.c" ≡ err (message "jwt is already expired")
unfolding validate check_expiry
expired = refl

validate-IsToken_example :
    (validate one_byte toy (pos 50) "h.c.c" ≡ ok (server_header, claims))
    ↔ IsToken one_byte toy (pos 50) "h.c.c" server_header claims
validate-IsToken_example = validate-IsToken one_byte toy (pos 50) "h.c.c" server_header claims

faithful : IsFaithful one_byte claims (9 ∷ [])
faithful = record {
  header_carried = (refl, ((λ e. cc), tt));
  header_back = refl;
  claims_carried = (refl, ((λ e. cc), tt));
  claims_back = refl;
  signature_carried = (refl, ((λ e. cc), tt));
}

validate-create_example :
    validate one_byte toy (pos 50) (create one_byte signer claims "0b") ≡ ok (server_header, claims)
unfolding sign_bytes priv_key_to_addr parse_int
validate-create_example =
    validate-create one_byte signer "c" "o" "n" (pos 50) claims "0b" (9 ∷ []) scheme faithful refl
      refl (inr (pos 100, refl, omega arith))
