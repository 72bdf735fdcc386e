-- ===== src/Jwt.antt =====
-- jwt: the tokens that a client signs.
pub mod Laws
pub mod Tests
use Prim.Native.String.{[], ◌∷◌, ◌++◌}
use concrnt_playground.Prelude.{
  ℕ, zero, suc, ◌+◌, ◌-◌, ◌*◌, ◌^◌, String, code, Bool, true, false, ◌&&◌, ◌||◌, not, Option, none,
  some, Result, ok, err, message, List, ◌>>=◌, ◌>>◌, guard, split, ltb, leb, ◌==◌, string_eq,
  nat_eq, if◌then◌else◌,
}
use concrnt_playground.Prelude.Int.{ℤ, pos, negsuc, neg}
use concrnt_playground.Url.Bytes.{is_digit}
use concrnt_playground.Crypto.Signing.{Signer, sign_bytes}
use concrnt_playground.Crypto.{Curve, verify_signature, or_fail}

-- jwt.Header
pub record Header : Type 0 where
  pub algorithm : String
  pub type : String
  pub key_id : String

-- jwt.Claims
pub record Claims : Type 0 where
  pub issuer : String
  pub subject : String
  pub audience : String
  pub expiration_time : String
  pub issued_at : String
  pub jwt_id : String

-- base64.RawURLEncoding and encoding/json at the two types.
pub record Encoding : Type 0 where
  pub encode : List ℕ → String
  pub decode : String → Option (List ℕ)
  pub write_header : Header → List ℕ
  pub read_header : List ℕ → Option Header
  pub write_claims : Claims → List ℕ
  pub read_claims : List ℕ → Option Claims

-- The digits of strconv.ParseInt, onto the number read so far.
unfoldable pub digits : ℕ → String → Option ℕ
digits n [] = some n
digits n (c ∷ s) =
    let rest = digits (n * 10 + (code c - b'0')) s in if is_digit (code c) then rest else none

abbrev in_range : Bool → Option ℕ → Option ℤ
in_range negative none = none
in_range true (some n) = if leb n (2 ^ 63) then some (neg n) else none
in_range false (some n) = if ltb n (2 ^ 63) then some (pos n) else none

abbrev unsigned : Bool → String → Option ℤ
unsigned negative [] = none
unsigned negative s = in_range negative (digits 0 s)

-- strconv.ParseInt(s, 10, 64)
unfoldable pub parse_int : String → Option ℤ
unfolding digits
parse_int [] = none
parse_int (c ∷ s) =
    if code c == b'+'
    then unsigned false s
    else if code c == b'-'
    then unsigned true s
    else unsigned false (c ∷ s)

-- `a < b` on int64
abbrev pub before : ℤ → ℤ → Bool
before (pos a) (pos b) = ltb a b
before (pos a) (negsuc b) = false
before (negsuc a) (pos b) = true
before (negsuc a) (negsuc b) = ltb b a

abbrev pub server_header : Header
server_header = record { algorithm = "CONCRNT"; type = "JWT"; key_id = "" }

-- The bytes that SignBytes gave; its error is not looked at, and leaves none.
abbrev pub signature_or_none : Result (List ℕ) → List ℕ
signature_or_none (ok bytes) = bytes
signature_or_none r = List.[]

abbrev pub signing_input : Encoding → Header → Claims → String
signing_input e header claims =
    e.encode (e.write_header header) ++ ("." ∷ e.encode (e.write_claims claims))

-- Create
unfoldable pub create : Encoding → Signer → Claims → String → String
unfolding sign_bytes
create e signer claims private_key =
    let target = signing_input e server_header claims in
    target ++ ("." ∷ e.encode (signature_or_none (sign_bytes signer target private_key)))

abbrev pub three_parts : List String → Option (String × String × String)
three_parts (List.◌∷◌ a (List.◌∷◌ b (List.◌∷◌ c List.[]))) = some (a, b, c)
three_parts _ = none

-- The check of `exp`, at a time in seconds.
unfoldable pub check_expiry : ℤ → String → Result (Unit {0})
unfolding parse_int
check_expiry now exp = if exp == "" then ok tt else (do
  t ← or_fail (parse_int exp) "strconv.ParseInt: invalid syntax"
  guard (not (before t now)) (message "jwt is already expired"))

-- `keyID`, in Validate as in AuthJwt
abbrev pub key_of : Header → Claims → String
key_of header claims = if header.key_id == "" then claims.issuer else header.key_id

-- Validate
unfoldable pub validate : Encoding → Curve → ℤ → String → Result (Header × Claims)
unfolding split
validate e curve now jwt = do
  parts ← or_fail (three_parts (split "." jwt)) "invalid jwt format"
  header_bytes ← or_fail (e.decode parts.0) "illegal base64 data"
  header ← or_fail (e.read_header header_bytes) "invalid header"
  guard (header.type == "JWT" && header.algorithm == "CONCRNT") (message "Unsupported JWT type")
  payload_bytes ← or_fail (e.decode parts.1) "illegal base64 data"
  claims ← or_fail (e.read_claims payload_bytes) "invalid claims"
  check_expiry now claims.expiration_time
  signature ← or_fail (e.decode parts.2) "illegal base64 data"
  verify_signature curve (parts.0 ++ ("." ∷ parts.1)) signature (key_of header claims)
  ok (header, claims)
