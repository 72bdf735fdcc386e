-- ===== src/Crypto.antt =====
-- crypto.go: who signed a message; and encoding/hex, by which the signature comes.
pub mod Laws
pub mod Signing
pub mod Tests
use Prim.Native.String.{[], ◌∷◌}
use concrnt_playground.Prelude.{
  ℕ, String, code, Bool, true, false, Option, none, some, Result, ok, err, panic, message, List,
  ◌>>=◌, ◌>>◌, guard, ◌==◌, string_eq,
}
use concrnt_playground.Url.Escape.{byte_of}

-- What the libraries of sha3, secp256k1 and Bech32 compute. `compress` reads an uncompressed key
-- and fails on one that is no point of the curve.
pub record Curve : Type 0 where
  pub keccak : String → List ℕ
  pub ecrecover : List ℕ → List ℕ → Option (List ℕ)
  pub compress : List ℕ → Option (List ℕ)
  pub account : List ℕ → List ℕ
  pub bech32 : String → List ℕ → Option String

abbrev pub or_fail {ℓ} : {A : Type ℓ} → Option A → String → Result A
or_fail none e = err (message e)
or_fail (some a) e = ok a

-- A call whose error the code panics on.
abbrev pub or_panic {ℓ} : {A : Type ℓ} → Option A → Result A
or_panic none = panic
or_panic (some a) = ok a

-- PubkeyBytesToAddr
unfoldable pub pubkey_bytes_to_addr : Curve → List ℕ → String → Result String
pubkey_bytes_to_addr curve pubkey hrp =
    or_fail (curve.bech32 hrp (curve.account pubkey)) "failed to convert address"

-- `address[:3]`, which panics on a text that is shorter
unfoldable pub prefix_of : String → Option String
prefix_of (a ∷ b ∷ c ∷ rest) = some (a ∷ b ∷ c ∷ [])
prefix_of s = none

-- VerifySignature
unfoldable pub verify_signature : Curve → String → List ℕ → String → Result (Unit {0})
unfolding pubkey_bytes_to_addr prefix_of
verify_signature curve signed_text signature address = do
  recovered ←
      or_fail (curve.ecrecover (curve.keccak signed_text) signature) "failed to recover public key"
  compressed ← or_panic (curve.compress recovered)
  hrp ← or_panic (prefix_of address)
  sigaddr ← pubkey_bytes_to_addr curve compressed hrp
  guard (sigaddr == address) (message "signature is not matched with address")

abbrev digits : Option ℕ → Option (List ℕ) → Option (List ℕ)
digits none rest = none
digits (some b) none = none
digits (some b) (some bs) = some (List.◌∷◌ b bs)

-- hex.DecodeString: pairs of digits, in either case.
unfoldable pub decode_hex : String → Option (List ℕ)
unfolding byte_of
decode_hex [] = some List.[]
decode_hex (a ∷ []) = none
decode_hex (a ∷ b ∷ s) = digits (byte_of (code a) (code b)) (decode_hex s)
