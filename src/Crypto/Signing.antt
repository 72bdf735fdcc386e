-- ===== src/Crypto/Signing.antt =====
-- crypto.go: signatures, and the addresses of keys.
use Prim.Native.String.{[], ◌∷◌}
use concrnt_playground.Prelude.{
  ap, Char, ℕ, String, Option, some, Result, ok, List, ◌>>=◌, ◌≡◌, sym, ◌∙◌, >>=-ok,
}
use concrnt_playground.Crypto.{
  Curve, or_fail, prefix_of, pubkey_bytes_to_addr, verify_signature, decode_hex,
}
use concrnt_playground.Crypto.Laws.{IsSigner, or_fail-ok, verify_signature-ok}

-- What the libraries do with private keys besides: crypto.HexToECDSA, crypto.Sign, and PubKey of a
-- private key of secp256k1. A key is its bytes.
pub record Signer : Type 0 where
  pub curve : Curve
  pub hex_to_ecdsa : String → Option (List ℕ)
  pub sign : List ℕ → List ℕ → Option (List ℕ)
  pub pub_key : List ℕ → List ℕ

-- GetHash
unfoldable pub get_hash : Curve → String → List ℕ
get_hash curve bytes = curve.keccak bytes

-- SignBytes
unfoldable pub sign_bytes : Signer → String → String → Result (List ℕ)
sign_bytes signer bytes private_key = do
  key ← or_fail (signer.hex_to_ecdsa private_key) "failed to convert private key"
  or_fail (signer.sign (signer.curve.keccak bytes) key) "failed to sign message"

-- PubkeyToAddr
unfoldable pub pubkey_to_addr : Curve → String → String → Result String
unfolding decode_hex pubkey_bytes_to_addr
pubkey_to_addr curve pubkey_hex hrp = do
  pub_key_bytes ← or_fail (decode_hex pubkey_hex) "failed to decode public key"
  pubkey_bytes_to_addr curve pub_key_bytes hrp

-- PrivKeyToAddr
unfoldable pub priv_key_to_addr : Signer → String → String → Result String
unfolding decode_hex pubkey_bytes_to_addr
priv_key_to_addr signer priv_key_hex hrp = do
  priv_key_bytes ← or_fail (decode_hex priv_key_hex) "failed to decode private key"
  pubkey_bytes_to_addr signer.curve (signer.pub_key priv_key_bytes) hrp

-- What the libraries promise each other, with addresses under a prefix of three bytes: Ecrecover finds
-- the key of a signature, HexToECDSA reads the bytes that the hexadecimal text stands for, and a
-- Bech32 text starts with its prefix.
pub record IsScheme (signer : Signer) (a b c : Char) : Type 0 where
  pub recovers :
      (hash key s : List ℕ)
      → signer.sign hash key ≡ some s
      → (recovered : List ℕ) × (signer.curve.ecrecover hash s ≡ some recovered)
        × (signer.curve.compress recovered ≡ some (signer.pub_key key))
  pub reads :
      (text : String) (key : List ℕ)
      → signer.hex_to_ecdsa text ≡ some key
      → decode_hex text ≡ some key
  pub starts :
      (account : List ℕ) (address : String)
      → signer.curve.bech32 (a ∷ b ∷ c ∷ []) account ≡ some address
      → (rest : String) × (address ≡ a ∷ b ∷ c ∷ rest)

prefix_kept :
    (a b c : Char) (address : String)
    → (rest : String) × (address ≡ a ∷ b ∷ c ∷ rest)
    → prefix_of address ≡ some (a ∷ b ∷ c ∷ [])
unfolding prefix_of
prefix_kept a b c address (rest, e) = ap prefix_of e

module _ (signer : Signer) (a b c : Char) (scheme : IsScheme signer a b c)
    (bytes private_key : String) (signature : List ℕ) (address : String) where
  pub sign_bytes-IsSigner :
      sign_bytes signer bytes private_key ≡ ok signature
      → priv_key_to_addr signer private_key (a ∷ b ∷ c ∷ []) ≡ ok address
      → IsSigner signer.curve bytes signature address
  unfolding sign_bytes priv_key_to_addr pubkey_bytes_to_addr
  sign_bytes-IsSigner s g =
      let (key, k, s1) = >>=-ok (or_fail (signer.hex_to_ecdsa private_key) _) _ s in
      let (priv, p, g1) = >>=-ok (or_fail (decode_hex private_key) _) _ g in
      let same : some key ≡ some priv =
        sym (scheme.reads private_key key (or_fail-ok _ _ _ k)) ∙ or_fail-ok _ _ _ p in
      let (recovered, r, d) = scheme.recovers _ key signature (or_fail-ok _ _ _ s1) in
      let e = or_fail-ok _ _ _ g1 in
      (
        recovered,
        signer.pub_key priv,
        a ∷ b ∷ c ∷ [],
        r,
        d ∙ cc same,
        prefix_kept a b c address (scheme.starts _ address e),
        e,
      )

  -- What SignBytes signs with a private key, VerifySignature accepts for the address that
  -- PrivKeyToAddr gives the key under a prefix of three bytes, where Ecrecover finds the key of a
  -- signature, HexToECDSA reads the bytes that the hexadecimal text stands for, and a Bech32 text
  -- starts with its prefix.
  pub verify_signature-sign_bytes :
      sign_bytes signer bytes private_key ≡ ok signature
      → priv_key_to_addr signer private_key (a ∷ b ∷ c ∷ []) ≡ ok address
      → verify_signature signer.curve bytes signature address ≡ ok tt
  verify_signature-sign_bytes s g =
      (verify_signature-ok signer.curve bytes signature address).1 (sign_bytes-IsSigner s g)
