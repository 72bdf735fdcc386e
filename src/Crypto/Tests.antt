-- ===== src/Crypto/Tests.antt =====
-- A toy curve, and the properties of crypto.go applied to it.
use concrnt_playground.Prelude.{
  ℕ, ◌⊎◌, ◌<◌, List, ◌≡◌, ◌↔◌, refl, none, some, ok, panic, [], ◌∷◌, ◌==◌, string_eq, if◌then◌else◌,
}
use concrnt_playground.Crypto.{String, Curve, verify_signature, decode_hex}
use concrnt_playground.Crypto.Signing.{
  IsScheme, Signer, sign_bytes, priv_key_to_addr, verify_signature-sign_bytes,
}
use concrnt_playground.Crypto.Laws.{size, IsSigner, verify_signature-ok, verify_signature-panics}

-- Every signature is that of the one key, which is alice's.
abbrev pub toy : Curve
toy = record {
  keccak = λ s. 1 ∷ [];
  ecrecover = λ hash signature. some (7 ∷ []);
  compress = λ key. some key;
  account = λ key. key;
  bech32 = λ hrp account. if hrp == "con" then some "con1alice" else none;
}

hex_read : decode_hex "00fF" ≡ some (0 ∷ 255 ∷ [])
unfolding decode_hex
hex_read = refl

hex_odd : decode_hex "00f" ≡ none
unfolding decode_hex
hex_odd = refl

accepted : verify_signature toy "note" [] "con1alice" ≡ ok tt
unfolding verify_signature
accepted = refl

verify_signature-ok_example :
    (verify_signature toy "note" [] "con1alice" ≡ ok tt) ↔ IsSigner toy "note" [] "con1alice"
verify_signature-ok_example = verify_signature-ok toy "note" [] "con1alice"

verify_signature-panics_example : (verify_signature toy "note" [] "" ≡ panic) ↔ (
    (recovered : List ℕ) × (toy.ecrecover (toy.keccak "note") [] ≡ some recovered)
    × ((toy.compress recovered ≡ none) ⊎ (size "" < 3)))
verify_signature-panics_example = verify_signature-panics toy "" "note" []

-- The toy curve with its one key.
abbrev pub signer : Signer
signer = record {
  curve = toy;
  hex_to_ecdsa = decode_hex;
  sign = λ hash key. some (9 ∷ []);
  pub_key = λ key. 7 ∷ [];
}

pub scheme : IsScheme signer "c" "o" "n"
unfolding decode_hex
scheme = record {
  recovers = λ hash key s h. (7 ∷ [], refl, refl);
  reads = λ text key h. h;
  starts = λ account address h. starts address h;
}
  where
    starts :
        (address : String)
        → some "con1alice" ≡ some address
        → (rest : String) × (address
            ≡ Prim.Native.String.◌∷◌ "c"
                (Prim.Native.String.◌∷◌ "o" (Prim.Native.String.◌∷◌ "n" rest)))
    starts address h = ("1alice", cc)

verify_signature-sign_bytes_example : verify_signature toy "note" (9 ∷ []) "con1alice" ≡ ok tt
unfolding sign_bytes priv_key_to_addr
verify_signature-sign_bytes_example =
    verify_signature-sign_bytes signer "c" "o" "n" scheme "note" "0b" (9 ∷ []) "con1alice" refl refl
