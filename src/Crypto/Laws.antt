-- ===== src/Crypto/Laws.antt =====
-- When VerifySignature of crypto.go accepts, and when it panics.
use Prim.Native.String.{[], ◌∷◌}
use concrnt_playground.Prelude.{
  ◌≢◌, ◌<◌, suc, ◌⊎◌, inl, inr, Result, ◌>>=◌, ◌==◌, arith, err, lost, ℕ, String, Bool, true, false,
  ◌≡◌, ◌↔◌, refl, ap, ◌∙◌, Option, none, some, ok, panic, message, List, >>=-ok, guard, string_eq,
  eq_iff, eq_refl,
}
use concrnt_playground.Crypto.{
  Curve, or_fail, or_panic, prefix_of, pubkey_bytes_to_addr, verify_signature,
}

-- The address is the Bech32 text, under its own first three bytes, of the account of the key that
-- the signature was made with.
abbrev pub IsSigner : Curve → String → List ℕ → String → Type 0
IsSigner curve signed_text signature address =
    (recovered : List ℕ) × (compressed : List ℕ) × (hrp : String) × (curve.ecrecover
        (curve.keccak signed_text) signature
      ≡ some recovered)
    × (curve.compress recovered ≡ some compressed)
    × (prefix_of address ≡ some hrp)
    × (curve.bech32 hrp (curve.account compressed) ≡ some address)

pub or_fail-ok : {A : Type 0} (o : Option A) (e : String) (a : A) → or_fail o e ≡ ok a → o ≡ some a
or_fail-ok none e a h = absurd cc
or_fail-ok (some b) e a h = cc

or_panic-ok : {A : Type 0} (o : Option A) (a : A) → or_panic o ≡ ok a → o ≡ some a
or_panic-ok none a h = absurd cc
or_panic-ok (some b) a h = cc

guard-ok : (b : Bool) (e : String) → guard b (message e) ≡ ok tt → b ≡ true
guard-ok true e h = refl
guard-ok false e h = cc

-- VerifySignature returns nil for the signer of the message, and for no other address.
pub verify_signature-ok :
    (curve : Curve) (signed_text : String) (signature : List ℕ) (address : String)
    → (verify_signature curve signed_text signature address ≡ ok tt)
      ↔ IsSigner curve signed_text signature address
unfolding verify_signature pubkey_bytes_to_addr
verify_signature-ok curve signed_text signature address = (sound, complete)
  where
    sound :
        verify_signature curve signed_text signature address ≡ ok tt
        → IsSigner curve signed_text signature address
    sound h =
        let (recovered, r, h1) =
          >>=-ok (or_fail (curve.ecrecover (curve.keccak signed_text) signature) _) _ h in
        let (compressed, c, h2) = >>=-ok (or_panic (curve.compress recovered)) _ h1 in
        let (hrp, p, h3) = >>=-ok (or_panic (prefix_of address)) _ h2 in
        let (sigaddr, a, h4) =
          >>=-ok (or_fail (curve.bech32 hrp (curve.account compressed)) _) _ h3 in
        (
          recovered,
          compressed,
          hrp,
          or_fail-ok _ _ _ r,
          or_panic-ok _ _ c,
          or_panic-ok _ _ p,
          or_fail-ok _ _ _ a ∙ ap some ((eq_iff sigaddr address).0 (guard-ok _ _ h4)),
        )

    complete :
        IsSigner curve signed_text signature address
        → verify_signature curve signed_text signature address ≡ ok tt
    complete (recovered, compressed, hrp, r, c, p, a) =
        rw (r, c, p, a, eq_refl address, verify_signature) refl

-- The number of bytes.
abbrev pub size : String → ℕ
size [] = 0
size (c ∷ s) = suc (size s)

prefix_of-none : (s : String) → (prefix_of s ≡ none) ↔ (size s < 3)
unfolding prefix_of
prefix_of-none [] = ((λ e. omega arith), (λ h. refl))
prefix_of-none (a ∷ []) = ((λ e. omega arith), (λ h. refl))
prefix_of-none (a ∷ b ∷ []) = ((λ e. omega arith), (λ h. refl))
prefix_of-none (a ∷ b ∷ c ∷ rest) = ((λ e. absurd cc), (λ h. absurd (omega arith)))

bind-panics :
    {A B : Type 0} (r : Result A) (f : A → Result B)
    → r >>= f ≡ panic
    → (r ≡ panic) ⊎ ((a : A) × (r ≡ ok a) × (f a ≡ panic))
bind-panics (ok a) f h = inr (a, refl, h)
bind-panics (err e) f h = absurd cc
bind-panics panic f h = inl refl
bind-panics lost f h = absurd cc

or_fail-returns : {A : Type 0} (o : Option A) (e : String) → or_fail o e ≢ panic
or_fail-returns none e = λ h. cc h
or_fail-returns (some a) e = λ h. cc h

guard-returns : (b : Bool) (e : String) → guard b (message e) ≢ panic
guard-returns true e = λ h. cc h
guard-returns false e = λ h. cc h

or_panic-panics : {A : Type 0} (o : Option A) → or_panic o ≡ panic → o ≡ none
or_panic-panics none h = refl
or_panic-panics (some a) h = absurd cc

module _ (curve : Curve) (address : String) where
  address_panics :
      (compressed : List ℕ)
      → (or_panic (prefix_of address) >>= λ hrp.
          pubkey_bytes_to_addr curve compressed hrp >>= λ sigaddr.
          guard (sigaddr == address) (message "signature is not matched with address"))
        ≡ panic
      → prefix_of address ≡ none
  unfolding pubkey_bytes_to_addr
  address_panics compressed h = elim (bind-panics (or_panic (prefix_of address)) _ h) [
    | inl p ↦ or_panic-panics _ p
    | inr (hrp, e, k) ↦
        elim (bind-panics (or_fail (curve.bech32 hrp (curve.account compressed)) _) _ k) [
          | inl p ↦ absurd (or_fail-returns _ _ p)
          | inr (sigaddr, f, l) ↦ absurd (guard-returns _ _ l)
        ]
  ]

  -- VerifySignature panics exactly where Ecrecover gives a key, and that key is no point of the curve
  -- or the address has fewer than three bytes, as an empty author has.
  pub verify_signature-panics :
      (signed_text : String) (signature : List ℕ)
      → (verify_signature curve signed_text signature address ≡ panic) ↔ (
          (recovered : List ℕ) × (curve.ecrecover (curve.keccak signed_text) signature
            ≡ some recovered)
          × ((curve.compress recovered ≡ none) ⊎ (size address < 3)))
  unfolding verify_signature
  verify_signature-panics signed_text signature = (sound, complete)
    where
      sound :
          verify_signature curve signed_text signature address ≡ panic
          → (recovered : List ℕ) × (curve.ecrecover (curve.keccak signed_text) signature
              ≡ some recovered)
            × ((curve.compress recovered ≡ none) ⊎ (size address < 3))
      sound h =
          elim (bind-panics (or_fail (curve.ecrecover (curve.keccak signed_text) signature) _) _
            h) [
              | inl p ↦ absurd (or_fail-returns _ _ p)
              | inr (recovered, r, k) ↦ (
                recovered,
                or_fail-ok _ _ _ r,
                elim (bind-panics (or_panic (curve.compress recovered)) _ k) [
                  | inl p ↦ inl (or_panic-panics _ p)
                  | inr (compressed, c, l) ↦
                      inr ((prefix_of-none address).0 (address_panics compressed l))
                ],
              )
            ]

      short :
          (recovered : List ℕ) (o : Option (List ℕ))
          → curve.ecrecover (curve.keccak signed_text) signature ≡ some recovered
          → curve.compress recovered ≡ o
          → prefix_of address ≡ none
          → verify_signature curve signed_text signature address ≡ panic
      short recovered none r c p = rw (r, c, verify_signature) refl
      short recovered (some compressed) r c p = rw (r, c, p, verify_signature) refl

      complete :
          (recovered : List ℕ) × (curve.ecrecover (curve.keccak signed_text) signature
              ≡ some recovered)
            × ((curve.compress recovered ≡ none) ⊎ (size address < 3))
          → verify_signature curve signed_text signature address ≡ panic
      complete (recovered, r, inl c) = rw (r, c, verify_signature) refl
      complete (recovered, r, inr k) =
          short recovered (curve.compress recovered) r refl ((prefix_of-none address).1 k)
