-- ===== src/Jwt/Laws.antt =====
-- What Validate of jwt/functions.go lets through.
use Prim.Native.String.{[], ◌∷◌, ◌++◌}
use text.Mathlib.TextLemmas.{append_assoc, cons-append}
use concrnt_playground.Prelude.{
  Char, ◌≤◌, ◌⊎◌, ◌≢◌, inl, inr, not, sym, Bool-cases, eq_iff, arith, ◌>>=◌, if◌then◌else◌,
  ok_injective, subst, ℕ, String, Bool, true, false, ◌&&◌, ◌≡◌, ◌↔◌, refl, ap, ◌∙◌, some, ok,
  message, List, >>=-ok, guard, split, join, split-join, Lacks, ◌==◌, string_eq,
}
use concrnt_playground.Prelude.Int.{ℤ, pos, negsuc}
use concrnt_playground.Crypto.Signing.{
  Signer, IsScheme, sign_bytes, priv_key_to_addr, sign_bytes-IsSigner,
}
use concrnt_playground.Crypto.{Curve, verify_signature, or_fail}
use concrnt_playground.Crypto.Laws.{IsSigner, verify_signature-ok, or_fail-ok}
use concrnt_playground.Jwt.{
  before, parse_int, Header, Claims, Encoding, create, validate, check_expiry, key_of, three_parts,
  server_header, signature_or_none, signing_input,
}

-- One instant, in seconds, is no later than another.
abbrev pub IsBy : ℤ → ℤ → Type 0
IsBy (pos a) (pos b) = a ≤ b
IsBy (pos a) (negsuc b) = ⊥
IsBy (negsuc a) (pos b) = Unit
IsBy (negsuc a) (negsuc b) = b ≤ a

-- `exp` is absent, or a number of seconds that has not passed.
abbrev pub IsUnexpired : ℤ → String → Type 0
IsUnexpired now exp = (exp ≡ "") ⊎ ((t : ℤ) × (parse_int exp ≡ some t) × IsBy now t)

-- The key that a token names: the one of its header, or else its issuer.
abbrev pub IsKeyOf : Header → Claims → String → Type 0
IsKeyOf header claims key =
    ((header.key_id ≢ "") × (key ≡ header.key_id)) ⊎ ((header.key_id ≡ "") × (key ≡ claims.issuer))

-- The token is three parts: a header and claims that read, and a signature of the two by the key
-- that they name.
pub record IsToken (e : Encoding) (curve : Curve) (now : ℤ) (jwt : String) (header : Header)
    (claims : Claims) : Type 0 where
  pub first : String
  pub second : String
  pub third : String
  pub header_bytes : List ℕ
  pub claims_bytes : List ℕ
  pub signature : List ℕ
  pub key : String
  pub parts : split "." jwt ≡ List.◌∷◌ first (List.◌∷◌ second (List.◌∷◌ third List.[]))
  pub first_decoded : e.decode first ≡ some header_bytes
  pub header_read : e.read_header header_bytes ≡ some header
  pub is_jwt : header.type ≡ "JWT"
  pub is_concrnt : header.algorithm ≡ "CONCRNT"
  pub second_decoded : e.decode second ≡ some claims_bytes
  pub claims_read : e.read_claims claims_bytes ≡ some claims
  pub not_expired : IsUnexpired now claims.expiration_time
  pub third_decoded : e.decode third ≡ some signature
  pub named : IsKeyOf header claims key
  pub signed : IsSigner curve (first ++ ("." ∷ second)) signature key

IsBy-before : (now t : ℤ) → IsBy now t ↔ (not (before t now) ≡ true)
IsBy-before (pos a) (pos b) = ((λ h. ground arith), (λ h. ground arith))
IsBy-before (pos a) (negsuc b) = ((λ h. elim h [ ]), (λ h. absurd cc))
IsBy-before (negsuc a) (pos b) = ((λ h. refl), (λ h. tt))
IsBy-before (negsuc a) (negsuc b) = ((λ h. ground arith), (λ h. ground arith))

pub guard-ok : (b : Bool) (e : String) → guard b (message e) ≡ ok tt → b ≡ true
guard-ok true e h = refl
guard-ok false e h = cc

-- The check of `exp` passes what has no expiry or has not expired.
pub check_expiry-ok :
    (now : ℤ) (exp : String) → (check_expiry now exp ≡ ok tt) ↔ IsUnexpired now exp
unfolding check_expiry
check_expiry-ok now exp = (sound, complete)
  where
    read :
        (or_fail (parse_int exp) "strconv.ParseInt: invalid syntax" >>= λ t.
        guard (not (before t now)) (message "jwt is already expired"))
          ≡ ok tt
        → IsUnexpired now exp
    read h =
        let (t, p, k) = >>=-ok (or_fail (parse_int exp) _) _ h in
        inr (t, or_fail-ok _ _ _ p, (IsBy-before now t).1 (guard-ok _ _ k))

    sound : check_expiry now exp ≡ ok tt → IsUnexpired now exp
    sound h = elim (Bool-cases (exp == "")) [
      | inl e ↦ inl ((eq_iff exp "").0 e)
      | inr f ↦ read (
          ap
            (λ b.
              if b
              then ok tt
              else or_fail (parse_int exp) "strconv.ParseInt: invalid syntax" >>= λ t.
                  guard (not (before t now)) (message "jwt is already expired"))
            (sym f)
          ∙ h)
    ]

    complete : IsUnexpired now exp → check_expiry now exp ≡ ok tt
    complete (inl e) = rw (e, check_expiry) refl
    complete (inr (t, p, k)) = elim (Bool-cases (exp == "")) [
      | inl e ↦ rw (e, check_expiry) refl
      | inr f ↦ rw (f, p, (IsBy-before now t).0 k, check_expiry) refl
    ]

key_of-IsKeyOf : (header : Header) (claims : Claims) → IsKeyOf header claims (key_of header claims)
key_of-IsKeyOf header claims = elim (Bool-cases (header.key_id == "")) [
  | inl t ↦
      inr ((eq_iff header.key_id "").0 t, ap (λ b. if b then claims.issuer else header.key_id) t)
  | inr f ↦ inl (
    (λ e. ground (arith, f, (eq_iff header.key_id "").1 e)),
    ap (λ b. if b then claims.issuer else header.key_id) f,
  )
]

IsKeyOf-key_of :
    (header : Header) (claims : Claims) (key : String)
    → IsKeyOf header claims key
    → key ≡ key_of header claims
IsKeyOf-key_of header claims key (inl (n, e)) = elim (Bool-cases (header.key_id == "")) [
  | inl t ↦ absurd (n ((eq_iff header.key_id "").0 t))
  | inr f ↦ e ∙ ap (λ b. if b then claims.issuer else header.key_id) (sym f)
]
IsKeyOf-key_of header claims key (inr (n, e)) =
    e ∙ ap (λ b. if b then claims.issuer else header.key_id) (sym ((eq_iff header.key_id "").1 n))

three_parts-some :
    (ps : List String) (a b c : String)
    → three_parts ps ≡ some (a, b, c)
    → ps ≡ List.◌∷◌ a (List.◌∷◌ b (List.◌∷◌ c List.[]))
three_parts-some List.[] a b c h = absurd cc
three_parts-some (List.◌∷◌ x List.[]) a b c h = absurd cc
three_parts-some (List.◌∷◌ x (List.◌∷◌ y List.[])) a b c h = absurd cc
three_parts-some (List.◌∷◌ x (List.◌∷◌ y (List.◌∷◌ z List.[]))) a b c h = cc
three_parts-some (List.◌∷◌ x (List.◌∷◌ y (List.◌∷◌ z (List.◌∷◌ w ps)))) a b c h = absurd cc

both : (a b : Bool) → (a && b) ≡ true → (a ≡ true) × (b ≡ true)
both true b h = (refl, h)
both false b h = absurd cc

-- Validate returns a header and claims for the tokens that hold them, signed by the key they name
-- and not expired, and for no other text.
pub validate-IsToken :
    (e : Encoding) (curve : Curve) (now : ℤ) (jwt : String) (header : Header) (claims : Claims)
    → (validate e curve now jwt ≡ ok (header, claims)) ↔ IsToken e curve now jwt header claims
unfolding validate
validate-IsToken e curve now jwt header claims = (sound, complete)
  where
    sound : validate e curve now jwt ≡ ok (header, claims) → IsToken e curve now jwt header claims
    sound h =
        let (p, a, h1) = >>=-ok (or_fail (three_parts (split "." jwt)) _) _ h in
        let (hb, b, h2) = >>=-ok (or_fail (e.decode p.0) _) _ h1 in
        let (hd, c, h3) = >>=-ok (or_fail (e.read_header hb) _) _ h2 in
        let (u, d, h4) = >>=-ok (guard (hd.type == "JWT" && hd.algorithm == "CONCRNT") _) _ h3 in
        let (cb, f, h5) = >>=-ok (or_fail (e.decode p.1) _) _ h4 in
        let (cl, g, h6) = >>=-ok (or_fail (e.read_claims cb) _) _ h5 in
        let (v, i, h7) = >>=-ok (check_expiry now cl.expiration_time) _ h6 in
        let (s, j, h8) = >>=-ok (or_fail (e.decode p.2) _) _ h7 in
        let (w, k, h9) =
          >>=-ok (verify_signature curve (p.0 ++ ("." ∷ p.1)) s (key_of hd cl)) _ h8 in
        subst (λ q. IsToken e curve now jwt q.0 q.1) (ok_injective (hd, cl) (header, claims) h9)
          (record {
            first = p.0;
            second = p.1;
            third = p.2;
            header_bytes = hb;
            claims_bytes = cb;
            signature = s;
            key = key_of hd cl;
            parts = three_parts-some _ _ _ _ (or_fail-ok _ _ _ a);
            first_decoded = or_fail-ok _ _ _ b;
            header_read = or_fail-ok _ _ _ c;
            is_jwt =
                (eq_iff hd.type "JWT").0
                  (both (hd.type == "JWT") (hd.algorithm == "CONCRNT") (guard-ok _ _ d)).0;
            is_concrnt =
                (eq_iff hd.algorithm "CONCRNT").0
                  (both (hd.type == "JWT") (hd.algorithm == "CONCRNT") (guard-ok _ _ d)).1;
            second_decoded = or_fail-ok _ _ _ f;
            claims_read = or_fail-ok _ _ _ g;
            not_expired = (check_expiry-ok now cl.expiration_time).0 i;
            third_decoded = or_fail-ok _ _ _ j;
            named = key_of-IsKeyOf hd cl;
            signed = (verify_signature-ok curve (p.0 ++ ("." ∷ p.1)) s (key_of hd cl)).0 k;
          })

    complete :
        IsToken e curve now jwt header claims → validate e curve now jwt ≡ ok (header, claims)
    complete t =
        rw
          (
            t.parts,
            t.first_decoded,
            t.header_read,
            t.is_jwt,
            t.is_concrnt,
            t.second_decoded,
            t.claims_read,
            (check_expiry-ok now claims.expiration_time).1 t.not_expired,
            t.third_decoded,
            subst (λ k. verify_signature curve (t.first ++ ("." ∷ t.second)) t.signature k ≡ ok tt)
                (IsKeyOf-key_of header claims t.key t.named)
                ((verify_signature-ok curve (t.first ++ ("." ∷ t.second)) t.signature t.key).1
                  t.signed),
            validate,
          )
          refl

split_three :
    (a b c : String)
    → Lacks "." a
    → Lacks "." b
    → Lacks "." c
    → split "." ((a ++ ("." ∷ b)) ++ ("." ∷ c)) ≡ List.◌∷◌ a (List.◌∷◌ b (List.◌∷◌ c List.[]))
unfolding join
split_three a b c h i j =
    ap (split ".")
      (append_assoc a ("." ∷ b) ("." ∷ c) ∙ ap (λ t. a ++ t) (cons-append "." b ("." ∷ c)))
    ∙ split-join "." a (List.◌∷◌ b (List.◌∷◌ c List.[])) h (i, (j, tt))

-- These bytes come back from their text, which holds no dot.
abbrev pub Carries : Encoding → List ℕ → Type 0
Carries e bytes = (e.decode (e.encode bytes) ≡ some bytes) × Lacks "." (e.encode bytes)

-- The encodings give back the parts of a token with these claims.
pub record IsFaithful (e : Encoding) (claims : Claims) (signature : List ℕ) : Type 0 where
  pub header_carried : Carries e (e.write_header server_header)
  pub header_back : e.read_header (e.write_header server_header) ≡ some server_header
  pub claims_carried : Carries e (e.write_claims claims)
  pub claims_back : e.read_claims (e.write_claims claims) ≡ some claims
  pub signature_carried : Carries e signature

-- A token that Create makes with the private key of its issuer, whose id PrivKeyToAddr gives under a
-- prefix of three bytes, passes Validate with its header and claims until it expires, where SignBytes
-- succeeds, base64 and JSON give back the parts of the token, and the libraries of the curve and of
-- Bech32 agree as IsScheme says.
pub validate-create :
    (e : Encoding) (signer : Signer) (a b c : Char) (now : ℤ) (claims : Claims)
    (private_key : String) (signature : List ℕ)
    → IsScheme signer a b c
    → IsFaithful e claims signature
    → sign_bytes signer (signing_input e server_header claims) private_key ≡ ok signature
    → priv_key_to_addr signer private_key (a ∷ b ∷ c ∷ []) ≡ ok claims.issuer
    → IsUnexpired now claims.expiration_time
    → validate e signer.curve now (create e signer claims private_key) ≡ ok (server_header, claims)
unfolding create
validate-create e signer a b c now claims private_key signature scheme f s g x =
    ap
      (λ o.
        validate e signer.curve now
          (signing_input e server_header claims ++ ("." ∷ e.encode (signature_or_none o))))
      s
    ∙ (validate-IsToken e signer.curve now _ server_header claims).1 (record {
      first = e.encode (e.write_header server_header);
      second = e.encode (e.write_claims claims);
      third = e.encode signature;
      header_bytes = e.write_header server_header;
      claims_bytes = e.write_claims claims;
      signature = signature;
      key = claims.issuer;
      parts = split_three _ _ _ f.header_carried.1 f.claims_carried.1 f.signature_carried.1;
      first_decoded = f.header_carried.0;
      header_read = f.header_back;
      is_jwt = refl;
      is_concrnt = refl;
      second_decoded = f.claims_carried.0;
      claims_read = f.claims_back;
      not_expired = x;
      third_decoded = f.signature_carried.0;
      named = inr (refl, refl);
      signed =
          sign_bytes-IsSigner signer a b c scheme (signing_input e server_header claims) private_key
            signature claims.issuer s g;
    })
