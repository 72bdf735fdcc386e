-- ===== src/Auth/Laws.antt =====
-- Whose requests auth.go lets pass for whom.
use concrnt_playground.Prelude.{
  inr, Error, eq_refl, inl, subst, String, Bool, true, false, ◌≡◌, ◌≢◌, ◌↔◌, refl, sym, ap, ◌∙◌,
  none, some, Result, ok, err, panic, lost, List, [], ◌∷◌, >>=-ok, guard, split, ◌==◌, string_eq,
  eq_iff, arith, Bool-cases, if◌then◌else◌,
}
use concrnt_playground.Prelude.Int.{ℤ}
use concrnt_playground.Crypto.{Curve}
use concrnt_playground.Jwt.{Header, Claims, Encoding, validate, key_of}
use concrnt_playground.Jwt.Laws.{IsToken, validate-IsToken, guard-ok}
use concrnt_playground.Uri.{is_ccid}
use concrnt_playground.Auth.{auth_jwt, accept_key, anonymous, of_pair, identify}

-- A token for this host, by the entity `id`.
abbrev pub Authenticates : Encoding → Curve → ℤ → String → String → String → Type 0
Authenticates e curve now fqdn token id =
    (header : Header) × (claims : Claims) × IsToken e curve now token header claims
    × (claims.audience ≡ fqdn)
    × (claims.subject ≡ "concrnt")
    × (key_of header claims ≡ id)
    × (is_ccid id ≡ true)

accept_key-ok : (key id : String) → accept_key key ≡ ok id → (key ≡ id) × (is_ccid key ≡ true)
accept_key-ok key id h = elim (Bool-cases (is_ccid key)) [
  | inl t ↦ (ground arith, t)
  | inr f ↦ absurd (ground arith)
]

-- AuthJwt answers with an id for the valid tokens to this host whose key is that entity's, and for
-- no other text.
pub auth_jwt-ok :
    (e : Encoding) (curve : Curve) (now : ℤ) (fqdn token id : String)
    → (auth_jwt e curve now fqdn token ≡ ok id) ↔ Authenticates e curve now fqdn token id
unfolding auth_jwt
auth_jwt-ok e curve now fqdn token id = (sound, complete)
  where
    sound : auth_jwt e curve now fqdn token ≡ ok id → Authenticates e curve now fqdn token id
    sound h =
        let (p, v, h1) = >>=-ok (validate e curve now token) _ h in
        let (u, a, h2) = >>=-ok (guard (p.1.audience == fqdn) _) _ h1 in
        let (w, s, h3) = >>=-ok (guard (p.1.subject == "concrnt") _) _ h2 in
        let (k, c) = accept_key-ok (key_of p.0 p.1) id h3 in
        (
          p.0,
          p.1,
          (validate-IsToken e curve now token p.0 p.1).0 v,
          (eq_iff p.1.audience fqdn).0 (guard-ok _ _ a),
          (eq_iff p.1.subject "concrnt").0 (guard-ok _ _ s),
          k,
          subst (λ i. is_ccid i ≡ true) k c,
        )

    complete : Authenticates e curve now fqdn token id → auth_jwt e curve now fqdn token ≡ ok id
    complete (header, claims, t, a, s, k, c) =
        rw
          (
            (validate-IsToken e curve now token header claims).1 t,
            a,
            s,
            k,
            c,
            eq_refl fqdn,
            auth_jwt,
          )
          refl

-- The empty header is the one that the pair rules out too.
identify-of_pair :
    (auth : String → Result String) (header : String)
    → identify auth header ≡ of_pair auth (split " " header)
unfolding identify
identify-of_pair auth header = elim (Bool-cases (header == "")) [
  | inl t ↦
      ap (λ b. if b then ok none else of_pair auth (split " " header)) t
      ∙ ap (λ h. of_pair auth (split " " h)) (sym ((eq_iff header "").0 t))
  | inr f ↦ ap (λ b. if b then ok none else of_pair auth (split " " header)) f
]

anonymous-some : (r : Result String) (id : String) → anonymous r ≡ ok (some id) → r ≡ ok id
anonymous-some (ok i) id h = cc
anonymous-some (err e) id h = cc
anonymous-some panic id h = cc
anonymous-some lost id h = cc

anonymous-no_error : (r : Result String) (e : Error) → anonymous r ≢ err e
anonymous-no_error (ok i) e h = cc
anonymous-no_error (err f) e h = cc
anonymous-no_error panic e h = cc
anonymous-no_error lost e h = cc

module _ (auth : String → Result String) where
  abbrev Bears : List String → String → Type 0
  Bears ps id = (token : String) × (ps ≡ "Bearer" ∷ token ∷ []) × (auth token ≡ ok id)

  of_pair-some : (ps : List String) (id : String) → of_pair auth ps ≡ ok (some id) → Bears ps id
  of_pair-some [] id h = absurd cc
  of_pair-some (a ∷ []) id h = absurd cc
  of_pair-some (a ∷ b ∷ c ∷ ps) id h = absurd cc
  of_pair-some (a ∷ b ∷ []) id h = elim (Bool-cases (a == "Bearer")) [
    | inl t ↦ (
      b,
      ap (λ a. a ∷ b ∷ []) ((eq_iff a "Bearer").0 t),
      anonymous-some (auth b) id (ap (λ c. if c then anonymous (auth b) else ok none) (sym t) ∙ h),
    )
    | inr f ↦ absurd (ground arith)
  ]

  some-of_pair : (ps : List String) (id : String) → Bears ps id → of_pair auth ps ≡ ok (some id)
  some-of_pair ps id (token, p, a) = ap (of_pair auth) p ∙ ap anonymous a

  of_pair-no_error : (ps : List String) (e : Error) → of_pair auth ps ≢ err e
  of_pair-no_error [] e h = cc
  of_pair-no_error (a ∷ []) e h = cc
  of_pair-no_error (a ∷ b ∷ c ∷ ps) e h = cc
  of_pair-no_error (a ∷ b ∷ []) e h = go (a == "Bearer") h
    where
      go : (c : Bool) → (if c then anonymous (auth b) else ok none) ≢ err e
      go true h = anonymous-no_error (auth b) e h
      go false h = cc

-- A request passes for one of `id` where its header is the word Bearer and a token that
-- authenticates `id`, and nowhere else.
pub identify-some :
    (auth : String → Result String) (header id : String)
    → (identify auth header ≡ ok (some id))
      ↔ ((token : String) × (split " " header ≡ "Bearer" ∷ token ∷ []) × (auth token ≡ ok id))
identify-some auth header id = (
  (λ h. of_pair-some auth (split " " header) id (sym (identify-of_pair auth header) ∙ h)),
  (λ b. identify-of_pair auth header ∙ some-of_pair auth (split " " header) id b),
)

-- The middleware answers no request with an error of its own: what is wrong with the header or the
-- token makes the request anonymous.
pub identify-no_error :
    (auth : String → Result String) (header : String) (e : Error) → identify auth header ≢ err e
identify-no_error auth header e h =
    of_pair-no_error auth (split " " header) e (sym (identify-of_pair auth header) ∙ h)
