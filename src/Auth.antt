-- ===== src/Auth.antt =====
-- internal/service/auth.go and internal/present/rest/middleware/auth.go: who sends a request.
pub mod Laws
mod Tests
use concrnt_playground.Prelude.{
  String, Bool, true, false, Option, none, some, Result, ok, err, panic, lost, message, List, [],
  ◌∷◌, ◌>>=◌, ◌>>◌, guard, split, ◌==◌, string_eq, if◌then◌else◌,
}
use concrnt_playground.Prelude.Int.{ℤ}
use concrnt_playground.Crypto.{Curve}
use concrnt_playground.Jwt.{Header, Claims, Encoding, validate, key_of}
use concrnt_playground.Uri.{is_ccid, is_ckid}

-- The check of the key in AuthJwt: the id of an entity is the only one that it takes.
abbrev pub accept_key : String → Result String
accept_key key =
    if is_ccid key
    then ok key
    else if is_ckid key
    then err (message "ckid not supported yet")
    else err (message "invalid issuer")

-- AuthService.AuthJwt, on the host `fqdn` at a time in seconds
unfoldable pub auth_jwt : Encoding → Curve → ℤ → String → String → Result String
unfolding is_ccid is_ckid
auth_jwt e curve now fqdn token = do
  p ← validate e curve now token
  guard (p.1.audience == fqdn) (message "jwt audience mismatch")
  guard (p.1.subject == "concrnt") (message "invalid subject")
  accept_key (key_of p.0 p.1)

-- `goto skipCheckAuthorization` on an error: the request goes on without an id.
abbrev pub anonymous : Result String → Result (Option String)
anonymous (ok id) = ok (some id)
anonymous (err e) = ok none
anonymous panic = panic
anonymous lost = lost

abbrev pub of_pair : (String → Result String) → List String → Result (Option String)
of_pair auth (kind ∷ token ∷ []) = if kind == "Bearer" then anonymous (auth token) else ok none
of_pair auth _ = ok none

-- AuthMiddleware.IdentifyIdentity: the id that it puts in the context of the next handler, from the
-- header `authorization`, which is empty where there is none.
unfoldable pub identify : (String → Result String) → String → Result (Option String)
unfolding split
identify auth header = if header == "" then ok none else of_pair auth (split " " header)
