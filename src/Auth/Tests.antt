-- ===== src/Auth/Tests.antt =====
-- Requests of one entity, and the properties of auth.go applied to them.
use concrnt_playground.Prelude.{
  String, ◌≡◌, ◌≢◌, ◌↔◌, refl, none, some, Result, ok, err, [], ◌∷◌, ◌==◌, string_eq, if◌then◌else◌,
  message, split,
}
use concrnt_playground.Prelude.Int.{pos}
use concrnt_playground.Crypto.Tests.{toy}
use concrnt_playground.Jwt.Tests.{one_byte}
use concrnt_playground.Auth.{auth_jwt, identify}
use concrnt_playground.Auth.Laws.{Authenticates, auth_jwt-ok, identify-some, identify-no_error}

abbrev auth : String → Result String
auth token = if token == "good" then ok "con1alice" else err (message "invalid jwt format")

refused : identify auth "Bearer bad" ≡ ok none
unfolding identify
refused = refl

no_bearer : identify auth "Basic good" ≡ ok none
unfolding identify
no_bearer = refl

auth_jwt-ok_example :
    (auth_jwt one_byte toy (pos 50) "example.com" "h.c.c" ≡ ok "con1alice")
    ↔ Authenticates one_byte toy (pos 50) "example.com" "h.c.c" "con1alice"
auth_jwt-ok_example = auth_jwt-ok one_byte toy (pos 50) "example.com" "h.c.c" "con1alice"

identify-some_example : (identify auth "Bearer good" ≡ ok (some "con1alice")) ↔ (
    (token : String) × (split " " "Bearer good" ≡ "Bearer" ∷ token ∷ [])
    × (auth token ≡ ok "con1alice"))
identify-some_example = identify-some auth "Bearer good" "con1alice"

identify-no_error_test : identify auth "Bearer bad" ≢ err (message "invalid jwt format")
identify-no_error_test = identify-no_error auth "Bearer bad" (message "invalid jwt format")
