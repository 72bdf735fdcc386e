-- ===== src/Uri.antt =====
-- utils.go: the URIs of documents, `cc://owner/key`, and the forms of ids.
mod Tests
pub mod Ids
pub mod Plain
pub mod RoundTrip
pub mod Printed
use Prim.Native.String.{count, ◌∷◌, []}
use concrnt_playground.Prelude.{
  code, ℕ, String, Bool, true, false, ◌&&◌, ◌||◌, not, Option, none, some, Result, ok, err, panic,
  Error, message, ◌>>=◌, ◌>>◌, guard, ◌==◌, nat_eq, string_eq, if◌then◌else◌,
}
use concrnt_playground.Url.{Url}
use concrnt_playground.Url.Bytes.{has, strip_prefix, trim_prefix}
use concrnt_playground.Url.Escape.{unescape, query}
use concrnt_playground.Url.Parse.{parse, blank}
use concrnt_playground.Url.Print.{to_string, user_string}

abbrev pub or_error : Option String → String → Result String
or_error none e = err (message e)
or_error (some s) e = ok s

abbrev pub url_or_error : Option Url → String → Result Url
url_or_error none e = err (message e)
url_or_error (some u) e = ok u

-- The owner, the key and the hint of a parsed URI.
abbrev pub parts : Url → String × String × String
parts u =
    let key = trim_prefix "/" u.path in
    if user_string u.user == "" then (u.host, key, "") else (user_string u.user, key, u.host)

unfoldable pub parse_cc_uri_with_hint : String → Result (String × String × String)
unfolding unescape parse user_string trim_prefix
parse_cc_uri_with_hint escaped = do
  uri_string ← or_error (unescape query escaped) "invalid uri encoding"
  uri ← url_or_error (parse uri_string) "invalid uri"
  guard (uri.scheme == "cc") (message "unsupported uri scheme")
  ok (parts uri)

unfoldable pub parse_cc_uri : String → Result (String × String)
unfolding parse_cc_uri_with_hint
parse_cc_uri escaped = do p ← parse_cc_uri_with_hint escaped; ok (p.0, p.1)

unfoldable pub compose_cc_uri : String → String → String
unfolding to_string
compose_cc_uri owner key = to_string (record blank { scheme = "cc"; host = owner; path = key })

-- The loop of hasChar
unfoldable pub has_char : String → ℕ → Bool
has_char [] c = false
has_char (d ∷ s) c = code d == c || has_char s c

abbrev pub starts_with : String → String → Bool
starts_with p s = elim (strip_prefix p s) [ none ↦ false | some rest ↦ true ]

unfoldable pub is_ccid : String → Bool
unfolding has_char strip_prefix
is_ccid id = count id == 42 && starts_with "con" id && not (has_char id b'.')

unfoldable pub is_csid : String → Bool
unfolding has_char strip_prefix
is_csid id = count id == 42 && starts_with "ccs" id && not (has_char id b'.')

unfoldable pub is_ckid : String → Bool
unfolding has_char strip_prefix
is_ckid id = count id == 42 && starts_with "cck" id && not (has_char id b'.')
