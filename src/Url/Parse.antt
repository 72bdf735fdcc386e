-- ===== src/Url/Parse.antt =====
-- url.Parse of net/url. A host in brackets may not have a zone here.
use Prim.Native.String.{[], ◌∷◌, ◌++◌}
use concrnt_playground.Prelude.{
  ◌+◌, String, code, Bool, true, false, ◌&&◌, ◌||◌, not, Option, none, some, ◌==◌, nat_eq,
  string_eq, ltb, if◌then◌else◌,
}
use concrnt_playground.Url.{Url, Userinfo}
use concrnt_playground.Url.Bytes.{
  to_char, is_one_of, is_digit, is_lower, is_upper, every, has, cut, cut_last, strip_prefix,
}
use concrnt_playground.Url.Escape.{path, host, user, fragment, escape, unescape}

infixl 5 ◌>>=◌
abbrev pub ◌>>=◌ {ℓ κ} : {A : Type ℓ} {B : Type κ} → Option A → (A → Option B) → Option B
none >>= f = none
some a >>= f = f a

-- stringContainsCTLByte, negated
unfoldable pub no_control : String → Bool
unfolding every
no_control s = every (λ c. not (ltb c 32 || c == 127)) s

-- The part of getScheme after its first letter: the rest of the scheme with its colon, and what
-- follows; both empty where there is no scheme.
scheme_rest : String → Option (String × String)
scheme_rest [] = none
scheme_rest (c ∷ s) =
    let more = scheme_rest s in
    if code c == b':'
    then some ("", s)
    else if is_lower (code c) || is_upper (code c) || is_digit (code c) || is_one_of (code c) "+-."
    then elim more [ none ↦ none | some (a, b) ↦ some (c ∷ a, b) ]
    else none

-- getScheme: `none` is its error.
unfoldable pub get_scheme : String → Option (String × String)
unfolding scheme_rest is_one_of
get_scheme [] = some ("", "")
get_scheme (c ∷ s) =
    if is_lower (code c) || is_upper (code c)
    then elim (scheme_rest s) [ none ↦ some ("", c ∷ s) | some (a, b) ↦ some (c ∷ a, b) ]
    else if code c == b':'
    then none
    else some ("", c ∷ s)

-- strings.ToLower on the bytes of a scheme
unfoldable pub to_lower : String → String
unfolding to_char
to_lower [] = ""
to_lower (c ∷ s) = (if is_upper (code c) then to_char (code c + 32) else c) ∷ to_lower s

-- validOptionalPort
valid_port : String → Bool
unfolding every
valid_port [] = true
valid_port (c ∷ s) = code c == b':' && every is_digit s

-- What follows the last `]`, or the last colon and what follows it.
unfoldable pub port_of : String → Option String
unfolding cut_last
port_of [] = some ""
port_of (c ∷ s) =
    if code c == b'['
    then elim (cut_last b']' s) [ none ↦ none | some (a, b) ↦ some b ]
    else elim (cut_last b':' (c ∷ s)) [ none ↦ some "" | some (a, b) ↦ some (":" ++ b) ]

unfoldable pub parse_host : String → Option String
unfolding port_of valid_port unescape
parse_host s = do port ← port_of s; if valid_port port then unescape host s else none

valid_userinfo : String → Bool
unfolding every is_one_of
valid_userinfo s =
    every (λ c. is_lower c || is_upper c || is_digit c || is_one_of c "-._:~!$&'()*+,;=%@") s

parse_userinfo : String → Option Userinfo
unfolding valid_userinfo cut unescape
parse_userinfo s =
    if valid_userinfo s
    then elim (cut b':' s) [
      | none ↦ do name ← unescape user s; some (record { username = name; password = none })
      | some (a, b) ↦ do
        name ← unescape user a
        word ← unescape user b
        some (record { username = name; password = some word })
    ]
    else none

unfoldable pub parse_authority : String → Option (Option Userinfo × String)
unfolding cut_last parse_host parse_userinfo
parse_authority s = elim (cut_last b'@' s) [
  | none ↦ do h ← parse_host s; some (none, h)
  | some (a, b) ↦ do h ← parse_host b; u ← parse_userinfo a; some (some u, h)
]

-- setPath
unfoldable pub set_path : Url → String → Option Url
unfolding escape unescape
set_path u p = do
  q ← unescape path p
  some (record u { path = q; raw_path = if escape path q == p then "" else p })

abbrev pub blank : Url
blank = record {
  scheme = "";
  opaque = "";
  user = none;
  host = "";
  path = "";
  raw_path = "";
  omit_host = false;
  force_query = false;
  raw_query = "";
  fragment = "";
}

-- The authority of `rest`, which begins with two slashes, and the path behind it.
abbrev pub at_slash : String → Option (String × String) → String × String
at_slash s none = (s, "")
at_slash s (some (a, b)) = (a, "/" ++ b)

unfoldable pub split_authority : String → String × String
unfolding cut
split_authority s = at_slash s (cut b'/' s)

abbrev pub is_rooted : String → Bool
is_rooted [] = false
is_rooted (c ∷ s) = code c == b'/'

abbrev first_segment : String → String
first_segment s = elim (cut b'/' s) [ none ↦ s | some (a, b) ↦ a ]

unfoldable pub with_path : Url → String → Option Url
unfolding cut parse_authority set_path strip_prefix
with_path u rest = elim (strip_prefix "//" rest) [
  | none ↦ set_path (record u { omit_host = not (u.scheme == "") && is_rooted rest }) rest
  | some after ↦ if u.scheme == "" && is_rooted after then set_path u rest else do
    p ← parse_authority (split_authority after).0
    set_path (record u { user = p.0; host = p.1 }) (split_authority after).1
]

unfoldable pub hierarchical : Url → String → Option Url
unfolding with_path has
hierarchical u rest =
    if is_rooted rest
    then with_path u rest
    else if not (u.scheme == "")
    then some (record u { opaque = rest })
    else if has b':' (first_segment rest)
    then none
    else with_path u rest

-- The query: a lone `?` at the end sets ForceQuery.
unfoldable pub with_query : Url → String → Option Url
unfolding hierarchical cut
with_query u rest = elim (cut b'?' rest) [
  | none ↦ hierarchical u rest
  | some (a, b) ↦ hierarchical (record u { force_query = b == ""; raw_query = b }) a
]

-- The function `parse`, for a text with no fragment.
unfoldable pub parse_plain : String → Option Url
unfolding with_query no_control get_scheme to_lower
parse_plain s =
    if not (no_control s)
    then none
    else if s == "*"
    then some (record blank { path = "*" })
    else do p ← get_scheme s; with_query (record blank { scheme = to_lower p.0 }) p.1

-- url.Parse: `none` is its error.
unfoldable pub parse : String → Option Url
unfolding parse_plain cut unescape
parse s = elim (cut b'#' s) [
  | none ↦ parse_plain s
  | some (a, b) ↦ do u ← parse_plain a; f ← unescape fragment b; some (record u { fragment = f })
]
