-- ===== src/Url/Print.antt =====
-- URL.String and URL.EscapedPath of net/url.
use Prim.Native.String.{[], ◌∷◌, ◌++◌}
use concrnt_playground.Prelude.{
  String, code, Bool, true, false, ◌&&◌, ◌||◌, not, Option, none, some, ◌==◌, nat_eq, string_eq,
  if◌then◌else◌,
}
use concrnt_playground.Url.{Url, Userinfo}
use concrnt_playground.Url.Bytes.{is_one_of, every, has, cut}
use concrnt_playground.Url.Escape.{path, host, user, fragment, escape, unescape, should_escape}

-- validEncoded in the path
valid_encoded : String → Bool
unfolding every is_one_of should_escape
valid_encoded s = every (λ c. is_one_of c "!$&'()*+,;=:@[]%" || not (should_escape path c)) s

abbrev is_path : Url → Bool
is_path u = elim (unescape path u.raw_path) [ none ↦ false | some p ↦ p == u.path ]

unfoldable pub escaped_path : Url → String
unfolding valid_encoded escape unescape
escaped_path u =
    if not (u.raw_path == "") && valid_encoded u.raw_path && is_path u
    then u.raw_path
    else if u.path == "*"
    then "*"
    else escape path u.path

-- Userinfo.String, of nil too
unfoldable pub user_string : Option Userinfo → String
unfolding escape
user_string none = ""
user_string (some u) = elim u.password [
  | none ↦ escape user u.username
  | some p ↦ escape user u.username ++ (":" ++ escape user p)
]

abbrev is_some_user : Option Userinfo → Bool
is_some_user none = false
is_some_user (some u) = true

abbrev starts_with_slash : String → Bool
starts_with_slash [] = false
starts_with_slash (c ∷ s) = code c == b'/'

authority : Url → String
unfolding user_string
authority u =
    if u.scheme == "" && u.host == "" && not (is_some_user u.user)
      || u.omit_host && u.host == "" && not (is_some_user u.user)
    then ""
    else (if u.host == "" && u.path == "" && not (is_some_user u.user) then "" else "//")
      ++ ((if is_some_user u.user then user_string u.user ++ "@" else "") ++ escape host u.host)

-- The first segment of a path with no scheme and no host may not look like a scheme.
abbrev has_colon_segment : String → Bool
has_colon_segment p = elim (cut b'/' p) [ none ↦ has b':' p | some (s, t) ↦ has b':' s ]

unfoldable pub to_string : Url → String
unfolding authority escaped_path escape cut has
to_string u =
    let p = escaped_path u in
    (if u.scheme == "" then "" else u.scheme ++ ":")
    ++ ((if u.opaque == ""
          then authority u
            ++ ((if not (p == "") && not (starts_with_slash p) && not (u.host == "")
                  then "/"
                  else "")
                ++ ((if u.scheme == "" && authority u == "" && has_colon_segment p
                      then "./"
                      else "")
                    ++ p))
          else u.opaque)
        ++ ((if u.force_query || not (u.raw_query == "") then "?" ++ u.raw_query else "")
            ++ (if u.fragment == "" then "" else "#" ++ escape fragment u.fragment)))
