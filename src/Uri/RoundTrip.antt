-- ===== src/Uri/RoundTrip.antt =====
-- Composing a URI of plain texts and parsing it gives back the owner and the key.
use Prim.Native.String.{◌∷◌, [], ◌++◌}
use text.Mathlib.TextLemmas.{nil-append, cons-append, append-nil, append_assoc}
use concrnt_playground.Prelude.{
  subst, ltb, eq_refl, ap, sym, ◌∙◌, Char, string_eq, ◌≢◌, code, ℕ, String, true, false, ◌||◌, not,
  ◌≡◌, refl, ◌==◌, nat_eq, arith, none, some, ok,
}
use concrnt_playground.Url.Bytes.{trim_prefix, strip_prefix, every, is_one_of}
use concrnt_playground.Url.Escape.{path, host, query}
use concrnt_playground.Url.Parse.{
  is_rooted, with_query, hierarchical, split_authority, parse_plain, no_control, get_scheme,
  port_of, with_path, parse_authority, set_path, parse,
}
use concrnt_playground.Uri.Plain.{
  IsKey, is_plain, is_key_byte, IsOwner, cut-none, cut_last-none, cut-append, every-append,
  escape-inert, unescape-raw, is_uri_byte, IsInert-plain, IsRaw-plain, IsInert-key, IsRaw-key,
  IsRaw-uri, every_mono, key_bytes, owner_bytes, composed, ne_star, escaped_path-key, cons_ne_nil,
}
use concrnt_playground.Uri.{trim_prefix, Url, parse_cc_uri_with_hint, blank, compose_cc_uri}

pub scheme-append : (x : String) → "cc" ++ (":" ++ ("//" ++ x)) ≡ "cc://" ++ x
scheme-append x =
    ap (λ y. "cc" ++ y) (sym (append_assoc ":" "//" x)) ∙ sym (append_assoc "cc" "://" x)

no_slash : (c : Char) → code c ≢ b'/' → (code c == b'/') ≡ false
no_slash c h = ground arith

pub compose-composed :
    (owner key : String) → IsOwner owner → IsKey key → compose_cc_uri owner key ≡ composed owner key
unfolding compose_cc_uri
compose-composed [] key o k = elim o [ ]
compose-composed (a ∷ owner) [] o k = elim k [ ]
compose-composed (a ∷ owner) (c ∷ key) o (r, k) =
    rw
      (
        escaped_path-key (a ∷ owner) (c ∷ key) k,
        escape-inert host is_plain (a ∷ owner) IsInert-plain o,
        cons_ne_nil a owner,
        cons_ne_nil c key,
        no_slash c r,
      )
      (simp (nil-append, cons-append, append-nil, append_assoc) (scheme-append _))

every-after :
    (owner key : String)
    → IsOwner owner
    → IsKey key
    → every is_uri_byte ("//" ++ (owner ++ ("/" ++ key))) ≡ true
unfolding every is_one_of
every-after owner key o k = every-append is_uri_byte "//" (owner ++ ("/" ++ key)) refl (
    every-append is_uri_byte owner ("/" ++ key)
      (every_mono is_plain is_uri_byte owner (λ d h. ground arith) (owner_bytes owner o))
      (every-append is_uri_byte "/" key refl
        (every_mono is_key_byte is_uri_byte key (λ d h. ground arith) (key_bytes key k))))

pub every-composed :
    (owner key : String) → IsOwner owner → IsKey key → every is_uri_byte (composed owner key) ≡ true
unfolding every is_one_of
every-composed owner key o k =
    subst (λ s. every is_uri_byte s ≡ true) (scheme-append (owner ++ ("/" ++ key)))
      (every-append is_uri_byte "cc" (":" ++ ("//" ++ (owner ++ ("/" ++ key)))) refl (
        every-append is_uri_byte ":" ("//" ++ (owner ++ ("/" ++ key))) refl
          (every-after owner key o k)))

pub every-slash :
    (key : String) → every is_key_byte key ≡ true → every is_key_byte ("/" ++ key) ≡ true
unfolding every is_one_of
every-slash key k = every-append is_key_byte "/" key refl k

set_path-slash :
    (u : Url) (key : String)
    → every is_key_byte key ≡ true
    → set_path u ("/" ++ key) ≡ some (record u { path = "/" ++ key; raw_path = "" })
unfolding set_path
set_path-slash u key k =
    let k' = every-slash key k in
    rw (
      unescape-raw path is_key_byte ("/" ++ key) IsRaw-key k',
      escape-inert path is_key_byte ("/" ++ key) IsInert-key k',
      eq_refl ("/" ++ key),
    )

strip_prefix-append : (p x : String) → strip_prefix p (p ++ x) ≡ some x
unfolding strip_prefix
strip_prefix-append [] x = rw nil-append
strip_prefix-append (c ∷ p) x = rw cons-append (ground (arith, strip_prefix-append p x))

no_bracket : (c : ℕ) → is_plain c ≡ true → (c == b'[') ≡ false
unfolding is_one_of
no_bracket c h = ground arith

port_of-plain : (a : Char) (s : String) → IsOwner (a ∷ s) → port_of (a ∷ s) ≡ some ""
unfolding port_of
port_of-plain a s o = rw (
  no_bracket (code a) (unfold every in ground arith),
  cut_last-none is_plain b':' (a ∷ s) o (unfold is_one_of in refl),
)

parse_authority-plain :
    (owner : String) → IsOwner owner → parse_authority owner ≡ some (none, owner)
unfolding parse_authority
parse_authority-plain [] o = elim o [ ]
parse_authority-plain (a ∷ owner) o = rw (
  cut_last-none is_plain b'@' (a ∷ owner) o (unfold is_one_of in refl),
  parse_authority,
  port_of-plain a owner o,
  unescape-raw host is_plain (a ∷ owner) IsRaw-plain o,
)

abbrev pub parsed : String → String → Url
parsed owner key = record blank { scheme = "cc"; host = owner; path = "/" ++ key }

split_authority-append :
    (owner key : String)
    → IsOwner owner
    → split_authority (owner ++ ("/" ++ key)) ≡ (owner, "/" ++ key)
unfolding split_authority
split_authority-append owner key o =
    rw (cut-append is_plain owner key (owner_bytes owner o) (unfold is_one_of in refl))

with_path-composed :
    (owner key : String)
    → IsOwner owner
    → IsKey key
    → with_path (record blank { scheme = "cc" }) ("//" ++ (owner ++ ("/" ++ key)))
      ≡ some (parsed owner key)
unfolding with_path
with_path-composed owner key o k =
    rw
      (
        strip_prefix-append "//" (owner ++ ("/" ++ key)),
        with_path,
        split_authority-append owner key o,
        parse_authority-plain owner o,
      )
      (set_path-slash (record blank { scheme = "cc"; host = owner }) key (key_bytes key k))

get_scheme-cc : (x : String) → get_scheme ("cc://" ++ x) ≡ some ("cc", "//" ++ x)
unfolding get_scheme
get_scheme-cc x = rw (cons-append, cons-append, cons-append)

clean_byte : (c : ℕ) → is_uri_byte c ≡ true → not (ltb c 32 || c == 127) ≡ true
unfolding is_one_of
clean_byte c h = ground arith

no_control-composed : (s : String) → every is_uri_byte s ≡ true → no_control s ≡ true
unfolding no_control
no_control-composed s h = every_mono is_uri_byte _ s clean_byte h

rooted : (x : String) → is_rooted ("//" ++ x) ≡ true
rooted x = rw cons-append

hierarchical-composed :
    (owner key : String)
    → IsOwner owner
    → IsKey key
    → hierarchical (record blank { scheme = "cc" }) ("//" ++ (owner ++ ("/" ++ key)))
      ≡ some (parsed owner key)
unfolding hierarchical
hierarchical-composed owner key o k =
    rw (rooted (owner ++ ("/" ++ key)), hierarchical) (with_path-composed owner key o k)

with_query-composed :
    (owner key : String)
    → IsOwner owner
    → IsKey key
    → with_query (record blank { scheme = "cc" }) ("//" ++ (owner ++ ("/" ++ key)))
      ≡ some (parsed owner key)
unfolding with_query
with_query-composed owner key o k =
    rw
      (
        cut-none is_uri_byte b'?' ("//" ++ (owner ++ ("/" ++ key))) (every-after owner key o k)
            (unfold is_one_of in refl),
        with_query,
      )
      (hierarchical-composed owner key o k)

parse_plain-composed :
    (owner key : String)
    → IsOwner owner
    → IsKey key
    → parse_plain (composed owner key) ≡ some (parsed owner key)
unfolding parse_plain
parse_plain-composed owner key o k =
    let u = every-composed owner key o k in
    rw
      (
        no_control-composed (composed owner key) u,
        ne_star is_uri_byte (composed owner key) u (unfold is_one_of in refl),
        get_scheme-cc (owner ++ ("/" ++ key)),
        parse_plain,
      )
      (with_query-composed owner key o k)

pub parse-composed :
    (owner key : String)
    → IsOwner owner
    → IsKey key
    → parse (composed owner key) ≡ some (parsed owner key)
unfolding parse
parse-composed owner key o k =
    rw
      (
        cut-none is_uri_byte b'#' (composed owner key) (every-composed owner key o k)
            (unfold is_one_of in refl),
        parse,
      )
      (parse_plain-composed owner key o k)

trim_slash : (key : String) → trim_prefix "/" ("/" ++ key) ≡ key
unfolding trim_prefix
trim_slash key = rw (strip_prefix-append "/" key, trim_prefix)

-- A URI composed of an owner and a key is read back as that owner and that key, with no hint, where the
-- owner is letters, digits and `-_.~`, the key the same and slashes, with none in front, and neither is
-- empty.
pub parse_cc_uri-compose_cc_uri :
    (owner key : String)
    → IsOwner owner
    → IsKey key
    → parse_cc_uri_with_hint (compose_cc_uri owner key) ≡ ok (owner, key, "")
unfolding parse_cc_uri_with_hint
parse_cc_uri-compose_cc_uri owner key o k = rw (
  compose-composed owner key o k,
  unescape-raw query is_uri_byte (composed owner key) IsRaw-uri (every-composed owner key o k),
  parse-composed owner key o k,
  trim_slash key,
)
