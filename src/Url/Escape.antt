-- ===== src/Url/Escape.antt =====
-- escape and unescape of net/url.
use Prim.Native.String.{[], ◌∷◌}
use concrnt_playground.Prelude.{
  Char, leb, ℕ, ◌+◌, ◌-◌, ◌*◌, ◌/◌, ◌%◌, String, code, Bool, true, false, ◌&&◌, ◌||◌, not, Option,
  none, some, ◌==◌, nat_eq, ltb, if◌then◌else◌,
}
use concrnt_playground.Url.Bytes.{to_char, is_one_of, is_digit, is_lower, is_upper}

-- The parts of a URL that have their own rules; the fragment's rules are those of `fragment`.
pub data Mode : Type 0 where
  path segment host user query fragment : Mode

abbrev is_reserved : ℕ → Bool
is_reserved c = is_one_of c "$&+,/:;=?@"

abbrev escapes_reserved : Mode → ℕ → Bool
escapes_reserved path c = c == b'?'
escapes_reserved segment c = is_one_of c "/;,?"
escapes_reserved user c = is_one_of c "@/?:"
escapes_reserved query c = true
escapes_reserved _ c = false

abbrev keeps : Mode → ℕ → Bool
keeps host c = is_one_of c "!$&'()*+,;=:[]<>\""
keeps fragment c = is_one_of c "!()*"
keeps _ c = false

-- shouldEscape
unfoldable pub should_escape : Mode → ℕ → Bool
unfolding is_one_of
should_escape m c =
    if is_lower c || is_upper c || is_digit c || keeps m c || is_one_of c "-_.~"
    then false
    else if is_reserved c
    then escapes_reserved m c
    else true

unfoldable pub hex_digit : ℕ → ℕ
hex_digit n = if ltb n 10 then b'0' + n else b'A' + n - 10

abbrev is_query : Mode → Bool
is_query query = true
is_query _ = false

-- escape
unfoldable pub escape : Mode → String → String
unfolding should_escape to_char hex_digit
escape m [] = ""
escape m (c ∷ s) =
    let rest = escape m s in
    if code c == b' ' && is_query m
    then "+" ∷ rest
    else if should_escape m (code c)
    then "%" ∷ to_char (hex_digit (code c / 16)) ∷ to_char (hex_digit (code c % 16)) ∷ rest
    else c ∷ rest

-- unhex, where ishex holds
unfoldable pub unhex : ℕ → Option ℕ
unhex c =
    if is_digit c
    then some (c - b'0')
    else if leb b'a' c && leb c b'f'
    then some (c - b'a' + 10)
    else if leb b'A' c && leb c b'F'
    then some (c - b'A' + 10)
    else none

-- The byte of two hexadecimal digits.
unfoldable pub byte_of : ℕ → ℕ → Option ℕ
unfolding unhex
byte_of a b = elim (unhex a) [
  | none ↦ none
  | some x ↦ elim (unhex b) [ none ↦ none | some y ↦ some (x * 16 + y) ]
]

-- In a host only bytes that are not ASCII, and `%25`, may be escaped.
abbrev allows_escape : Mode → ℕ → Bool
allows_escape host n = leb 128 n || n == b'%'
allows_escape _ n = true

abbrev pub allows_plain : Mode → ℕ → Bool
allows_plain host c = leb 128 c || not (should_escape host c)
allows_plain _ c = true

abbrev put : Char → Option String → Option String
put c none = none
put c (some s) = some (c ∷ s)

-- The character of an escaped byte before the rest, if the escape is valid.
abbrev put_byte : Mode → Option ℕ → Option String → Option String
put_byte m none rest = none
put_byte m (some n) rest = if allows_escape m n then put (to_char n) rest else none

-- unescape
unfoldable pub unescape : Mode → String → Option String
unfolding byte_of should_escape to_char
unescape m [] = some ""
unescape m (c ∷ []) =
    if code c == b'%' || not (allows_plain m (code c))
    then none
    else some ((if code c == b'+' && is_query m then " " else c) ∷ "")
unescape m (c ∷ d ∷ []) =
    let rest = unescape m (d ∷ []) in
    if code c == b'%' || not (allows_plain m (code c))
    then none
    else put (if code c == b'+' && is_query m then " " else c) rest
unescape m (c ∷ d ∷ e ∷ s) =
    let rest = unescape m (d ∷ e ∷ s) in
    let after = unescape m s in
    if code c == b'%'
    then put_byte m (byte_of (code d) (code e)) after
    else if allows_plain m (code c)
    then put (if code c == b'+' && is_query m then " " else c) rest
    else none
