-- ===== src/Url/Bytes.antt =====
-- Bytes as characters, and the operations of package strings on them.
use Prim.Native.Char.{char, IsScalar, nul}
use Prim.Native.Nat.{suc, compare, Ordering}
use Prim.Native.String.{count, [], ◌∷◌, ◌++◌}
use mathlib.Core.Logic.{dite}
use native.Mathlib.Decide.{dec_lt}
use concrnt_playground.Prelude.{
  zero, suc, ℕ, ◌-◌, ◌<◌, String, Char, code, ◌≡◌, Bool, true, false, ◌&&◌, ◌||◌, Option, none,
  some, arith, ◌==◌, nat_eq, string_eq, leb, if◌then◌else◌,
}

pub IsScalar-of_byte : (n : ℕ) → n < 256 → IsScalar n
IsScalar-of_byte n h = let e : compare n 55296 ≡ Ordering.lt = ground arith in rw e tt

-- The character of a byte.
unfoldable pub to_char : ℕ → Char
unfolding dec_lt
to_char n = dite (dec_lt n 256) (λ h. char n (IsScalar-of_byte n h)) (λ _. nul)

unfoldable pub is_one_of : ℕ → String → Bool
is_one_of c [] = false
is_one_of c (d ∷ s) = c == code d || is_one_of c s

abbrev pub is_digit : ℕ → Bool
is_digit c = leb b'0' c && leb c b'9'

abbrev pub is_lower : ℕ → Bool
is_lower c = leb b'a' c && leb c b'z'

abbrev pub is_upper : ℕ → Bool
is_upper c = leb b'A' c && leb c b'Z'

-- strings.Contains and strings.Index for one byte
unfoldable pub has : ℕ → String → Bool
has c [] = false
has c (d ∷ s) = code d == c || has c s

abbrev pub both : Char → Option (String × String) → Option (String × String)
both d none = none
both d (some (s, t)) = some (d ∷ s, t)

-- strings.Cut at the first byte of code `c`; `none` where it is absent
unfoldable pub cut : ℕ → String → Option (String × String)
cut c [] = none
cut c (d ∷ s) = if code d == c then some ("", s) else both d (cut c s)

-- A cut at the last one.
unfoldable pub cut_last : ℕ → String → Option (String × String)
cut_last c [] = none
cut_last c (d ∷ s) = elim (cut_last c s) [
  | some (a, b) ↦ some (d ∷ a, b)
  | none ↦ if code d == c then some ("", s) else none
]

-- strings.HasPrefix, with what follows the prefix
unfoldable pub strip_prefix : String → String → Option String
strip_prefix [] s = some s
strip_prefix (c ∷ p) [] = none
strip_prefix (c ∷ p) (d ∷ s) = if code c == code d then strip_prefix p s else none

-- strings.TrimPrefix
unfoldable pub trim_prefix : String → String → String
unfolding strip_prefix
trim_prefix p s = elim (strip_prefix p s) [ none ↦ s | some rest ↦ rest ]

-- strings.HasSuffix for one byte
unfoldable pub ends_with : ℕ → String → Bool
ends_with c [] = false
ends_with c (d ∷ []) = code d == c
ends_with c (d ∷ s) = ends_with c s

unfoldable pub every : (ℕ → Bool) → String → Bool
every p [] = true
every p (c ∷ s) = p (code c) && every p s

-- The rest of strings.ReplaceAll after `skip` more bytes of a match.
replace_from : ℕ → String → String → String → String
replace_from skip p r [] = ""
replace_from (suc skip) p r (c ∷ s) = replace_from skip p r s
replace_from zero p r (c ∷ s) =
    let after = replace_from (count p - 1) p r s in
    let rest = replace_from zero p r s in
    elim (strip_prefix p (c ∷ s)) [ none ↦ c ∷ rest | some _ ↦ r ++ after ]

-- strings.ReplaceAll of a text that is not empty
unfoldable pub replace_all : String → String → String → String
unfolding replace_from strip_prefix
replace_all p r s = replace_from 0 p r s
