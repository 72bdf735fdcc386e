-- ===== src/Cdid/Base32.antt =====
-- The base 32 of cdid/cdid.go: Go's encoding/base32 with an alphabet of its own and no padding.
use concrnt_playground.Prelude.{
  ℕ, zero, suc, ◌+◌, ◌*◌, ◌/◌, ◌%◌, String, Char, code, Option, none, some, List, [], ◌∷◌, ◌==◌,
  nat_eq, ◌||◌, if◌then◌else◌, Result, ok, err, message, ◌>>=◌,
}

abbrev pub alphabet : String
alphabet = "0123456789abcdefghjkmnpqrstvwxyz"

-- The character at an index, and the index of a character.
abbrev char_at : Char → String → ℕ → Char
char_at d String.[] i = d
char_at d (String.◌∷◌ c s) zero = c
char_at d (String.◌∷◌ c s) (suc i) = char_at d s i

unfoldable pub digit : ℕ → Char
digit i = char_at "0" alphabet i

index_from : ℕ → String → ℕ → Option ℕ
index_from i String.[] c = none
index_from i (String.◌∷◌ d s) c = if code d == c then some i else index_from (suc i) s c

unfoldable pub index : ℕ → Option ℕ
unfolding index_from
index c = index_from 0 alphabet c

-- One group of up to five bytes; `|` joins bits that do not overlap, so it is `+`.
unfoldable pub groups : List ℕ → List ℕ
groups [] = []
groups (a ∷ []) = a / 8 ∷ (a * 4) % 32 ∷ []
groups (a ∷ b ∷ []) = a / 8 ∷ ((a * 4) % 32 + b / 64) ∷ (b / 2) % 32 ∷ (b * 16) % 32 ∷ []
groups (a ∷ b ∷ c ∷ []) =
    a / 8 ∷ ((a * 4) % 32 + b / 64) ∷ (b / 2) % 32 ∷ ((b * 16) % 32 + c / 16) ∷ (c * 2) % 32 ∷ []
groups (a ∷ b ∷ c ∷ d ∷ []) =
    a / 8
    ∷ ((a * 4) % 32 + b / 64)
    ∷ (b / 2) % 32
    ∷ ((b * 16) % 32 + c / 16)
    ∷ ((c * 2) % 32 + d / 128)
    ∷ (d / 4) % 32
    ∷ (d * 8) % 32
    ∷ []
groups (a ∷ b ∷ c ∷ d ∷ e ∷ rest) =
    a / 8
    ∷ ((a * 4) % 32 + b / 64)
    ∷ (b / 2) % 32
    ∷ ((b * 16) % 32 + c / 16)
    ∷ ((c * 2) % 32 + d / 128)
    ∷ (d / 4) % 32
    ∷ ((d * 8) % 32 + e / 32)
    ∷ e % 32
    ∷ groups rest

-- The bytes of one group of eight digits, cut to a byte each. A last group of one, three or six
-- digits is dropped, as the decoder does without padding.
unfoldable pub ungroups : List ℕ → List ℕ
ungroups (a ∷ b ∷ []) = ((a * 8) % 256 + b / 4) ∷ []
ungroups (a ∷ b ∷ c ∷ d ∷ []) = ((a * 8) % 256 + b / 4) ∷ ((b * 64) % 256 + c * 2 + d / 16) ∷ []
ungroups (a ∷ b ∷ c ∷ d ∷ e ∷ []) =
    ((a * 8) % 256 + b / 4) ∷ ((b * 64) % 256 + c * 2 + d / 16) ∷ ((d * 16) % 256 + e / 2) ∷ []
ungroups (a ∷ b ∷ c ∷ d ∷ e ∷ f ∷ g ∷ []) =
    ((a * 8) % 256 + b / 4)
    ∷ ((b * 64) % 256 + c * 2 + d / 16)
    ∷ ((d * 16) % 256 + e / 2)
    ∷ ((e * 128) % 256 + f * 4 + g / 8)
    ∷ []
ungroups (a ∷ b ∷ c ∷ d ∷ e ∷ f ∷ g ∷ h ∷ rest) =
    ((a * 8) % 256 + b / 4)
    ∷ ((b * 64) % 256 + c * 2 + d / 16)
    ∷ ((d * 16) % 256 + e / 2)
    ∷ ((e * 128) % 256 + f * 4 + g / 8)
    ∷ ((g * 32) % 256 + h)
    ∷ ungroups rest
ungroups _ = []

abbrev pub print : List ℕ → String
print [] = ""
print (d ∷ ds) = String.◌∷◌ (digit d) (print ds)

-- encoder.EncodeToString
unfoldable pub encode : List ℕ → String
unfolding groups digit
encode bytes = print (groups bytes)

-- stripNewlines
unfoldable pub strip : String → String
strip String.[] = ""
strip (String.◌∷◌ c s) =
    let rest = strip s in if code c == 10 || code c == 13 then rest else String.◌∷◌ c rest

-- The digits of a text, or the error at the first character outside the alphabet.
unfoldable pub read : String → Result (List ℕ)
read String.[] = ok []
read (String.◌∷◌ c s) = elim (index (code c)) [
  | none ↦ err (message "illegal base32 data at input byte")
  | some d ↦ read s >>= λ ds. ok (d ∷ ds)
]

-- decoder.DecodeString
unfoldable pub decode : String → Result (List ℕ)
unfolding read ungroups index strip
decode s = read (strip s) >>= λ ds. ok (ungroups ds)
