-- ===== src/Cdid/Laws/Coding.antt =====
-- Printing and parsing of ids.
use Prim.Native.String.{count}
use text.Mathlib.TextLemmas.{length-nil, length-cons}
use concrnt_playground.Prelude.{
  ℕ, zero, suc, ◌+◌, ◌*◌, ◌/◌, ◌%◌, ◌<◌, String, code, ◌≡◌, ◌≢◌, refl, ap, ◌↔◌, Bool, true, false,
  none, some, List, [], ◌∷◌, ◌++◌, ◌==◌, nat_eq, ◌||◌, ◌&&◌, ok, All, All-append, length, take,
  drop, arith, length-append, ==_iff, not, Option-cases, inl, inr,
}
use concrnt_playground.Cdid.Base32.{
  digit, index, groups, ungroups, print, encode, strip, read, decode,
}
use concrnt_playground.Cdid.{Cdid, string, parse, all_bytes, is_cdid_char, zero_cdid}

abbrev pub IsByte : ℕ → Type 0
IsByte b = b < 256

abbrev IsDigit : ℕ → Type 0
IsDigit d = d < 32

groups-IsDigit : (bytes : List ℕ) → All IsByte bytes → All IsDigit (groups bytes)
unfolding groups
groups-IsDigit [] h = tt
groups-IsDigit (a ∷ []) h = omega arith
groups-IsDigit (a ∷ b ∷ []) h = omega arith
groups-IsDigit (a ∷ b ∷ c ∷ []) h = omega arith
groups-IsDigit (a ∷ b ∷ c ∷ d ∷ []) h = omega arith
groups-IsDigit (a ∷ b ∷ c ∷ d ∷ e ∷ rest) (ha, (hb, (hc, (hd, (he, h))))) = (
  omega arith,
  (
    omega arith,
    (
      omega arith,
      (
        omega arith,
        (omega arith, (omega arith, (omega arith, (omega arith, groups-IsDigit rest h)))),
      ),
    ),
  ),
)

-- A group of five bytes, byte by byte.
module _ (a b c d e : ℕ) (ha : a < 256) (hb : b < 256) (hc : c < 256) (hd : d < 256)
    (he : e < 256) where
  first : ((a / 8) * 8) % 256 + ((a * 4) % 32 + b / 64) / 4 ≡ a
  first = omega arith

  second :
      (((a * 4) % 32 + b / 64) * 64) % 256 + (b / 2) % 32 * 2 + ((b * 16) % 32 + c / 16) / 16 ≡ b
  second = omega arith

  third : (((b * 16) % 32 + c / 16) * 16) % 256 + ((c * 2) % 32 + d / 128) / 2 ≡ c
  third = omega arith

  fourth :
      (((c * 2) % 32 + d / 128) * 128) % 256 + (d / 4) % 32 * 4 + ((d * 8) % 32 + e / 32) / 8 ≡ d
  fourth = omega arith

  fifth : (((d * 8) % 32 + e / 32) * 32) % 256 + e % 32 ≡ e
  fifth = omega arith

cons-path : {a b : ℕ} {xs ys : List ℕ} → a ≡ b → xs ≡ ys → a ∷ xs ≡ b ∷ ys
cons-path p q = λ i. p i ∷ q i

ungroups-groups : (bytes : List ℕ) → All IsByte bytes → ungroups (groups bytes) ≡ bytes
unfolding groups ungroups
ungroups-groups [] h = refl
ungroups-groups (a ∷ []) (ha, _) = cons-path (omega arith) refl
ungroups-groups (a ∷ b ∷ []) (ha, (hb, _)) = cons-path (omega arith) (cons-path (omega arith) refl)
ungroups-groups (a ∷ b ∷ c ∷ []) (ha, (hb, (hc, _))) =
    cons-path (omega arith) (cons-path (omega arith) (cons-path (omega arith) refl))
ungroups-groups (a ∷ b ∷ c ∷ d ∷ []) (ha, (hb, (hc, (hd, _)))) =
    cons-path (omega arith)
      (cons-path (omega arith) (cons-path (omega arith) (cons-path (omega arith) refl)))
ungroups-groups (a ∷ b ∷ c ∷ d ∷ e ∷ rest) (ha, (hb, (hc, (hd, (he, h))))) =
    cons-path (first a b c d e ha hb hc hd he) (
      cons-path (second a b c d e ha hb hc hd he) (
        cons-path (third a b c d e ha hb hc hd he) (
          cons-path (fourth a b c d e ha hb hc hd he)
            (cons-path (fifth a b c d e ha hb hc hd he) (ungroups-groups rest h)))))

-- A test on every number under a bound, by running it on each.
passes : (ℕ → Bool) → ℕ → Bool
passes test zero = true
passes test (suc bound) = passes test bound && test bound

passes-at : (test : ℕ → Bool) (bound n : ℕ) → n < bound → passes test bound ≡ true → test n ≡ true
unfolding passes
passes-at test zero n below h = absurd (omega arith)
passes-at test (suc bound) n below h = ground (arith, passes-at test bound n)

-- A digit's character has the digit for its index, and is no line break.
abbrev reads_back : ℕ → Bool
reads_back d =
    elim (index (code (digit d))) [ none ↦ false | some e ↦ e == d ]
    && not (code (digit d) == 10 || code (digit d) == 13)

digits_table : passes reads_back 32 ≡ true
unfolding passes index digit
digits_table = refl

index-digit : (d : ℕ) → d < 32 → index (code (digit d)) ≡ some d
index-digit d h = ground (arith, passes-at reads_back 32 d h digits_table)

digit_no_break : (d : ℕ) → d < 32 → (code (digit d) == 10 || code (digit d) == 13) ≡ false
digit_no_break d h = ground (arith, passes-at reads_back 32 d h digits_table)

strip-print : (ds : List ℕ) → All IsDigit ds → strip (print ds) ≡ print ds
unfolding strip
strip-print [] h = refl
strip-print (d ∷ ds) (p, h) = rw (digit_no_break d p, strip-print ds h)

read-print : (ds : List ℕ) → All IsDigit ds → read (print ds) ≡ ok ds
unfolding read
read-print [] h = refl
read-print (d ∷ ds) (p, h) = rw (index-digit d p, read) (rw (read-print ds h))

decode-encode : (bytes : List ℕ) → All IsByte bytes → decode (encode bytes) ≡ ok bytes
unfolding decode encode
decode-encode bytes h =
    let g = groups-IsDigit bytes h in
    rw (strip-print (groups bytes) g, read-print (groups bytes) g, ungroups-groups bytes h)

-- Ten bytes of data and six of time.
pub record IsValid (c : Cdid) : Type 0 where
  pub ten : length c.bytes ≡ 10
  pub six : length c.time ≡ 6
  pub data_bytes : All IsByte c.bytes
  pub time_bytes : All IsByte c.time

take-append : (n : ℕ) (xs ys : List ℕ) → length xs ≡ n → take n (xs ++ ys) ≡ xs
take-append zero [] ys h = refl
take-append zero (x ∷ xs) ys h = absurd (omega arith)
take-append (suc n) [] ys h = absurd (omega arith)
take-append (suc n) (x ∷ xs) ys h = ap (λ t. x ∷ t) (take-append n xs ys (omega arith))

drop-append : (n : ℕ) (xs ys : List ℕ) → length xs ≡ n → drop n (xs ++ ys) ≡ ys
drop-append zero [] ys h = refl
drop-append zero (x ∷ xs) ys h = absurd (omega arith)
drop-append (suc n) [] ys h = absurd (omega arith)
drop-append (suc n) (x ∷ xs) ys h = drop-append n xs ys (omega arith)

-- Parsing what a valid id prints gives back the id.
pub parse-string : (c : Cdid) → IsValid c → parse (string c) ≡ ok c
unfolding parse string all_bytes
parse-string c v =
    let bytes = All-append IsByte c.bytes c.time v.data_bytes v.time_bytes in
    let sixteen : (length (c.bytes ++ c.time) == 16) ≡ true =
      (==_iff _ 16).1 (omega (arith, length-append c.bytes c.time, v.ten, v.six)) in
    rw (
      decode-encode (c.bytes ++ c.time) bytes,
      sixteen,
      take-append 10 c.bytes c.time v.ten,
      drop-append 10 c.bytes c.time v.ten,
    )

-- What the scanner of ids accepts is what the decoder accepts, for every byte.
abbrev agrees : ℕ → Bool
agrees c = elim (index c) [ none ↦ not (is_cdid_char c) | some d ↦ is_cdid_char c ]

chars_table : passes agrees 256 ≡ true
unfolding passes index is_cdid_char
chars_table = refl

-- A byte is a character of ids exactly when it stands for a digit of the encoding.
pub is_cdid_char_iff : (c : ℕ) → c < 256 → (is_cdid_char c ≡ true) ↔ ((d : ℕ) × (index c ≡ some d))
is_cdid_char_iff c h =
    let t = passes-at agrees 256 c h chars_table in
    elim (Option-cases (index c)) [
      | inl e ↦ (ground arith, ground arith)
      | inr (d, e) ↦ (λ _. (d, e), λ _. ground arith)
    ]

length-groups : (bytes : List ℕ) → length (groups bytes) ≡ (length bytes * 8 + 4) / 5
unfolding groups
length-groups [] = refl
length-groups (a ∷ []) = refl
length-groups (a ∷ b ∷ []) = refl
length-groups (a ∷ b ∷ c ∷ []) = refl
length-groups (a ∷ b ∷ c ∷ d ∷ []) = refl
length-groups (a ∷ b ∷ c ∷ d ∷ e ∷ rest) = omega (arith, length-groups rest)

count-print : (ds : List ℕ) → count (print ds) ≡ length ds
count-print [] = length-nil
count-print (d ∷ ds) = rw (length-cons, count-print ds)

-- A valid id prints to twenty-six characters.
pub count-string : (c : Cdid) → IsValid c → count (string c) ≡ 26
unfolding string encode all_bytes
count-string c v = omega (
  arith,
  count-print (groups (c.bytes ++ c.time)),
  length-groups (c.bytes ++ c.time),
  length-append c.bytes c.time,
  v.ten,
  v.six,
)

-- Two valid ids that print alike are equal.
pub string_injective : (c d : Cdid) → IsValid c → IsValid d → string c ≡ string d → c ≡ d
string_injective c d v w e = cc (parse-string c v, parse-string d w, ap parse e)

-- A text whose decoding is not sixteen bytes long gives the zero id, and no error.
pub parse_wrong_length :
    (s : String) (b : List ℕ) → decode s ≡ ok b → length b ≢ 16 → parse s ≡ ok zero_cdid
unfolding parse
parse_wrong_length s b e h = rw e (ground (arith, ==_iff (length b) 16))
