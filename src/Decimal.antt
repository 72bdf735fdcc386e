-- ===== src/Decimal.antt =====
-- strconv.FormatInt in base ten, of an int64.
use Prim.Native.String.{◌∷◌, ◌++◌}
use concrnt_playground.Prelude.{ℕ, zero, suc, ◌+◌, ◌/◌, ◌%◌, String, ltb, if◌then◌else◌}
use concrnt_playground.Prelude.Int.{ℤ, pos, negsuc}
use concrnt_playground.Url.Bytes.{to_char}

-- The digits before those of `text`; twenty are more than a word of 64 bits has.
abbrev digits : ℕ → ℕ → String → String
digits zero n text = text
digits (suc fuel) n text =
    let rest = digits fuel (n / 10) (to_char (b'0' + n % 10) ∷ text) in
    if ltb n 10 then to_char (b'0' + n) ∷ text else rest

unfoldable pub format_nat : ℕ → String
unfolding to_char
format_nat n = digits 20 n ""

unfoldable pub format_int : ℤ → String
unfolding format_nat
format_int (pos n) = format_nat n
format_int (negsuc n) = "-" ++ format_nat (suc n)
