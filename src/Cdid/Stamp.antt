-- ===== src/Cdid/Stamp.antt =====
-- `SetTime` and `GetTime` of cdid/cdid.go: milliseconds in six bytes, the first one highest.
use concrnt_playground.Prelude.{ℕ, ◌+◌, ◌-◌, ◌*◌, ◌/◌, ◌%◌, ◌^◌, List, [], ◌∷◌}
use concrnt_playground.Prelude.Int.{ℤ, pos, negsuc}

-- time.Time by its `Unix()` and its `Nanosecond()`.
pub record Time : Type 0 where
  pub unix : ℤ
  pub nanosecond : ℕ

-- uint64(n) for an int64
abbrev pub u64 : ℤ → ℕ
u64 (pos n) = n % 2 ^ 64
u64 (negsuc n) = (2 ^ 64 - (n + 1)) % 2 ^ 64

unfoldable pub milliseconds : Time → ℕ
milliseconds t = ((u64 t.unix * 1000) % 2 ^ 64 + t.nanosecond / 1000000) % 2 ^ 64

unfoldable pub set_bytes : Time → List ℕ
unfolding milliseconds
set_bytes t =
    let m = milliseconds t in
    (m / 2 ^ 40) % 256
    ∷ (m / 2 ^ 32) % 256
    ∷ (m / 2 ^ 24) % 256
    ∷ (m / 2 ^ 16) % 256
    ∷ (m / 2 ^ 8) % 256
    ∷ m % 256
    ∷ []

-- The bytes as one number; `|` joins bits that do not overlap, so it is `+`.
abbrev pub number : List ℕ → ℕ
number (a ∷ b ∷ c ∷ d ∷ e ∷ f ∷ []) =
    a * 2 ^ 40 + b * 2 ^ 32 + c * 2 ^ 24 + d * 2 ^ 16 + e * 2 ^ 8 + f
number _ = 0

unfoldable pub get_bytes : List ℕ → Time
get_bytes bytes =
    let m = number bytes in record { unix = pos (m / 1000); nanosecond = (m % 1000) * 1000000 }
