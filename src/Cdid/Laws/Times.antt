-- ===== src/Cdid/Laws/Times.antt =====
-- The time of an id.
use concrnt_playground.Prelude.{
  ℕ, ◌+◌, ◌*◌, ◌/◌, ◌%◌, ◌^◌, ◌<◌, ◌≤◌, ◌≡◌, refl, List, arith, All, length,
}
use concrnt_playground.Prelude.Int.{pos}
use concrnt_playground.Cdid.Stamp.{Time, milliseconds, set_bytes, get_bytes, number}
use concrnt_playground.Cdid.{Cdid, new, set_time, get_time}
use concrnt_playground.Cdid.Laws.Coding.{IsByte, IsValid}

number-set_bytes : (t : Time) → number (set_bytes t) ≡ milliseconds t % 2 ^ 48
unfolding set_bytes
number-set_bytes t = bytes_of (milliseconds t)
  where
    bytes_of :
        (m : ℕ)
        → (m / 2 ^ 40) % 256 * 2 ^ 40
            + (m / 2 ^ 32) % 256 * 2 ^ 32
            + (m / 2 ^ 24) % 256 * 2 ^ 24
            + (m / 2 ^ 16) % 256 * 2 ^ 16
            + (m / 2 ^ 8) % 256 * 2 ^ 8
            + m % 256
          ≡ m % 2 ^ 48
    bytes_of m = omega arith

-- A time from 1970 on, below 2 ^ 48 milliseconds.
pub record IsDate (s ns : ℕ) : Type 0 where
  pub within : ns < 1000000000
  pub fits : s * 1000 + ns / 1000000 < 2 ^ 48

abbrev pub date : ℕ → ℕ → Time
date s ns = record { unix = pos s; nanosecond = ns }

milliseconds-date : (s ns : ℕ) → IsDate s ns → milliseconds (date s ns) ≡ s * 1000 + ns / 1000000
unfolding milliseconds
milliseconds-date s ns h = omega (arith, h.within, h.fits)

number-date : (s ns : ℕ) → IsDate s ns → number (set_bytes (date s ns)) ≡ s * 1000 + ns / 1000000
number-date s ns h = omega (arith, number-set_bytes (date s ns), milliseconds-date s ns h, h.fits)

date-path : {s s' ns ns' : ℕ} → s ≡ s' → ns ≡ ns' → date s ns ≡ date s' ns'
date-path p q = λ i. date (p i) (q i)

get_bytes-number :
    (bytes : List ℕ) (s ns : ℕ)
    → IsDate s ns
    → number bytes ≡ s * 1000 + ns / 1000000
    → get_bytes bytes ≡ date s (ns / 1000000 * 1000000)
unfolding get_bytes
get_bytes-number bytes s ns h e =
    date-path (omega (arith, e, h.within)) (omega (arith, e, h.within))

-- For a time from 1970 on and below 2 ^ 48 milliseconds, the time read back from an id is the one
-- that was set, cut to the millisecond, and the data is untouched.
pub get_time-set_time :
    (c : Cdid) (s ns : ℕ)
    → IsDate s ns
    → (get_time (set_time c (date s ns)) ≡ date s (ns / 1000000 * 1000000))
      × ((set_time c (date s ns)).bytes ≡ c.bytes)
unfolding get_time set_time
get_time-set_time c s ns h =
    (get_bytes-number (set_bytes (date s ns)) s ns h (number-date s ns h), refl)

-- Of two times from 1970 on and below 2 ^ 48 milliseconds, the later one has the greater number in
-- its bytes, to the millisecond.
pub set_bytes_mono :
    (s ns s' ns' : ℕ)
    → IsDate s ns
    → IsDate s' ns'
    → s * 1000 + ns / 1000000 ≤ s' * 1000 + ns' / 1000000
    → number (set_bytes (date s ns)) ≤ number (set_bytes (date s' ns'))
set_bytes_mono s ns s' ns' h k le = omega (arith, number-date s ns h, number-date s' ns' k)

-- An id made of ten bytes and of any time is valid.
pub new-IsValid :
    (hash : List ℕ) (t : Time) → length hash ≡ 10 → All IsByte hash → IsValid (new hash t)
unfolding new set_bytes
new-IsValid hash t ten h = record {
  ten = ten;
  six = refl;
  data_bytes = h;
  time_bytes = omega arith;
}
