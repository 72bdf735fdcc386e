-- ===== src/Cdid/Tests.antt =====
-- Concrete ids, and the theorems on ids at them.
use Prim.Native.String.{count}
use concrnt_playground.Prelude.{ℕ, ◌≤◌, ◌≡◌, ◌↔◌, refl, true, List, [], ◌∷◌, some, ok, arith}
use concrnt_playground.Cdid.Base32.{digit, index, decode}
use concrnt_playground.Cdid.Stamp.{set_bytes, number}
use concrnt_playground.Cdid.{Cdid, string, parse, new, set_time, get_time, zero_cdid, is_cdid_char}
use concrnt_playground.Cdid.Laws.Coding.{
  IsValid, parse-string, count-string, string_injective, is_cdid_char_iff, parse_wrong_length,
}
use concrnt_playground.Cdid.Laws.Times.{date, get_time-set_time, set_bytes_mono, new-IsValid}

abbrev hash : List ℕ
hash = 222 ∷ 173 ∷ 190 ∷ 239 ∷ 0 ∷ 1 ∷ 2 ∷ 3 ∷ 4 ∷ 255 ∷ []

abbrev id : Cdid
id = record { bytes = hash; time = 1 ∷ 2 ∷ 3 ∷ 4 ∷ 5 ∷ 250 ∷ [] }

id-IsValid : IsValid id
id-IsValid = record { ten = refl; six = refl; data_bytes = omega arith; time_bytes = omega arith }

string_test : string id ≡ "vtpvxvr00410617z04106105z8"
unfolding string digit
string_test = refl

parse-string_example : parse (string id) ≡ ok id
parse-string_example = parse-string id id-IsValid

count-string_test : count (string id) ≡ 26
count-string_test = count-string id id-IsValid

string_injective_test : id ≡ id
string_injective_test = string_injective id id id-IsValid id-IsValid refl

is_cdid_char_iff_test : (is_cdid_char b'z' ≡ true) ↔ ((d : ℕ) × (index b'z' ≡ some d))
is_cdid_char_iff_test = is_cdid_char_iff b'z' (omega arith)

parse_wrong_length_test : parse "00" ≡ ok zero_cdid
unfolding decode
parse_wrong_length_test = parse_wrong_length "00" (0 ∷ []) refl (omega arith)

get_time-set_time_example :
    (get_time (set_time id (date 1700000000 123456789)) ≡ date 1700000000 123000000)
    × ((set_time id (date 1700000000 123456789)).bytes ≡ hash)
get_time-set_time_example =
    get_time-set_time id 1700000000 123456789 (record { within = omega arith; fits = omega arith })

set_bytes_mono_test :
    number (set_bytes (date 1700000000 0)) ≤ number (set_bytes (date 1700000001 0))
set_bytes_mono_test =
    set_bytes_mono 1700000000 0 1700000001 0 (record { within = omega arith; fits = omega arith })
      (record { within = omega arith; fits = omega arith }) (omega arith)

new-IsValid_test : IsValid (new hash (date 5 0))
new-IsValid_test = new-IsValid hash (date 5 0) refl (omega arith)
