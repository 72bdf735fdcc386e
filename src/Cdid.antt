-- ===== src/Cdid.antt =====
-- cdid/cdid.go: a content id is ten bytes of a hash and six of a time, printed in base 32. A byte
-- is a number below 256.
pub mod Base32
pub mod Stamp
pub mod Laws
mod Tests
use concrnt_playground.Prelude.{
  ℕ, ◌*◌, ◌+◌, String, Bool, ◌&&◌, ◌||◌, not, leb, ◌==◌, nat_eq, Result, ok, err, ◌>>=◌, List, [],
  ◌++◌, length, take, drop, replicate, if◌then◌else◌, Char, code,
}
use concrnt_playground.Cdid.Base32.{encode, decode}
use concrnt_playground.Cdid.Stamp.{Time, set_bytes, get_bytes}

-- cdid.CDID
pub record Cdid : Type 0 where
  pub bytes : List ℕ
  pub time : List ℕ

-- `New` with `SetTime`
unfoldable pub new : List ℕ → Time → Cdid
unfolding set_bytes
new hash t = record { bytes = hash; time = set_bytes t }

-- `SetData` and `SetTime`
unfoldable pub set_data : Cdid → List ℕ → Cdid
set_data c hash = record c { bytes = hash }

unfoldable pub set_time : Cdid → Time → Cdid
unfolding set_bytes
set_time c t = record c { time = set_bytes t }

unfoldable pub get_time : Cdid → Time
unfolding get_bytes
get_time c = get_bytes c.time

-- `Bytes` and `String`
unfoldable pub all_bytes : Cdid → List ℕ
all_bytes c = c.bytes ++ c.time

unfoldable pub string : Cdid → String
unfolding encode all_bytes
string c = encode (all_bytes c)

-- The zero value `CDID{}`
abbrev pub zero_cdid : Cdid
zero_cdid = record { bytes = replicate 10 0; time = replicate 6 0 }

-- The two copies of `Parse`, where the length is sixteen; otherwise it returns `CDID{}` and no error.
abbrev pub of_bytes : List ℕ → Cdid
of_bytes b = if length b == 16 then record { bytes = take 10 b; time = drop 10 b } else zero_cdid

unfoldable pub parse : String → Result Cdid
unfolding decode
parse s = decode s >>= λ b. ok (of_bytes b)

unfoldable pub is_cdid_char : ℕ → Bool
is_cdid_char c =
    (leb b'0' c && leb c b'9' || leb b'a' c && leb c b'z')
    && not (c == b'i')
    && not (c == b'l')
    && not (c == b'o')
    && not (c == b'u')
