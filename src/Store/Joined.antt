-- ===== src/Store/Joined.antt =====
-- `JOIN records r ON r.document_id = record_keys.record_id`, and how an instant is compared with
-- the microseconds that a column of the database keeps.
use concrnt_playground.Prelude.{
  arith, ◌≡◌, ◌≤◌, ℕ, String, ◌+◌, ◌*◌, ◌/◌, Bool, true, false, Option, none, some, List, [], ◌∷◌,
  leb,
}
use concrnt_playground.Prelude.Int.{ℤ, pos, negsuc}
use concrnt_playground.Cdid.Stamp.{Time}
use concrnt_playground.Store.{Db, Record, RecordKey, find_record}

-- A key with its record.
pub record Row : Type 0 where
  pub key : RecordKey
  pub rec : Record

abbrev pub record_of : Db → Option String → Option Record
unfolding find_record
record_of db none = none
record_of db (some id) = find_record id db

abbrev pub with_record : RecordKey → Option Record → List Row → List Row
with_record k none rows = rows
with_record k (some r) rows = record { key = k; rec = r } ∷ rows

unfoldable pub join_keys : Db → List RecordKey → List Row
unfolding find_record
join_keys db [] = []
join_keys db (k ∷ ks) = with_record k (record_of db k.record_id) (join_keys db ks)

abbrev pub joined : Db → List Row
joined db = join_keys db db.keys

-- A column of type `timestamp with time zone`, in microseconds.
abbrev pub micros : ℕ → ℕ
micros nanoseconds = nanoseconds / 1000

abbrev pub c_micros : Row → ℕ
c_micros row = micros row.rec.c_date

-- `r.c_date >= ?` and `r.c_date <= ?`; the column holds no instant before 1970.
abbrev pub since_of : ℤ → ℕ → ℕ → Bool
since_of (pos s) nanosecond c = leb (s * 1000000 + micros nanosecond) c
since_of (negsuc n) nanosecond c = true

abbrev pub is_since : Time → ℕ → Bool
is_since t c = since_of t.unix t.nanosecond c

abbrev pub until_of : ℤ → ℕ → ℕ → Bool
until_of (pos s) nanosecond c = leb c (s * 1000000 + micros nanosecond)
until_of (negsuc n) nanosecond c = false

abbrev pub is_until : Time → ℕ → Bool
is_until t c = until_of t.unix t.nanosecond c

pub until_mono :
    (s : ℤ) (nanosecond x y : ℕ)
    → x ≤ y
    → until_of s nanosecond y ≡ true
    → until_of s nanosecond x ≡ true
until_mono (pos s) nanosecond x y h k = ground arith
until_mono (negsuc n) nanosecond x y h k = k
