-- ===== src/OrderedMap.antt =====
-- internal/utils/orderedkv.go: the JSON of a map whose entries carry their order.
use Prim.Native.String.{◌++◌}
use concrnt_playground.Prelude.{
  String, Bool, true, false, List, [], ◌∷◌, map, ltb, if◌then◌else◌, Result, ok, err, panic, lost,
  ◌>>=◌,
}
use concrnt_playground.Prelude.Int.{ℤ, pos, negsuc}
pub mod Insertion
pub mod Laws
mod Tests
use concrnt_playground.OrderedMap.Insertion.{sort}

-- `<` on int64
abbrev pub int_ltb : ℤ → ℤ → Bool
int_ltb (pos m) (pos n) = ltb m n
int_ltb (pos m) (negsuc n) = false
int_ltb (negsuc m) (pos n) = true
int_ltb (negsuc m) (negsuc n) = ltb n m

module _ (A : Type 0) where
  -- OrderedKV
  pub record OrderedKv : Type 0 where
    pub value : A
    pub order : ℤ

  -- The type `pair` of MarshalJSON
  pub record Pair : Type 0 where
    pub key : String
    pub value : A
    pub order : ℤ

module _ {A : Type 0} where
  -- One turn of `for k, v := range om`
  abbrev pub pair_of : String × OrderedKv A → Pair A
  pair_of (k, v) = record { key = k; value = v.value; order = v.order }

  -- The comparison that sort.Slice is given
  abbrev pub less : Pair A → Pair A → Bool
  less p q = int_ltb p.order q.order

  -- The loop that fills the buffer; `separator` is the comma, from the second turn on. What
  -- json.Marshal makes of a key and of a value is a parameter.
  unfoldable pub write_pairs :
      (String → Result String)
      → (A → Result String)
      → String
      → String
      → List (Pair A)
      → Result String
  write_pairs key_json value_json buf separator [] = ok buf
  write_pairs key_json value_json buf separator (p ∷ ps) = do
    key_bytes ← key_json p.key
    value_bytes ← value_json p.value
    write_pairs key_json value_json (buf ++ (separator ++ (key_bytes ++ (":" ++ value_bytes)))) ","
        ps

  -- OrderedKVMap.MarshalJSON, of the entries in the order in which `range` comes by them
  unfoldable pub marshal_json :
      (String → Result String) → (A → Result String) → List (String × OrderedKv A) → Result String
  unfolding sort write_pairs
  marshal_json key_json value_json om = do
    buf ← write_pairs key_json value_json "{" "" (sort less (map pair_of om))
    ok (buf ++ "}")
