-- ===== src/OrderedMap/Laws.antt =====
-- MarshalJSON of internal/utils/orderedkv.go, and the order in which its `range` goes.
use Prim.Native.String.{◌++◌}
use mathlib.Core.List.{Permᴰ}
use concrnt_playground.Prelude.{
  sym, ℕ, String, true, false, ◌≡◌, ◌≢◌, refl, ap, ◌⊎◌, inl, inr, List, [], ◌∷◌, map, ltb, Result,
  ok, ◌>>=◌, All, arith,
}
use concrnt_playground.Prelude.Int.{ℤ, pos, negsuc}
use concrnt_playground.OrderedMap.{
  int_ltb, OrderedKv, Pair, pair_of, less, write_pairs, marshal_json,
}
use concrnt_playground.OrderedMap.Insertion.{sort-reordered, IsApart, IsStrict}

int_ltb_trans : (x y z : ℤ) → int_ltb x y ≡ true → int_ltb y z ≡ true → int_ltb x z ≡ true
int_ltb_trans (pos x) (pos y) (pos z) h k = ground arith
int_ltb_trans (pos x) (pos y) (negsuc z) h k = absurd cc
int_ltb_trans (pos x) (negsuc y) z h k = absurd cc
int_ltb_trans (negsuc x) (pos y) (pos z) h k = refl
int_ltb_trans (negsuc x) (pos y) (negsuc z) h k = absurd cc
int_ltb_trans (negsuc x) (negsuc y) (pos z) h k = refl
int_ltb_trans (negsuc x) (negsuc y) (negsuc z) h k = ground arith

ltb_apart :
    (x y : ℕ)
    → x ≢ y
    → ((ltb x y ≡ true) × (ltb y x ≡ false)) ⊎ ((ltb y x ≡ true) × (ltb x y ≡ false))
ltb_apart x y h = ground arith

int_ltb_apart :
    (x y : ℤ)
    → x ≢ y
    → ((int_ltb x y ≡ true) × (int_ltb y x ≡ false))
      ⊎ ((int_ltb y x ≡ true) × (int_ltb x y ≡ false))
int_ltb_apart (pos x) (pos y) h = ltb_apart x y (λ e. h (ap pos e))
int_ltb_apart (pos x) (negsuc y) h = inr (refl, refl)
int_ltb_apart (negsuc x) (pos y) h = inl (refl, refl)
int_ltb_apart (negsuc x) (negsuc y) h = ltb_apart y x (λ e. h (ap negsuc (sym e)))

module _ {A : Type 0} where
  less_trans : (p q r : Pair A) → less p q ≡ true → less q r ≡ true → less p r ≡ true
  less_trans p q r = int_ltb_trans p.order q.order r.order

  -- No two entries have the same order.
  abbrev pub HasOrders : List (String × OrderedKv A) → Type 0
  HasOrders [] = Unit
  HasOrders (e ∷ es) = All (λ f. e.1.order ≢ f.1.order) es × HasOrders es

  apart :
      (e : String × OrderedKv A) (es : List (String × OrderedKv A))
      → All (λ f. e.1.order ≢ f.1.order) es
      → All (IsApart less less_trans (pair_of e)) (map pair_of es)
  apart e [] h = tt
  apart e (f ∷ es) (h, k) = (int_ltb_apart e.1.order f.1.order h, apart e es k)

  strict :
      (es : List (String × OrderedKv A)) → HasOrders es → IsStrict less less_trans (map pair_of es)
  strict [] h = tt
  strict (e ∷ es) (h, k) = (apart e es h, strict es k)

  pairs :
      {xs ys : List (String × OrderedKv A)} → Permᴰ xs ys → Permᴰ (map pair_of xs) (map pair_of ys)
  pairs Permᴰ.nil = Permᴰ.nil
  pairs (Permᴰ.cons e d) = Permᴰ.cons (ap pair_of e) (pairs d)
  pairs (Permᴰ.swap e1 e2) = Permᴰ.swap (ap pair_of e1) (ap pair_of e2)
  pairs (Permᴰ.trans d1 d2) = Permᴰ.trans (pairs d1) (pairs d2)

  -- Where no two entries have the same order, MarshalJSON gives the same JSON, or the same error,
  -- in whatever order `range` comes by the entries.
  pub marshal_json-reordered :
      (key_json : String → Result String) (value_json : A → Result String)
      {xs ys : List (String × OrderedKv A)}
      → Permᴰ xs ys
      → HasOrders xs
      → marshal_json key_json value_json xs ≡ marshal_json key_json value_json ys
  unfolding marshal_json
  marshal_json-reordered key_json value_json {xs} {ys} d h =
      ap (λ ps. write_pairs key_json value_json "{" "" ps >>= λ buf. ok (buf ++ "}"))
        (sort-reordered less less_trans (pairs d) (strict xs h))
