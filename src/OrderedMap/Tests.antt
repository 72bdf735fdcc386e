-- ===== src/OrderedMap/Tests.antt =====
-- The counts of three variants, the earliest of them from before 1970.
use Prim.Native.String.{◌++◌}
use mathlib.Core.List.{Permᴰ}
use concrnt_playground.Prelude.{ℕ, zero, suc, String, ◌≡◌, refl, [], ◌∷◌, Result, ok}
use concrnt_playground.Prelude.Int.{pos, negsuc}
use concrnt_playground.OrderedMap.{OrderedKv, marshal_json}
use concrnt_playground.OrderedMap.Laws.{marshal_json-reordered}

abbrev quote : String → Result String
quote s = ok ("\"" ++ (s ++ "\""))

abbrev digit : ℕ → Result String
digit zero = ok "0"
digit (suc n) = ok "1"

abbrev smile : String × OrderedKv ℕ
smile = ("smile", record { value = 1; order = pos 20 })

abbrev heart : String × OrderedKv ℕ
heart = ("heart", record { value = 0; order = negsuc 4 })

abbrev star : String × OrderedKv ℕ
star = ("star", record { value = 1; order = pos 3 })

in_order :
    marshal_json quote digit (smile ∷ heart ∷ star ∷ []) ≡ ok "{\"heart\":0,\"star\":1,\"smile\":1}"
unfolding marshal_json
in_order = refl

marshal_json-reordered_example :
    marshal_json quote digit (smile ∷ heart ∷ star ∷ [])
    ≡ marshal_json quote digit (heart ∷ smile ∷ star ∷ [])
marshal_json-reordered_example =
    marshal_json-reordered quote digit (Permᴰ.swap refl refl)
      (((λ e. absurd cc), ((λ e. absurd cc), tt)), (((λ e. absurd cc), tt), (tt, tt)))
