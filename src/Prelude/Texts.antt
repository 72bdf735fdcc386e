-- ===== src/Prelude/Texts.antt =====
-- Texts as Go's strings: `strings.Split` and `strings.Join` at one character.
use Prim.Native.Char.{Char, code}
use Prim.Native.String.{String, [], ◌∷◌, ◌++◌}
use mathlib.Core.Path.{◌≡◌, refl}
use mathlib.Core.Logic.{◌≢◌}
use mathlib.Core.List.{List}
use native.Mathlib.Omega.{arith}
use text.Mathlib.TextLemmas.{nil-append, cons-append}
use concrnt_playground.Prelude.Tests.{◌==◌, nat_eq, if◌then◌else◌}
use concrnt_playground.Prelude.Lists.{All}

-- The first piece grows by one character.
push_head : Char → List String → List String
push_head d List.[] = List.◌∷◌ (d ∷ []) List.[]
push_head d (List.◌∷◌ s ss) = List.◌∷◌ (d ∷ s) ss

-- strings.Split(s, sep) for a separator of one character
unfoldable pub split : Char → String → List String
unfolding push_head
split c [] = List.◌∷◌ "" List.[]
split c (d ∷ s) =
    let pieces = split c s in if code d == code c then List.◌∷◌ "" pieces else push_head d pieces

unfoldable pub join : Char → List String → String
join c List.[] = ""
join c (List.◌∷◌ s List.[]) = s
join c (List.◌∷◌ s ss) = s ++ (c ∷ join c ss)

abbrev pub Lacks : Char → String → Type 0
Lacks c [] = Unit
Lacks c (d ∷ s) = (code d ≢ code c) × Lacks c s

split-Lacks : (c : Char) (s : String) → Lacks c s → split c s ≡ List.◌∷◌ s List.[]
unfolding split
split-Lacks c [] h = refl
split-Lacks c (d ∷ s) (p, h) = ground (arith, split-Lacks c s h)

split-append :
    (c : Char) (s t : String) → Lacks c s → split c (s ++ (c ∷ t)) ≡ List.◌∷◌ s (split c t)
unfolding split
split-append c [] t h = rw nil-append (ground arith)
split-append c (d ∷ s) t (p, h) = rw cons-append (ground (arith, split-append c s t h))

-- Splitting at a character undoes joining by it, for pieces that lack it.
pub split-join :
    (c : Char) (s : String) (ss : List String)
    → Lacks c s
    → All (Lacks c) ss
    → split c (join c (List.◌∷◌ s ss)) ≡ List.◌∷◌ s ss
unfolding join
split-join c s List.[] h hs = split-Lacks c s h
split-join c s (List.◌∷◌ t ts) h (k, hs) = rw (split-append c s _ h) (rw (split-join c t ts k hs))
