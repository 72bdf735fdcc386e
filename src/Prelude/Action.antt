-- ===== src/Prelude/Action.antt =====
-- Calls that read and change a state `S`, whatever comes of them.
use mathlib.Core.Path.{◌≡◌, refl, ap}
use concrnt_playground.Prelude.Errors.{ok_injective, Result, ok, err, panic, lost, on_ok, annotate}
use Prim.Native.String.{String}

abbrev pub Action : Type 0 → Type 0 → Type 0
Action S A = S → Result A × S

infixl 5 ◌>>=◌ ◌>>◌
unfoldable pub ◌>>=◌ : {S A B : Type 0} → Action S A → (A → Action S B) → Action S B
◌>>=◌ m f s = on_ok (m s).0 f (m s).1

abbrev pub ◌>>◌ : {S A B : Type 0} → Action S A → Action S B → Action S B
m >> k = m >>= λ _. k

unfoldable pub pure : {S A : Type 0} → A → Action S A
pure a s = (ok a, s)

-- A step that does not touch the state.
unfoldable pub lift : {S A : Type 0} → Result A → Action S A
lift r s = (r, s)

-- `fmt.Errorf("…: %v", err)` around the error of a step
unfoldable pub annotated : {S A : Type 0} → String → Action S A → Action S A
annotated context m s = (annotate context (m s).0, (m s).1)

unfoldable pub get : {S A : Type 0} → (S → A) → Action S A
get f s = (ok (f s), s)

unfoldable pub modify : {S : Type 0} → (S → S) → Action S (Unit {0})
modify f s = (ok tt, f s)

abbrev pub caught : {A : Type 0} → Result A → Result (Result A)
caught (ok a) = ok (ok a)
caught (err e) = ok (err e)
caught panic = panic
caught lost = lost

-- A call whose error the caller looks at.
unfoldable pub attempt : {S A : Type 0} → Action S A → Action S (Result A)
attempt m s = (caught (m s).0, (m s).1)

-- A chain that ended well had each of its steps end well.
pub bind-ok :
    {S A B : Type 0} (m : Action S A) (f : A → Action S B) (s t : S) (b : B)
    → (m >>= f) s ≡ (ok b, t)
    → (a : A) × (u : S) × (m s ≡ (ok a, u)) × (f a u ≡ (ok b, t))
unfolding ◌>>=◌
bind-ok {S} {A} {B} m f s t b e = of_pair (m s).0 (m s).1 refl refl e
  where
    of_pair :
        (r : Result A) (u : S)
        → (m s).0 ≡ r
        → (m s).1 ≡ u
        → on_ok r f u ≡ (ok b, t)
        → (a : A) × (u : S) × (m s ≡ (ok a, u)) × (f a u ≡ (ok b, t))
    of_pair (ok a) u g h e = (a, u, cc, e)
    of_pair (err x) u g h e = absurd cc
    of_pair panic u g h e = absurd cc
    of_pair lost u g h e = absurd cc

pub bind-lost :
    {S A B : Type 0} (m : Action S A) (f : A → Action S B) (s : S)
    → m s ≡ (lost, s)
    → (m >>= f) s ≡ (lost, s)
unfolding ◌>>=◌
bind-lost m f s e = ap (λ p. on_ok p.0 f p.1) e

pub annotated-lost :
    {S A : Type 0} (context : String) (m : Action S A) (s : S)
    → m s ≡ (lost, s)
    → annotated context m s ≡ (lost, s)
unfolding annotated
annotated-lost context m s e = ap (λ p. (annotate context p.0, p.1)) e

pub ended :
    {S A : Type 0} (a b : A) (s t : S)
    → ◌≡◌ {A = Result A × S} (ok a, s) (ok b, t)
    → (a ≡ b) × (s ≡ t)
ended a b s t e = (ok_injective a b (ap (λ p. p.0) e), ap (λ p. p.1) e)

-- What holds from the start on, whatever comes of a step.
pub record Maintains {S : Type 0} (P : S → Type 0) {A : Type 0} (m : Action S A) : Type 0 where
  pub at : (s : S) → P s → P (m s).1

module _ {S : Type 0} {P : S → Type 0} where
  pub Maintains-bind :
      {A B : Type 0} (m : Action S A) (f : A → Action S B)
      → Maintains P m
      → ((a : A) → Maintains P (f a))
      → Maintains P (m >>= f)
  unfolding ◌>>=◌
  Maintains-bind {A} {B} m f hm hf = record { at = λ s h. goes_on (m s).0 (m s).1 (hm.at s h) }
    where
      goes_on : (r : Result A) (s : S) → P s → P (on_ok r f s).1
      goes_on (ok a) s h = (hf a).at s h
      goes_on (err e) s h = h
      goes_on panic s h = h
      goes_on lost s h = h

  pub Maintains-lift : {A : Type 0} (r : Result A) → Maintains P (lift r)
  unfolding lift
  Maintains-lift r = record { at = λ s h. h }

  pub Maintains-annotated :
      {A : Type 0} (context : String) (m : Action S A)
      → Maintains P m
      → Maintains P (annotated context m)
  unfolding annotated
  Maintains-annotated context m h = record { at = h.at }

-- Steps that come back: none overflows the stack or waits for ever.
pub record Halts {S : Type 0} {A : Type 0} (m : Action S A) : Type 0 where
  pub at : (s : S) → ¬ ((m s).0 ≡ lost)

module _ {S : Type 0} where
  pub Halts-bind :
      {A B : Type 0} (m : Action S A) (f : A → Action S B)
      → Halts m
      → ((a : A) → Halts (f a))
      → Halts (m >>= f)
  unfolding ◌>>=◌
  Halts-bind {A} {B} m f hm hf = record { at = λ s. goes_on (m s).0 (m s).1 (hm.at s) }
    where
      goes_on : (r : Result A) (s : S) → ¬ (r ≡ lost) → ¬ ((on_ok r f s).0 ≡ lost)
      goes_on (ok a) s h = (hf a).at s
      goes_on (err e) s h = λ k. cc k
      goes_on panic s h = λ k. cc k
      goes_on lost s h = λ k. h refl

  pub Halts-annotated :
      {A : Type 0} (context : String) (m : Action S A) → Halts m → Halts (annotated context m)
  unfolding annotated
  Halts-annotated {A} context m h = record { at = λ s. same (m s).0 (h.at s) }
    where
      same : (r : Result A) → ¬ (r ≡ lost) → ¬ (annotate context r ≡ lost)
      same (ok a) h k = cc k
      same (err e) h k = cc k
      same panic h k = cc k
      same lost h k = h refl

  pub Halts-lift : {A : Type 0} (r : Result A) → ¬ (r ≡ lost) → Halts {S = S} (lift r)
  unfolding lift
  Halts-lift r h = record { at = λ s. h }

  pub Halts-pure : {A : Type 0} (a : A) → Halts {S = S} (pure a)
  unfolding pure
  Halts-pure a = record { at = λ s k. cc k }

  pub Halts-get : {A : Type 0} (f : S → A) → Halts (get f)
  unfolding get
  Halts-get f = record { at = λ s k. cc k }

  pub Halts-modify : (f : S → S) → Halts (modify f)
  unfolding modify
  Halts-modify f = record { at = λ s k. cc k }
