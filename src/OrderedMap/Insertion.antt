-- ===== src/OrderedMap/Insertion.antt =====
-- sort.Slice of internal/utils/orderedkv.go, as a sort by insertion.
use mathlib.Core.List.{Permᴰ}
use concrnt_playground.Prelude.{
  All, Bool, true, false, ◌≡◌, refl, sym, subst, ap, ◌∙◌, ◌⊎◌, inl, inr, List, [], ◌∷◌,
  if◌then◌else◌, Bool-cases,
}

-- Every member of a list has the property, in whatever order they stand.
pub All-reordered :
    {A : Type 0} (P : A → Type 0) {xs ys : List A} → Permᴰ xs ys → All P xs → All P ys
All-reordered P Permᴰ.nil h = tt
All-reordered P (Permᴰ.cons e d) (h, k) = (subst P e h, All-reordered P d k)
All-reordered P (Permᴰ.swap e1 e2) (h, (k, l)) = (subst P e2 k, (subst P e1 h, l))
All-reordered P (Permᴰ.trans d1 d2) h = All-reordered P d2 (All-reordered P d1 h)

module _ {A : Type 0} (less : A → A → Bool) where
  unfoldable pub sort_in : A → List A → List A
  sort_in x [] = x ∷ []
  sort_in x (y ∷ ys) = let rest = sort_in x ys in if less x y then x ∷ y ∷ ys else y ∷ rest

  unfoldable pub sort : List A → List A
  unfolding sort_in
  sort [] = []
  sort (x ∷ xs) = sort_in x (sort xs)

  stops : (x y : A) (ys : List A) → less x y ≡ true → sort_in x (y ∷ ys) ≡ x ∷ y ∷ ys
  unfolding sort_in
  stops x y ys t = ap (λ b. if b then x ∷ y ∷ ys else y ∷ sort_in x ys) t

  passes : (x y : A) (ys : List A) → less x y ≡ false → sort_in x (y ∷ ys) ≡ y ∷ sort_in x ys
  unfolding sort_in
  passes x y ys f = ap (λ b. if b then x ∷ y ∷ ys else y ∷ sort_in x ys) f

  module _ (trans : (x y z : A) → less x y ≡ true → less y z ≡ true → less x z ≡ true) where
    commutes :
        (x y : A) (zs : List A)
        → less x y ≡ true
        → less y x ≡ false
        → sort_in x (sort_in y zs) ≡ sort_in y (sort_in x zs)
    unfolding sort_in
    commutes x y [] t f = stops x y [] t ∙ sym (passes y x [] f)
    commutes x y (z ∷ zs) t f = elim (Bool-cases (less x z)) [
      | inl xz ↦ elim (Bool-cases (less y z)) [
        | inl yz ↦
            cc (stops y z zs yz, stops x y (z ∷ zs) t, stops x z zs xz, passes y x (z ∷ zs) f)
        | inr yz ↦
            cc (
              passes y z zs yz,
              stops x z (sort_in y zs) xz,
              stops x z zs xz,
              passes y x (z ∷ zs) f,
            )
      ]
      | inr xz ↦ elim (Bool-cases (less y z)) [
        | inl yz ↦ absurd (cc (trans x y z t yz))
        | inr yz ↦ cc (
          passes y z zs yz,
          passes x z (sort_in y zs) xz,
          passes x z zs xz,
          passes y z (sort_in x zs) yz,
          commutes x y zs t f,
        )
      ]
    ]

    -- One of the two comes before the other.
    abbrev pub IsApart : A → A → Type 0
    IsApart x y =
        ((less x y ≡ true) × (less y x ≡ false)) ⊎ ((less y x ≡ true) × (less x y ≡ false))

    abbrev pub IsStrict : List A → Type 0
    IsStrict [] = Unit
    IsStrict (x ∷ xs) = All (IsApart x) xs × IsStrict xs

    flipped : (x y : A) → IsApart x y → IsApart y x
    flipped x y (inl h) = inr h
    flipped x y (inr h) = inl h

    exchanged :
        (x y : A) (zs : List A) → IsApart x y → sort_in x (sort_in y zs) ≡ sort_in y (sort_in x zs)
    exchanged x y zs (inl (t, f)) = commutes x y zs t f
    exchanged x y zs (inr (t, f)) = sym (commutes y x zs t f)

    IsStrict-reordered : {xs ys : List A} → Permᴰ xs ys → IsStrict xs → IsStrict ys
    IsStrict-reordered Permᴰ.nil h = tt
    IsStrict-reordered (Permᴰ.cons {b = b} {l₂ = ys} e d) (h, k) =
        (subst (λ x. All (IsApart x) ys) e (All-reordered _ d h), IsStrict-reordered d k)
    IsStrict-reordered (Permᴰ.swap {a = a} {b = b} {b' = b'} {l = zs} e1 e2) ((h, k), (l, m)) = (
      (
        subst (λ x. IsApart x b') e2 (subst (λ y. IsApart b y) e1 (flipped a b h)),
        subst (λ x. All (IsApart x) zs) e2 l,
      ),
      (subst (λ x. All (IsApart x) zs) e1 k, m),
    )
    IsStrict-reordered (Permᴰ.trans d1 d2) h = IsStrict-reordered d2 (IsStrict-reordered d1 h)

    pub sort-reordered : {xs ys : List A} → Permᴰ xs ys → IsStrict xs → sort xs ≡ sort ys
    unfolding sort
    sort-reordered Permᴰ.nil h = refl
    sort-reordered (Permᴰ.cons e d) (h, k) = cc (sort-reordered d k)
    sort-reordered (Permᴰ.swap {a = a} {b = b} {l = zs} e1 e2) ((h, k), l) =
        cc (exchanged a b (sort zs) h)
    sort-reordered (Permᴰ.trans d1 d2) h =
        sort-reordered d1 h ∙ sort-reordered d2 (IsStrict-reordered d1 h)
