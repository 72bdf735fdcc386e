-- ===== src/Store/Sorting.antt =====
-- ORDER BY and LIMIT: a sort by insertion, what stands in a list, and a page of it. Rows of equal
-- rank come in the order of the table, one of those that the database may choose.
use concrnt_playground.Prelude.{
  ℕ, zero, suc, ◌≡◌, refl, sym, subst, ◌⊎◌, inl, inr, Bool, true, false, List, [], ◌∷◌, arith,
  if◌then◌else◌, Bool-cases, leb, All, length, take, ◌≤◌,
}
use concrnt_playground.Prelude.Int.{ℤ, pos, negsuc}
use concrnt_playground.Store.{select}

module _ {A : Type 0} where
  abbrev pub IsIn : A → List A → Type 0
  IsIn x [] = ⊥
  IsIn x (y ∷ ys) = (x ≡ y) ⊎ IsIn x ys

  pub IsIn-if :
      (b : Bool) (x : A) (xs ys : List A)
      → (b ≡ true → IsIn x xs)
      → (b ≡ false → IsIn x ys)
      → IsIn x (if b then xs else ys)
  IsIn-if true x xs ys h k = h refl
  IsIn-if false x xs ys h k = k refl

  -- What WHERE keeps is what passes the test.
  pub IsIn-select :
      (p : A → Bool) (x : A) (xs : List A) → IsIn x xs → p x ≡ true → IsIn x (select p xs)
  unfolding select
  IsIn-select p x [] i h = elim i [ ]
  IsIn-select p x (y ∷ ys) (inl e) h = IsIn-if (p y) x _ _ (λ t. inl e) (λ f. absurd cc)
  IsIn-select p x (y ∷ ys) (inr i) h =
      let j = IsIn-select p x ys i h in IsIn-if (p y) x _ _ (λ t. inr j) (λ f. j)

  kept_or_passed :
      (b : Bool) (x y : A) (xs : List A)
      → IsIn x (if b then y ∷ xs else xs)
      → ((x ≡ y) × (b ≡ true)) ⊎ IsIn x xs
  kept_or_passed true x y xs (inl e) = inl (e, refl)
  kept_or_passed true x y xs (inr i) = inr i
  kept_or_passed false x y xs i = inr i

  pub select-IsIn :
      (p : A → Bool) (x : A) (xs : List A) → IsIn x (select p xs) → IsIn x xs × (p x ≡ true)
  unfolding select
  select-IsIn p x [] i = elim i [ ]
  select-IsIn p x (y ∷ ys) i = elim (kept_or_passed (p y) x y _ i) [
    | inl (e, t) ↦ (inl e, cc)
    | inr j ↦ let (k, h) = select-IsIn p x ys j in (inr k, h)
  ]

  pub All-IsIn : (P : A → Type 0) (x : A) (xs : List A) → All P xs → IsIn x xs → P x
  All-IsIn P x [] h i = elim i [ ]
  All-IsIn P x (y ∷ ys) (p, h) (inl e) = subst P (sym e) p
  All-IsIn P x (y ∷ ys) (p, h) (inr i) = All-IsIn P x ys h i

  pub All-of : (P : A → Type 0) (xs : List A) → ((x : A) → IsIn x xs → P x) → All P xs
  All-of P [] h = tt
  All-of P (x ∷ xs) h = (h x (inl refl), All-of P xs (λ y i. h y (inr i)))

  pub take-IsIn : (n : ℕ) (x : A) (xs : List A) → IsIn x (take n xs) → IsIn x xs
  take-IsIn zero x xs i = elim i [ ]
  take-IsIn (suc n) x [] i = elim i [ ]
  take-IsIn (suc n) x (y ∷ ys) (inl e) = inl e
  take-IsIn (suc n) x (y ∷ ys) (inr i) = inr (take-IsIn n x ys i)

  pub length-take : (n : ℕ) (xs : List A) → length (take n xs) ≤ n
  length-take zero xs = omega arith
  length-take (suc n) [] = omega arith
  length-take (suc n) (x ∷ xs) = omega (arith, length-take n xs)

-- `ASC` and `DESC` by a number
module _ {A : Type 0} (desc : Bool) (rank : A → ℕ) where
  abbrev pub comes : A → A → Bool
  comes x y = if desc then leb (rank y) (rank x) else leb (rank x) (rank y)

  unfoldable pub sort_in : A → List A → List A
  sort_in x [] = x ∷ []
  sort_in x (y ∷ ys) = let rest = sort_in x ys in if comes x y then x ∷ y ∷ ys else y ∷ rest

  unfoldable pub sort : List A → List A
  unfolding sort_in
  sort [] = []
  sort (x ∷ xs) = sort_in x (sort xs)

  abbrev pub IsOrdered : List A → Type 0
  IsOrdered [] = Unit
  IsOrdered (x ∷ xs) = All (λ y. comes x y ≡ true) xs × IsOrdered xs

  comes_trans : (x y z : A) → comes x y ≡ true → comes y z ≡ true → comes x z ≡ true
  comes_trans x y z h k = ground arith

  comes_total : (x y : A) → comes x y ≡ false → comes y x ≡ true
  comes_total x y h = ground arith

  sort_in-IsIn : (x y : A) (ys : List A) → IsIn x (sort_in y ys) → IsIn x (y ∷ ys)
  unfolding sort_in
  sort_in-IsIn x y [] i = i
  sort_in-IsIn x y (z ∷ ys) i = elim (Bool-cases (comes y z)) [
    | inl t ↦ subst (λ b. IsIn x (if b then y ∷ z ∷ ys else z ∷ sort_in y ys)) t i
    | inr f ↦
        swapped (sort_in-IsIn x y ys)
          (subst (λ b. IsIn x (if b then y ∷ z ∷ ys else z ∷ sort_in y ys)) f i)
  ]
    where
      swapped :
          (IsIn x (sort_in y ys) → IsIn x (y ∷ ys))
          → (x ≡ z) ⊎ IsIn x (sort_in y ys)
          → IsIn x (y ∷ z ∷ ys)
      swapped h (inl e) = inr (inl e)
      swapped h (inr j) = elim (h j) [ inl e ↦ inl e | inr k ↦ inr (inr k) ]

  IsIn-sort_in : (x y : A) (ys : List A) → IsIn x (y ∷ ys) → IsIn x (sort_in y ys)
  unfolding sort_in
  IsIn-sort_in x y [] i = i
  IsIn-sort_in x y (z ∷ ys) i =
      IsIn-if (comes y z) x _ _ (λ t. i) (λ f. swapped (λ j. IsIn-sort_in x y ys j) i)
    where
      swapped :
          (IsIn x (y ∷ ys) → IsIn x (sort_in y ys))
          → IsIn x (y ∷ z ∷ ys)
          → IsIn x (z ∷ sort_in y ys)
      swapped h (inl e) = inr (h (inl e))
      swapped h (inr (inl e)) = inl e
      swapped h (inr (inr j)) = inr (h (inr j))

  pub sort-IsIn : (x : A) (xs : List A) → IsIn x (sort xs) → IsIn x xs
  unfolding sort
  sort-IsIn x [] i = i
  sort-IsIn x (y ∷ ys) i = elim (sort_in-IsIn x y (sort ys) i) [
    | inl e ↦ inl e
    | inr j ↦ inr (sort-IsIn x ys j)
  ]

  pub IsIn-sort : (x : A) (xs : List A) → IsIn x xs → IsIn x (sort xs)
  unfolding sort
  IsIn-sort x [] i = i
  IsIn-sort x (y ∷ ys) (inl e) = IsIn-sort_in x y (sort ys) (inl e)
  IsIn-sort x (y ∷ ys) (inr i) = IsIn-sort_in x y (sort ys) (inr (IsIn-sort x ys i))

  sort_in-IsOrdered : (x : A) (ys : List A) → IsOrdered ys → IsOrdered (sort_in x ys)
  unfolding sort_in
  sort_in-IsOrdered x [] o = (tt, tt)
  sort_in-IsOrdered x (y ∷ ys) (h, o) = elim (Bool-cases (comes x y)) [
    | inl t ↦
        subst (λ b. IsOrdered (if b then x ∷ y ∷ ys else y ∷ sort_in x ys)) (sym t)
          ((t, All-of _ ys (λ z i. comes_trans x y z t (All-IsIn _ z ys h i))), (h, o))
    | inr f ↦
        subst (λ b. IsOrdered (if b then x ∷ y ∷ ys else y ∷ sort_in x ys)) (sym f)
          (
            All-of _ (sort_in x ys) (λ z i. after (comes_total x y f) z (sort_in-IsIn z x ys i)),
            sort_in-IsOrdered x ys o,
          )
  ]
    where
      after : comes y x ≡ true → (z : A) → (z ≡ x) ⊎ IsIn z ys → comes y z ≡ true
      after c z (inl e) = subst (λ w. comes y w ≡ true) (sym e) c
      after c z (inr i) = All-IsIn _ z ys h i

  pub sort-IsOrdered : (xs : List A) → IsOrdered (sort xs)
  unfolding sort
  sort-IsOrdered [] = tt
  sort-IsOrdered (x ∷ xs) = sort_in-IsOrdered x (sort xs) (sort-IsOrdered xs)

  take-IsOrdered : (n : ℕ) (xs : List A) → IsOrdered xs → IsOrdered (take n xs)
  take-IsOrdered zero xs o = tt
  take-IsOrdered (suc n) [] o = tt
  take-IsOrdered (suc n) (x ∷ xs) (h, o) =
      (All-of _ (take n xs) (λ z i. All-IsIn _ z xs h (take-IsIn n z xs i)), take-IsOrdered n xs o)

  left_out :
      (n : ℕ) (x : A) (xs : List A)
      → IsOrdered xs
      → IsIn x xs
      → IsIn x (take n xs) ⊎ All (λ y. comes y x ≡ true) (take n xs)
  left_out zero x xs o i = inr tt
  left_out (suc n) x [] o i = elim i [ ]
  left_out (suc n) x (y ∷ ys) o (inl e) = inl (inl e)
  left_out (suc n) x (y ∷ ys) (h, o) (inr i) = elim (left_out n x ys o i) [
    | inl j ↦ inl (inr j)
    | inr k ↦ inr (All-IsIn _ x ys h i, k)
  ]

  -- GORM writes no LIMIT for a negative number.
  unfoldable pub limit_rows : ℤ → List A → List A
  limit_rows (pos n) xs = take n xs
  limit_rows (negsuc n) xs = xs

  unfoldable pub page : ℤ → List A → List A
  unfolding sort limit_rows
  page limit xs = limit_rows limit (sort xs)

  pub page-IsIn : (limit : ℤ) (x : A) (xs : List A) → IsIn x (page limit xs) → IsIn x xs
  unfolding page limit_rows
  page-IsIn (pos n) x xs i = sort-IsIn x xs (take-IsIn n x _ i)
  page-IsIn (negsuc n) x xs i = sort-IsIn x xs i

  pub page-IsOrdered : (limit : ℤ) (xs : List A) → IsOrdered (page limit xs)
  unfolding page limit_rows
  page-IsOrdered (pos n) xs = take-IsOrdered n _ (sort-IsOrdered xs)
  page-IsOrdered (negsuc n) xs = sort-IsOrdered xs

  -- A row that a page leaves out comes after all that it holds.
  pub page_left_out :
      (limit : ℤ) (x : A) (xs : List A)
      → IsIn x xs
      → IsIn x (page limit xs) ⊎ All (λ y. comes y x ≡ true) (page limit xs)
  unfolding page limit_rows
  page_left_out (pos n) x xs i = left_out n x _ (sort-IsOrdered xs) (IsIn-sort x xs i)
  page_left_out (negsuc n) x xs i = inl (IsIn-sort x xs i)

  pub length-page : (limit : ℤ) (n : ℕ) (xs : List A) → limit ≡ pos n → length (page limit xs) ≤ n
  unfolding page limit_rows
  length-page (pos m) n xs e = ground (arith, same, length-take m (sort xs))
    where
      same : m ≡ n
      same = cc
  length-page (negsuc m) n xs e = cc

  pub IsIn-page : (n : ℕ) (x : A) (xs : List A) → IsIn x xs → IsIn x (page (negsuc n) xs)
  unfolding page limit_rows
  IsIn-page n x xs i = IsIn-sort x xs i
