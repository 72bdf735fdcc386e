-- ===== src/Store/Pages.antt =====
-- A page as ORDER BY and LIMIT give it, with what the limit leaves out.
use mathlib.Core.List.{Permᴰ}
use mathlib.Core.List.Permᴰ
use concrnt_playground.Prelude.{
  ℕ, zero, suc, ◌≡◌, refl, sym, subst, ap, ◌⊎◌, inl, inr, Bool, true, false, List, [], ◌∷◌, ◌++◌,
  if◌then◌else◌, All, length, take, ◌≤◌,
}
use concrnt_playground.Prelude.Int.{ℤ, pos, negsuc}
use concrnt_playground.Store.Sorting.{
  sort, sort_in, comes, page, limit_rows, IsOrdered, sort-IsOrdered, page-IsOrdered, length-page,
}

module _ {A : Type 0} where
  abbrev pub drop : ℕ → List A → List A
  drop zero xs = xs
  drop (suc n) [] = []
  drop (suc n) (x ∷ xs) = drop n xs

  append-nil : (xs : List A) → xs ++ [] ≡ xs
  append-nil [] = refl
  append-nil (x ∷ xs) = ap (λ ys. x ∷ ys) (append-nil xs)

  take-drop : (n : ℕ) (xs : List A) → take n xs ++ drop n xs ≡ xs
  take-drop zero xs = refl
  take-drop (suc n) [] = refl
  take-drop (suc n) (x ∷ xs) = ap (λ ys. x ∷ ys) (take-drop n xs)

  All-drop : (P : A → Type 0) (n : ℕ) (xs : List A) → All P xs → All P (drop n xs)
  All-drop P zero xs h = h
  All-drop P (suc n) [] h = tt
  All-drop P (suc n) (x ∷ xs) (p, h) = All-drop P n xs h

  All-nothing : (P : A → A → Type 0) (xs : List A) → All (λ x. All (P x) []) xs
  All-nothing P [] = tt
  All-nothing P (x ∷ xs) = (tt, All-nothing P xs)

  take-full : (n : ℕ) (xs : List A) → (drop n xs ≡ []) ⊎ (length (take n xs) ≡ n)
  take-full zero xs = inr refl
  take-full (suc n) [] = inl refl
  take-full (suc n) (x ∷ xs) = elim (take-full n xs) [ inl e ↦ inl e | inr e ↦ inr (ap suc e) ]

module _ {A : Type 0} (desc : Bool) (rank : A → ℕ) where
  sort_in-Perm : (x : A) (ys : List A) → Permᴰ (x ∷ ys) (sort_in desc rank x ys)
  unfolding sort_in
  sort_in-Perm x [] = Permᴰ.refl (x ∷ [])
  sort_in-Perm x (y ∷ ys) = chosen (comes desc rank x y) (sort_in-Perm x ys)
    where
      chosen :
          (b : Bool)
          → Permᴰ (x ∷ ys) (sort_in desc rank x ys)
          → Permᴰ (x ∷ y ∷ ys) (if b then x ∷ y ∷ ys else y ∷ sort_in desc rank x ys)
      chosen true d = Permᴰ.refl (x ∷ y ∷ ys)
      chosen false d = Permᴰ.trans (Permᴰ.swap refl refl) (Permᴰ.cons refl d)

  sort-Perm : (xs : List A) → Permᴰ xs (sort desc rank xs)
  unfolding sort
  sort-Perm [] = Permᴰ.nil
  sort-Perm (x ∷ xs) =
      Permᴰ.trans (Permᴰ.cons refl (sort-Perm xs)) (sort_in-Perm x (sort desc rank xs))

  rest_later :
      (n : ℕ) (xs : List A)
      → IsOrdered desc rank xs
      → All (λ x. All (λ y. comes desc rank x y ≡ true) (drop n xs)) (take n xs)
  rest_later zero xs o = tt
  rest_later (suc n) [] o = tt
  rest_later (suc n) (x ∷ xs) (h, o) = (All-drop _ n xs h, rest_later n xs o)

  -- A page of some rows: together with the rest it is all of them, it is in order, nothing of the
  -- rest belongs before one of its rows, and something is left out only where the limit is reached.
  pub record IsPage (limit : ℤ) (all rows rest : List A) : Type 0 where
    pub whole : Permᴰ all (rows ++ rest)
    pub ordered : IsOrdered desc rank rows
    pub later : All (λ x. All (λ y. comes desc rank x y ≡ true) rest) rows
    pub bounded : (n : ℕ) → limit ≡ pos n → length rows ≤ n
    pub full : (n : ℕ) → limit ≡ pos n → (rest ≡ []) ⊎ (length rows ≡ n)
    pub unlimited : (n : ℕ) → limit ≡ negsuc n → rest ≡ []

  abbrev pub left_out : ℤ → List A → List A
  left_out (pos n) xs = drop n (sort desc rank xs)
  left_out (negsuc n) xs = []

  pos_same : (n m : ℕ) → pos n ≡ pos m → n ≡ m
  pos_same n m e = cc

  pub page-IsPage :
      (limit : ℤ) (xs : List A) → IsPage limit xs (page desc rank limit xs) (left_out limit xs)
  unfolding page limit_rows
  page-IsPage (pos n) xs = record {
    whole = subst (Permᴰ xs) (sym (take-drop n (sort desc rank xs))) (sort-Perm xs);
    ordered = page-IsOrdered desc rank (pos n) xs;
    later = rest_later n (sort desc rank xs) (sort-IsOrdered desc rank xs);
    bounded = λ m e. length-page desc rank (pos n) m xs e;
    full = λ m e.
        subst (λ k. (drop n (sort desc rank xs) ≡ []) ⊎ (length (take n (sort desc rank xs)) ≡ k))
          (pos_same n m e) (take-full n (sort desc rank xs));
    unlimited = λ m e. absurd cc;
  }
  page-IsPage (negsuc n) xs = record {
    whole = subst (Permᴰ xs) (sym (append-nil (sort desc rank xs))) (sort-Perm xs);
    ordered = page-IsOrdered desc rank (negsuc n) xs;
    later = All-nothing (λ x y. comes desc rank x y ≡ true) (sort desc rank xs);
    bounded = λ m e. length-page desc rank (negsuc n) m xs e;
    full = λ m e. inl refl;
    unlimited = λ m e. refl;
  }
