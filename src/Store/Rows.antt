-- ===== src/Store/Rows.antt =====
-- What a lookup finds after the writes of Store.
use concrnt_playground.Prelude.{
  ◌⊎◌, inr, inl, Bool, true, false, ◌≡◌, refl, none, some, List, [], ◌∷◌, ◌++◌, string_eq,
  if◌then◌else◌, arith, Bool-cases,
}
use concrnt_playground.Store.{
  insert_new, Db, Write, apply, apply_all, first, reject, exists, update_where,
}

module _ {A : Type 0} (p : A → Bool) where
  -- The row that a lookup finds satisfies its test.
  pub first-test : (xs : List A) (a : A) → first p xs ≡ some a → p a ≡ true
  unfolding first
  first-test [] a e = cc
  first-test (x ∷ xs) a e = ground (arith, first-test xs a)

  pub first-append : (xs : List A) (x a : A) → first p xs ≡ some a → first p (xs ++ x ∷ []) ≡ some a
  unfolding first
  first-append [] x a e = cc
  first-append (y ∷ xs) x a e = ground (arith, first-append xs x a)

  pub first-append_new :
      (xs : List A) (x : A) → exists p xs ≡ false → p x ≡ true → first p (xs ++ x ∷ []) ≡ some x
  unfolding first exists
  first-append_new [] x h t = ground arith
  first-append_new (y ∷ xs) x h t = ground (arith, first-append_new xs x)

  pub first-append_other : (xs : List A) (x : A) → p x ≡ false → first p (xs ++ x ∷ []) ≡ first p xs
  unfolding first
  first-append_other [] x h = ground arith
  first-append_other (y ∷ xs) x h = ground (arith, first-append_other xs x h)

  pub exists-first : (xs : List A) → exists p xs ≡ true → (a : A) × (first p xs ≡ some a)
  unfolding first exists
  exists-first [] h = absurd (cc)
  exists-first (y ∷ xs) h = elim (Bool-cases (p y)) [
    | inl e ↦ (y, ground arith)
    | inr e ↦ let (a, f) = exists-first xs (ground arith) in (a, ground arith)
  ]

  pub exists-none : (xs : List A) → first p xs ≡ none → exists p xs ≡ false
  unfolding first exists
  exists-none [] h = refl
  exists-none (y ∷ xs) h = ground (arith, exists-none xs)

  pub first-reject :
      (q : A → Bool) (xs : List A) (a : A)
      → first p xs ≡ some a
      → q a ≡ false
      → first p (reject q xs) ≡ some a
  unfolding first reject
  first-reject q [] a e h = cc
  first-reject q (x ∷ xs) a e h = ground (arith, first-reject q xs a)

  -- An update that keeps the test finds the same row, updated.
  pub first-update :
      (q : A → Bool) (f : A → A) (xs : List A)
      → ((x : A) → p (f x) ≡ p x)
      → (a : A) → first p (update_where q f xs) ≡ some a
      → (b : A) × (first p xs ≡ some b) × (a ≡ (if q b then f b else b))
  unfolding first update_where
  first-update q f [] h a e = absurd cc
  first-update q f (x ∷ xs) h a e = elim (Bool-cases (p x)) [
    | inl t ↦ (x, ground arith, ground (arith, h x))
    | inr t ↦ let (b, g, i) = first-update q f xs h a (ground (arith, h x)) in (b, ground arith, i)
  ]

  pub update-first :
      (q : A → Bool) (f : A → A) (xs : List A)
      → ((x : A) → p (f x) ≡ p x)
      → (a : A) → first p xs ≡ some a
      → first p (update_where q f xs) ≡ some (if q a then f a else a)
  unfolding first update_where
  update-first q f [] h a e = cc
  update-first q f (x ∷ xs) h a e = ground (arith, h x, update-first q f xs h a)

pub apply_all-append :
    (ws : List Write) (w : Write) (db : Db)
    → apply_all (ws ++ w ∷ []) db ≡ apply w (apply_all ws db)
unfolding apply_all
apply_all-append [] w db = refl
apply_all-append (v ∷ ws) w db = apply_all-append ws w (apply v db)

-- The row of an INSERT … ON CONFLICT DO NOTHING is there afterwards, or one that it clashed with.
pub first-insert_new :
    {A : Type 0} (p : A → Bool) (x : A) (xs : List A)
    → p x ≡ true
    → (a : A) × (first p (insert_new p x xs) ≡ some a)
first-insert_new p x xs t = elim (Bool-cases (exists p xs)) [
  | inl h ↦ let (a, f) = exists-first p xs h in (a, ground arith)
  | inr h ↦ (x, ground (arith, first-append_new p xs x h t))
]

first-one :
    {A : Type 0} (q : A → Bool) (xs : List A) (x a : A)
    → first q (xs ++ x ∷ []) ≡ some a
    → (first q xs ≡ some a) ⊎ (a ≡ x)
unfolding first
first-one q [] x a e = elim (Bool-cases (q x)) [
  | inl h ↦ inr (ground arith)
  | inr h ↦ inl (ground arith)
]
first-one q (y ∷ xs) x a e = elim (Bool-cases (q y)) [
  | inl h ↦ inl (ground arith)
  | inr h ↦ elim (first-one q xs x a (ground arith)) [ inl f ↦ inl (ground arith) | inr f ↦ inr f ]
]

pub insert_new-first :
    {A : Type 0} (p q : A → Bool) (x : A) (xs : List A) (a : A)
    → first q (insert_new p x xs) ≡ some a
    → (first q xs ≡ some a) ⊎ (a ≡ x)
insert_new-first p q x xs a e = elim (Bool-cases (exists p xs)) [
  | inl h ↦ inl (ground arith)
  | inr h ↦ first-one q xs x a (ground arith)
]
