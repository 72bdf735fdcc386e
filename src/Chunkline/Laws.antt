-- ===== src/Chunkline/Laws.antt =====
-- What a chunk's body and its iterator promise: the members of two chunks' time, the newest first.
use concrnt_playground.Chunkline.{
  put_itr, chunk_of, lookup_local_itrs, newest_first, prev_chunk_date, body_rows, in_window,
  ends_after, before_cutoff,
}
use concrnt_playground.Prelude.{
  inserted, ℕ, String, ◌≤◌, true, false, ◌≡◌, refl, sym, subst, ap, ◌⊎◌, inl, inr, Option, none,
  some, List, [], ◌∷◌, ◌==◌, nat_eq, string_eq, lookup, lookup-insert, All, Bool-cases, arith,
  if◌then◌else◌, eq_iff,
}
use concrnt_playground.Prelude.Int.{ℤ, pos, negsuc}
use concrnt_playground.Cdid.Stamp.{Time}
use concrnt_playground.Store.{Db, RecordKey, find_key, select}
use concrnt_playground.Store.Sorting.{
  IsIn, IsOrdered, comes, page, page-IsIn, page-IsOrdered, page_left_out, IsIn-page, select-IsIn,
  IsIn-select, All-IsIn,
}
use concrnt_playground.Store.Joined.{until_mono, Row, joined, c_micros, is_until}

-- The rows that a body lists for a parent and a chunk.
pub record IsBody (db : Db) (id : ℕ) (chunk : ℤ) (rows : List Row) : Type 0 where
  pub descending : IsOrdered true c_micros rows
  pub members :
      (row : Row) → IsIn row rows → IsIn row (joined db) × (before_cutoff id chunk row ≡ true)
  pub whole_window :
      (row : Row) → IsIn row (joined db) → in_window id chunk row ≡ true → IsIn row rows

-- Rows that are not all after an instant, in descending order, end with one that is not.
not_after :
    (t : Time) (rows : List Row) (x : ℕ)
    → ends_after t rows ≡ false
    → All (λ row. x ≤ c_micros row) rows
    → (row : Row) × (is_until t (c_micros row) ≡ true) × (x ≤ c_micros row)
not_after t [] x e h = absurd cc
not_after t (row ∷ []) x e (h, u) = (row, ground arith, h)
not_after t (row ∷ next ∷ rows) x e (h, k) = not_after t (next ∷ rows) x e k

module _ (db : Db) (id : ℕ) (chunk : ℤ) where
  abbrev newest : List Row
  newest = page true c_micros (pos 32) (select (before_cutoff id chunk) (joined db))

  abbrev window : List Row
  window = page true c_micros (negsuc 0) (select (in_window id chunk) (joined db))

  newest_members :
      (row : Row) → IsIn row newest → IsIn row (joined db) × (before_cutoff id chunk row ≡ true)
  newest_members row i =
      select-IsIn (before_cutoff id chunk) row (joined db)
        (page-IsIn true c_micros (pos 32) row _ i)

  window_members :
      (row : Row) → IsIn row window → IsIn row (joined db) × (before_cutoff id chunk row ≡ true)
  window_members row i =
      let (j, h) =
        select-IsIn (in_window id chunk) row (joined db)
          (page-IsIn true c_micros (negsuc 0) row _ i) in
      (j, ground arith)

  comes_le :
      (row : Row) (rows : List Row)
      → All (λ y. comes true c_micros y row ≡ true) rows
      → All (λ y. c_micros row ≤ c_micros y) rows
  comes_le row [] h = tt
  comes_le row (y ∷ rows) (h, k) = (ground arith, comes_le row rows k)

  window_excludes :
      (row : Row)
      → in_window id chunk row ≡ true
      → ¬ (is_until (prev_chunk_date chunk) (c_micros row) ≡ true)
  window_excludes row h k = ground arith

  newest_window :
      ends_after (prev_chunk_date chunk) newest ≡ false
      → (row : Row) → IsIn row (joined db)
      → in_window id chunk row ≡ true
      → IsIn row newest
  newest_window e row i h =
      elim (page_left_out true c_micros (pos 32) row _
        (IsIn-select (before_cutoff id chunk) row (joined db) i (ground arith))) [
          | inl j ↦ j
          | inr k ↦
              let (last, u, l) =
                not_after (prev_chunk_date chunk) newest (c_micros row) e (comes_le row newest k) in
              absurd (window_excludes row h (until_mono _ _ (c_micros row) (c_micros last) l u))
        ]

  pub body_rows-IsBody : IsBody db id chunk (body_rows db id chunk)
  unfolding body_rows
  body_rows-IsBody = elim (Bool-cases (ends_after (prev_chunk_date chunk) newest)) [
    | inl t ↦
        subst (λ b. IsBody db id chunk (if b then window else newest)) (sym t)
          (record {
            descending =
                page-IsOrdered true c_micros (negsuc 0) (select (in_window id chunk) (joined db));
            members = window_members;
            whole_window = λ row i h.
                IsIn-page true c_micros 0 row _
                  (IsIn-select (in_window id chunk) row (joined db) i h);
          })
    | inr f ↦
        subst (λ b. IsBody db id chunk (if b then window else newest)) (sym f)
          (record {
            descending =
                page-IsOrdered true c_micros (pos 32) (select (before_cutoff id chunk) (joined db));
            members = newest_members;
            whole_window = newest_window f;
          })
  ]

-- The newest member of a URI up to the end of a chunk.
pub record IsNewest (db : Db) (uri : String) (chunk : ℤ) (row : Row) : Type 0 where
  pub parent : RecordKey
  pub found : find_key uri db ≡ some parent
  pub member : IsIn row (joined db)
  pub before : before_cutoff parent.id chunk row ≡ true
  pub latest :
      (other : Row)
      → IsIn other (joined db)
      → before_cutoff parent.id chunk other ≡ true
      → c_micros other ≤ c_micros row

List-cases : {A : Type 0} (xs : List A) → (xs ≡ []) ⊎ ((x : A) × (ys : List A) × (xs ≡ x ∷ ys))
List-cases [] = inl refl
List-cases (x ∷ xs) = inr (x, xs, refl)

head_latest :
    (row other : Row) (rows : List Row)
    → IsOrdered true c_micros (row ∷ rows)
    → IsIn other (row ∷ rows)
    → c_micros other ≤ c_micros row
head_latest row other rows (h, o) (inl e) = ground (arith, ap c_micros e)
head_latest row other rows (h, o) (inr i) =
    let k = All-IsIn (λ y. comes true c_micros row y ≡ true) other rows h i in ground arith

module _ (db : Db) (chunk : ℤ) where
  newest_first-IsNewest :
      (uri : String) (parent : Option RecordKey) (row : Row) (rows : List Row)
      → find_key uri db ≡ parent
      → newest_first db parent chunk ≡ row ∷ rows
      → IsNewest db uri chunk row
  newest_first-IsNewest uri none row rows f e = absurd cc
  newest_first-IsNewest uri (some parent) row rows f e =
      let (i, h) =
        select-IsIn (before_cutoff parent.id chunk) row (joined db)
          (page-IsIn true c_micros (negsuc 0) row _ (subst (IsIn row) (sym e) (inl refl))) in
      record {
        parent = parent;
        found = f;
        member = i;
        before = h;
        latest = λ other j k.
            head_latest row other rows
              (subst (IsOrdered true c_micros) e (page-IsOrdered true c_micros (negsuc 0) _))
              (subst (IsIn other) e (
                IsIn-page true c_micros 0 other _
                  (IsIn-select (before_cutoff parent.id chunk) other (joined db) j k)));
      }

  put_itr-IsNewest :
      (uri other : String) (itr : ℕ) (members : List Row) (itrs : List (String × ℕ))
      → newest_first db (find_key uri db) chunk ≡ members
      → (lookup other itrs ≡ some itr
          → (row : Row) × IsNewest db other chunk row × (itr ≡ chunk_of (c_micros row)))
      → lookup other (put_itr uri members itrs) ≡ some itr
      → (row : Row) × IsNewest db other chunk row × (itr ≡ chunk_of (c_micros row))
  put_itr-IsNewest uri other itr [] itrs e h l = h l
  put_itr-IsNewest uri other itr (row ∷ rows) itrs e h l = elim (Bool-cases (uri == other)) [
    | inl t ↦
        subst (λ u. (row : Row) × IsNewest db u chunk row × (itr ≡ chunk_of (c_micros row)))
          ((eq_iff uri other).0 t)
          (
            row,
            newest_first-IsNewest uri _ row rows refl e,
            sym (inserted uri other _ itr itrs t l),
          )
    | inr f ↦ h (ground (arith, lookup-insert uri other (chunk_of (c_micros row)) itrs))
  ]

  pub lookup-lookup_local_itrs :
      (uris : List String) (uri : String) (itr : ℕ)
      → lookup uri (lookup_local_itrs db uris chunk) ≡ some itr
      → (row : Row) × IsNewest db uri chunk row × (itr ≡ chunk_of (c_micros row))
  unfolding lookup_local_itrs lookup
  lookup-lookup_local_itrs [] uri itr l = absurd cc
  lookup-lookup_local_itrs (first ∷ uris) uri itr l =
      put_itr-IsNewest first uri itr _ _ refl (lookup-lookup_local_itrs uris uri itr) l
