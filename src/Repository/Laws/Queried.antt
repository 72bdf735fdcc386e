-- ===== src/Repository/Laws/Queried.antt =====
-- What Query answers: a page of the rows that it asks for.
use concrnt_playground.Prelude.{
  inserted, ap, suc, String, ◌≤◌, ◌+◌, Bool, true, ◌≡◌, refl, subst, ◌⊎◌, inl, inr, Option, some,
  List, [], ◌∷◌, ◌==◌, string_eq, ok, >>=-ok, lookup, insert, lookup-insert, length, Bool-cases,
  arith, eq_iff,
}
use concrnt_playground.Prelude.Int.{ℤ}
use concrnt_playground.Cdid.Stamp.{Time}
use concrnt_playground.Document.{Document, Codec}
use concrnt_playground.Store.{Db, select}
use concrnt_playground.Store.Pages.{IsPage, left_out, page-IsPage}
use concrnt_playground.Store.Sorting.{IsIn, page-IsIn, select-IsIn}
use concrnt_playground.Store.Joined.{Row, joined, c_micros}
use concrnt_playground.Repository.Read.{preload_document}
use concrnt_playground.Repository.Query.{wanted, read_rows, queried, query}

length-insert :
    (key : String) (doc : Document) (docs : List (String × Document))
    → length (insert key doc docs) ≤ suc (length docs)
unfolding insert
length-insert key doc [] = omega arith
length-insert key doc (entry ∷ docs) = ground (arith, length-insert key doc docs)

insert_keeps :
    (key uri : String) (doc old : Document) (docs : List (String × Document))
    → lookup uri docs ≡ some old
    → (new : Document) × (lookup uri (insert key doc docs) ≡ some new)
insert_keeps key uri doc old docs h = elim (Bool-cases (key == uri)) [
  | inl t ↦ (doc, ground (arith, lookup-insert key uri doc docs))
  | inr f ↦ (old, ground (arith, lookup-insert key uri doc docs))
]

module _ (codec : Codec) (db : Db) where
  -- The document of a row, as Query reads it.
  abbrev pub Holds : Row → Document → Type 0
  Holds row doc = codec.unmarshal (preload_document db row.rec).document ≡ ok doc

  first_row :
      (row : Row) (rows : List Row) (docs out : List (String × Document))
      → read_rows codec db (row ∷ rows) docs ≡ ok out
      → (doc : Document) × Holds row doc
        × (read_rows codec db rows (insert row.key.uri doc docs) ≡ ok out)
  unfolding read_rows
  first_row row rows docs out e =
      >>=-ok (codec.unmarshal (preload_document db row.rec).document)
        (λ doc. read_rows codec db rows (insert row.key.uri doc docs)) e

  read_rows_keeps :
      (rows : List Row) (docs out : List (String × Document)) (uri : String) (old : Document)
      → read_rows codec db rows docs ≡ ok out
      → lookup uri docs ≡ some old
      → (new : Document) × (lookup uri out ≡ some new)
  unfolding read_rows
  read_rows_keeps [] docs out uri old e h = (old, cc)
  read_rows_keeps (row ∷ rows) docs out uri old e h =
      let (doc, f, g) = first_row row rows docs out e in
      let (new, k) = insert_keeps row.key.uri uri doc old docs h in
      read_rows_keeps rows _ out uri new g k

  read_rows-lookup :
      (rows : List Row) (docs out : List (String × Document))
      → read_rows codec db rows docs ≡ ok out
      → (row : Row) → IsIn row rows
      → (doc : Document) × (lookup row.key.uri out ≡ some doc)
  unfolding read_rows
  read_rows-lookup [] docs out e row i = elim i [ ]
  read_rows-lookup (first ∷ rows) docs out e row (inl i) =
      let (doc, f, g) = first_row first rows docs out e in
      read_rows_keeps rows _ out row.key.uri doc g (
        ground (
          arith,
          lookup-insert first.key.uri row.key.uri doc docs,
          ap (λ r. r.key.uri) i,
          eq_iff first.key.uri row.key.uri,
        ))
  read_rows-lookup (first ∷ rows) docs out e row (inr i) =
      let (doc, f, g) = first_row first rows docs out e in read_rows-lookup rows _ out g row i

  lookup-read_rows :
      (rows : List Row) (docs out : List (String × Document)) (uri : String) (doc : Document)
      → read_rows codec db rows docs ≡ ok out
      → lookup uri out ≡ some doc
      → ((row : Row) × IsIn row rows × (row.key.uri ≡ uri) × Holds row doc)
        ⊎ (lookup uri docs ≡ some doc)
  unfolding read_rows
  lookup-read_rows [] docs out uri doc e h = inr cc
  lookup-read_rows (row ∷ rows) docs out uri doc e h =
      let (new, f, g) = first_row row rows docs out e in
      elim (lookup-read_rows rows _ out uri doc g h) [
        | inl (other, i, u, k) ↦ inl (other, inr i, u, k)
        | inr l ↦ elim (Bool-cases (row.key.uri == uri)) [
          | inl t ↦ inl (
            row,
            inl refl,
            (eq_iff row.key.uri uri).0 t,
            subst (λ d. Holds row d) (inserted row.key.uri uri new doc docs t l) f,
          )
          | inr n ↦ inr (ground (arith, lookup-insert row.key.uri uri new docs))
        ]
      ]

  length-read_rows :
      (rows : List Row) (docs out : List (String × Document))
      → read_rows codec db rows docs ≡ ok out
      → length out ≤ length docs + length rows
  unfolding read_rows
  length-read_rows [] docs out e = ground (arith, same_length)
    where
      same_length : length docs ≡ length out
      same_length = cc
  length-read_rows (row ∷ rows) docs out e =
      let (doc, f, g) = first_row row rows docs out e in
      let h = length-read_rows rows _ out g in omega (arith, h, length-insert row.key.uri doc docs)

-- What the answer to Query is: the documents of a page of the rows that pass a test.
pub record IsAnswer (codec : Codec) (db : Db) (test : Row → Bool) (limit : ℤ) (desc : Bool)
    (documents : List (String × Document)) : Type 0 where
  pub rows : List Row
  pub rest : List Row
  pub page : IsPage desc c_micros limit (select test (joined db)) rows rest
  pub passes : (row : Row) → IsIn row rows → IsIn row (joined db) × (test row ≡ true)
  pub sound :
      (uri : String) (doc : Document)
      → lookup uri documents ≡ some doc
      → (row : Row) × IsIn row rows × (row.key.uri ≡ uri) × Holds codec db row doc
  pub complete :
      (row : Row) → IsIn row rows → (doc : Document) × (lookup row.key.uri documents ≡ some doc)
  pub bounded : length documents ≤ length rows

module _ (codec : Codec) (db : Db) (prefix schema : String) (since until : Option Time) (limit : ℤ)
    (order : String) (documents : List (String × Document)) where
  abbrev rows : List Row
  rows = queried db prefix schema since until limit order

  asked_for :
      (row : Row)
      → IsIn row rows
      → IsIn row (joined db) × (wanted prefix schema since until row ≡ true)
  asked_for row i =
      select-IsIn (wanted prefix schema since until) row (joined db)
        (page-IsIn (order == "desc") c_micros limit row _ i)

  answer_sound :
      query codec db prefix schema since until limit order ≡ ok documents
      → (uri : String) (doc : Document) → lookup uri documents ≡ some doc
      → (row : Row) × IsIn row rows × (row.key.uri ≡ uri) × Holds codec db row doc
  unfolding query lookup
  answer_sound e uri doc l = elim (lookup-read_rows codec db rows [] documents uri doc e l) [
    | inl found ↦ found
    | inr n ↦ absurd (cc n)
  ]

  no_more :
      query codec db prefix schema since until limit order ≡ ok documents
      → length documents ≤ length rows
  unfolding query
  no_more e = let h = length-read_rows codec db rows [] documents e in omega (arith, h)

  -- Where Query answers, there is a page of the rows that pass its tests, in the order asked for: no
  -- row that it leaves out belongs before one of its rows, it has no more rows than a limit that is
  -- not negative, and it leaves rows out only where it has as many as the limit. Every entry of the
  -- answer is the document of a row of the page, under the row's URI, and every row of the page has
  -- an entry.
  pub query-IsAnswer :
      query codec db prefix schema since until limit order ≡ ok documents
      → IsAnswer codec db (wanted prefix schema since until) limit (order == "desc") documents
  unfolding query
  query-IsAnswer e = record {
    rows = rows;
    rest =
        left_out (order == "desc") c_micros limit
          (select (wanted prefix schema since until) (joined db));
    page =
        page-IsPage (order == "desc") c_micros limit
          (select (wanted prefix schema since until) (joined db));
    passes = asked_for;
    sound = answer_sound e;
    complete = read_rows-lookup codec db rows [] documents e;
    bounded = no_more e;
  }
