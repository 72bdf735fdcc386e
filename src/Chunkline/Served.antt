-- ===== src/Chunkline/Served.antt =====
-- What the two routes of a chunkline serve together: an iterator leads to a body that has the
-- newest member in it.
use concrnt_playground.Chunkline.{
  is_child, prev_chunk_date, chunk_date, in_window, body_rows, chunk_of, BodyItem, body_item,
  lookup_local_itrs, before_cutoff, load_local_body,
}
use concrnt_playground.Prelude.{
  Bool, false, not, ◌&&◌, ◌==◌, nat_eq, ◌↔◌, refl, ℕ, String, ◌≤◌, ◌<◌, ◌+◌, ◌*◌, ◌/◌, ◌^◌, true,
  ◌≡◌, sym, ap, inl, inr, Option, none, some, List, [], ◌∷◌, map, ok, lookup, arith, >>=-ok, ◌>>=◌,
  ok_injective,
}
use concrnt_playground.Prelude.Int.{ℤ, pos}
use concrnt_playground.Document.{Codec}
use concrnt_playground.Store.{Db, RecordKey, find_key}
use concrnt_playground.Store.Sorting.{IsIn, IsOrdered}
use concrnt_playground.Store.Joined.{joined, Row, c_micros, is_until}
use concrnt_playground.Repository.Read.{get_record_key_by_uri, key_or_missing}
use concrnt_playground.Chunkline.Dates.{
  until_cutoff, after_prev, cutoff_bounds, own_cutoff, own_window,
}
use concrnt_playground.Chunkline.Laws.{IsBody, body_rows-IsBody, IsNewest, lookup-lookup_local_itrs}

IsIn-map : {A B : Type 0} (f : A → B) (x : A) (xs : List A) → IsIn x xs → IsIn (f x) (map f xs)
IsIn-map f x [] i = elim i [ ]
IsIn-map f x (y ∷ ys) (inl e) = inl (ap f e)
IsIn-map f x (y ∷ ys) (inr i) = inr (IsIn-map f x ys i)

load-found :
    (codec : Codec) (db : Db) (uri : String) (chunk : ℤ) (parent : RecordKey)
    → find_key uri db ≡ some parent
    → load_local_body codec db uri chunk
      ≡ ok (map (body_item codec db) (body_rows db parent.id chunk))
unfolding load_local_body get_record_key_by_uri
load-found codec db uri chunk parent f =
    ap (λ k. key_or_missing k >>= λ p. ok (map (body_item codec db) (body_rows db p.id chunk))) f

key_found :
    (key : Option RecordKey) (parent : RecordKey)
    → key_or_missing key ≡ ok parent
    → key ≡ some parent
key_found none parent e = cc
key_found (some key) parent e = cc

-- A row whose key stands right under the key with this id.
abbrev pub IsChild : ℕ → Row → Type 0
IsChild id row = row.key.parent_id ≡ some id

child_test : (id : ℕ) (row : Row) → (is_child id row ≡ true) ↔ IsChild id row
child_test id row = on row.key.parent_id
  where
    on :
        (parent : Option ℕ)
        → ((elim parent [ none ↦ false | some p ↦ p == id ]) ≡ true) ↔ (parent ≡ some id)
    on none = ((λ h. absurd cc), (λ h. absurd cc))
    on (some p) = (
      (λ h. ap some (ground arith)),
      (λ h. let e : some p ≡ some id = h in let f : p ≡ id = cc in ground arith),
    )

-- The rows that the body of a chunk lists for a parent, in microseconds: children of the parent, the
-- newest first, none after the chunk, and all that are later than the start of the chunk before it.
pub record IsChunkBody (db : Db) (id chunk : ℕ) (rows : List Row) : Type 0 where
  pub descending : IsOrdered true c_micros rows
  pub members :
      (row : Row)
      → IsIn row rows
      → IsIn row (joined db) × IsChild id row × (c_micros row ≤ (chunk + 1) * 600 * 1000000)
  pub recent :
      (row : Row)
      → IsIn row (joined db)
      → IsChild id row
      → c_micros row ≤ (chunk + 1) * 600 * 1000000
      → chunk * 600 * 1000000 < c_micros row + 600 * 1000000
      → IsIn row rows

and_true : (a b : Bool) → (a && b) ≡ true → (a ≡ true) × (b ≡ true)
and_true true b h = (refl, h)
and_true false b h = absurd cc

true_and : (a b : Bool) → a ≡ true → b ≡ true → (a && b) ≡ true
true_and a b h k = ground arith

IsBody-IsChunkBody :
    (db : Db) (id chunk : ℕ) (rows : List Row)
    → (chunk + 1) * 600 < 2 ^ 63
    → IsBody db id (pos chunk) rows
    → IsChunkBody db id chunk rows
IsBody-IsChunkBody db id chunk rows b body = record {
  descending = body.descending;
  members = λ row i.
      let (j, h) = body.members row i in
      let (k, u) =
        and_true (is_child id row) (is_until (chunk_date (pos chunk)) (c_micros row)) h in
      (j, (child_test id row).0 k, cutoff_bounds chunk (c_micros row) b u);
  recent = λ row i k late early. body.whole_window row i (
      true_and (before_cutoff id (pos chunk) row)
        (not (is_until (prev_chunk_date (pos chunk)) (c_micros row)))
        (true_and (is_child id row) (is_until (chunk_date (pos chunk)) (c_micros row))
          ((child_test id row).1 k) (until_cutoff chunk (c_micros row) b late))
        (ap not (after_prev chunk (c_micros row) b early)));
}

-- Where LoadLocalBody answers for a chunk that is not negative and ends before 2 ^ 63 seconds, the
-- items are those of children of the URI, the newest first, none later than the end of the chunk,
-- the second (chunk + 1) * 600, which still counts; and every child up to there that is later than
-- the second (chunk - 1) * 600 has its item.
pub load_local_body-IsChunkBody :
    (codec : Codec) (db : Db) (uri : String) (chunk : ℕ) (items : List BodyItem)
    → (chunk + 1) * 600 < 2 ^ 63
    → load_local_body codec db uri (pos chunk) ≡ ok items
    → (parent : RecordKey) × (rows : List Row) × (find_key uri db ≡ some parent)
      × IsChunkBody db parent.id chunk rows
      × (items ≡ map (body_item codec db) rows)
unfolding load_local_body get_record_key_by_uri
load_local_body-IsChunkBody codec db uri chunk items b e =
    let (parent, f, g) =
      >>=-ok (key_or_missing (find_key uri db))
        (λ p. ok (map (body_item codec db) (body_rows db p.id (pos chunk)))) e in
    (
      parent,
      body_rows db parent.id (pos chunk),
      key_found (find_key uri db) parent f,
      IsBody-IsChunkBody db parent.id chunk _ b (body_rows-IsBody db parent.id (pos chunk)),
      sym (ok_injective _ _ g),
    )

not_late :
    (id : ℕ) (chunk : ℤ) (row : Row)
    → before_cutoff id chunk row ≡ true
    → is_until (chunk_date chunk) (c_micros row) ≡ true
not_late id chunk row h = ground arith

in_own_window :
    (id chunk itr : ℕ) (row : Row)
    → (itr + 1) * 600 < 2 ^ 63
    → before_cutoff id (pos chunk) row ≡ true
    → itr ≡ chunk_of (c_micros row)
    → in_window id (pos itr) row ≡ true
in_own_window id chunk itr row b h e =
    ground (arith, own_cutoff itr (c_micros row) b (sym e), own_window itr (c_micros row) b (sym e))

itr_bounds :
    (chunk itr c : ℕ)
    → c ≤ (chunk + 1) * 600 * 1000000
    → itr ≡ c / 1000000 / 600
    → (itr ≤ chunk + 1) × (itr ≡ chunk + 1 → c ≡ (chunk + 1) * 600 * 1000000)
itr_bounds chunk itr c b e = (omega arith, λ f. omega arith)

-- An iterator that LookupLocalItrs gives for a chunk is the chunk of the newest member up to that
-- chunk's end, and the body that LoadLocalBody gives at the iterator has that member in it. The
-- iterator is at most the chunk, but for a member exactly at the chunk's end, for which it is the
-- next one. The chunk is not negative, and its end fits into an int64 of seconds.
pub lookup_local_itrs-load_local_body :
    (codec : Codec) (db : Db) (uris : List String) (uri : String) (chunk itr : ℕ)
    → (chunk + 2) * 600 < 2 ^ 63
    → lookup uri (lookup_local_itrs db uris (pos chunk)) ≡ some itr
    → (row : Row) × (items : List BodyItem) × IsNewest db uri (pos chunk) row
      × (itr ≡ chunk_of (c_micros row))
      × (load_local_body codec db uri (pos itr) ≡ ok items)
      × IsIn (body_item codec db row) items
      × (itr ≤ chunk + 1)
      × (itr ≡ chunk + 1 → c_micros row ≡ (chunk + 1) * 600 * 1000000)
lookup_local_itrs-load_local_body codec db uris uri chunk itr b l =
    let (row, n, e) = lookup-lookup_local_itrs db (pos chunk) uris uri itr l in
    let (most, edge) =
      itr_bounds chunk itr (c_micros row)
        (cutoff_bounds chunk (c_micros row) (omega arith)
          (not_late n.parent.id (pos chunk) row n.before))
        e in
    (
      row,
      map (body_item codec db) (body_rows db n.parent.id (pos itr)),
      n,
      e,
      load-found codec db uri (pos itr) n.parent n.found,
      IsIn-map (body_item codec db) row _ (
          (body_rows-IsBody db n.parent.id (pos itr)).whole_window row n.member
            (in_own_window n.parent.id chunk itr row (omega arith) n.before e)),
      most,
      edge,
    )
