-- ===== src/Chunkline/Tests.antt =====
-- A timeline of three members, and the theorems on chunks at it.
use concrnt_playground.Chunkline.{
  chunk_of, body_item, get_chunkline_manifest, load_local_body, lookup_local_itrs, BodyItem,
}
use concrnt_playground.Prelude.{
  ℕ, ◌≤◌, ◌+◌, ◌*◌, ◌≡◌, refl, some, List, [], ◌∷◌, map, ok, lookup, arith,
}
use concrnt_playground.Prelude.Int.{pos, negsuc}
use concrnt_playground.Store.{RecordKey, find_key}
use concrnt_playground.Store.Sorting.{IsIn}
use concrnt_playground.Store.Joined.{Row, c_micros}
use concrnt_playground.Repository.QueryTests.{timeline, codec}
use concrnt_playground.Chunkline.Laws.{IsNewest}
use concrnt_playground.Chunkline.Served.{
  IsChunkBody, load_local_body-IsChunkBody, lookup_local_itrs-load_local_body,
}

abbrev item : ℕ → Prim.Native.String.String → BodyItem
item seconds uri = record {
  timestamp = seconds * 1000000;
  href = uri;
  content_type = "application/concrnt.document+json";
}

-- The member at 1200 seconds is at the end of chunk 1, and counts as one of chunk 2.
itrs_test :
    lookup "cc://con1alice/home" (lookup_local_itrs timeline ("cc://con1alice/home" ∷ []) (pos 1))
    ≡ some 2
unfolding lookup_local_itrs lookup
itrs_test = refl

body_test :
    load_local_body codec timeline "cc://con1alice/home" (pos 1)
    ≡ ok (item 1200 "cc://con1alice/home/b" ∷ item 100 "cc://con1alice/home/a" ∷ [])
unfolding load_local_body
body_test = refl

-- At chunk -1 the window ends at 1970.
early_test : load_local_body codec timeline "cc://con1alice/home" (negsuc 0) ≡ ok []
unfolding load_local_body
early_test = refl

manifest_test :
    get_chunkline_manifest timeline "cc://con1alice/home"
    ≡ ok (record {
      version = "1.0";
      chunk_size = 600;
      first_chunk = 0;
      iterator = "/chunkline/con1alice/home/{chunk}/itr";
      body = "/chunkline/con1alice/home/{chunk}/body";
    })
unfolding get_chunkline_manifest concrnt_playground.Url.Parse.split_authority
manifest_test = refl

load_local_body-IsChunkBody_example :
    (parent : RecordKey) × (rows : List Row) × (find_key "cc://con1alice/home" timeline
      ≡ some parent)
    × IsChunkBody timeline parent.id 1 rows
    × ((item 1200 "cc://con1alice/home/b" ∷ item 100 "cc://con1alice/home/a" ∷ [])
        ≡ map (body_item codec timeline) rows)
load_local_body-IsChunkBody_example =
    load_local_body-IsChunkBody codec timeline "cc://con1alice/home" 1 _ (omega arith) body_test

lookup_local_itrs-load_local_body_example :
    (row : Row) × (items : List BodyItem) × IsNewest timeline "cc://con1alice/home" (pos 1) row
    × (2 ≡ chunk_of (c_micros row))
    × (load_local_body codec timeline "cc://con1alice/home" (pos 2) ≡ ok items)
    × IsIn (body_item codec timeline row) items
    × (2 ≤ 1 + 1)
    × (2 ≡ 1 + 1 → c_micros row ≡ (1 + 1) * 600 * 1000000)
lookup_local_itrs-load_local_body_example =
    lookup_local_itrs-load_local_body codec timeline ("cc://con1alice/home" ∷ [])
      "cc://con1alice/home" 1 2 (omega arith) itrs_test
