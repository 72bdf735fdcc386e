-- ===== src/Repository/Laws/Parents.antt =====
-- When `getOrCreateParentRecordKey` of record.go comes back.
use concrnt_playground.Prelude.{
  ℕ, zero, suc, ◌<◌, String, true, false, ◌≡◌, ◌≢◌, none, some, lost, [], ◌==◌, string_eq, arith,
}
use concrnt_playground.Url.{Url}
use concrnt_playground.Url.Join.{join_parent}
use concrnt_playground.Url.Parse.{parse}
use concrnt_playground.Store.Tx.{Pending, Tx, ◌>>=◌, insert_key}
use concrnt_playground.Store.Keeps.{Keeps-bind, Keeps, Keeps-insert_key}
use concrnt_playground.Repository.Parents.{get_or_create_parent, key_id}
use concrnt_playground.Repository.Laws.Steps.{parents-keep, lookup_key-Keeps, found_or-Keeps}
use concrnt_playground.Repository.Laws.Returns.{
  Free, free, Returns, Returns-pure, Returns-bind, Returns-some, Returns-case, Returns-lookup_key,
  Returns-found_or, Returns-insert_key,
}

-- The URIs from which so many steps upwards come to the root of the owner.
pub data Reaches : String → ℕ → Type 0 where
  root :
      {uri parent : String} (u : Url)
      → join_parent uri ≡ some parent
      → parse parent ≡ some u
      → (u.path == "/") ≡ true
      → Reaches uri 0
  up :
      {uri parent : String} {n : ℕ} (u : Url)
      → join_parent uri ≡ some parent
      → parse parent ≡ some u
      → (u.path == "/") ≡ false
      → Reaches parent n
      → Reaches uri (suc n)

-- At the depth of the URI, or below it.
step-Returns :
    (depth n : ℕ) (uri : String)
    → n < depth
    → Reaches uri n
    → Returns (get_or_create_parent depth uri)
unfolding get_or_create_parent
step-Returns zero n uri l r = absurd (omega arith)
step-Returns (suc depth) zero uri l (root {parent} u j q e) =
    Returns-some _ parent _ j (Returns-some _ u _ q (Returns-case _ true _ _ e (Returns-pure none)))
step-Returns (suc depth) (suc n) uri l (up {parent} u j q e r) = Returns-some _ parent _ j (
    Returns-some _ u _ q (
      Returns-case _ false _ _ e (
        Returns-bind _ _ (lookup_key-Keeps free parent) (Returns-lookup_key parent) λ found.
          Returns-bind _ _ (found_or-Keeps free found _ climb-keeps)
            (Returns-found_or found _ (climb (step-Returns depth n parent (omega arith) r)))
            λ k. Returns-pure _)))
  where
    climb-keeps :
        Keeps Free (get_or_create_parent depth parent >>= λ k. insert_key (key_id k) parent)
    climb-keeps =
        Keeps-bind _ _ (parents-keep free (λ k p h. h) depth parent)
          λ k. Keeps-insert_key free _ parent (λ j p h. h)

    climb :
        Returns (get_or_create_parent depth parent)
        → Returns (get_or_create_parent depth parent >>= λ k. insert_key (key_id k) parent)
    climb above =
        Returns-bind _ _ (parents-keep free (λ k p h. h) depth parent) above
          λ k. Returns-insert_key _ parent

-- The search for the parent comes back from every state in which no other transaction waits, once
-- the stack holds more calls than there are steps up to the root.
pub get_or_create_parent-returns :
    (depth n : ℕ) (uri : String) (p : Pending)
    → Reaches uri n
    → n < depth
    → p.world.locked ≡ []
    → (get_or_create_parent depth uri p).0 ≢ lost
get_or_create_parent-returns depth n uri p r l = (step-Returns depth n uri l r).at p
