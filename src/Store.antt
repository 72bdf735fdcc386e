-- ===== src/Store.antt =====
-- internal/infra/database/models: the tables, with the keys, unique columns and cascades that the
-- tags declare, and the effect of the statements that the repositories issue.
pub mod Tx
pub mod Keeps
pub mod Rows
pub mod Sorting
pub mod Pages
pub mod Joined
pub mod Like
use concrnt_playground.Prelude.{
  ℕ, String, Bool, true, false, not, ◌&&◌, ◌||◌, Option, none, some, List, [], ◌∷◌, ◌++◌, ◌==◌,
  nat_eq, string_eq, if◌then◌else◌,
}
use concrnt_playground.Document.{Event}

-- models.CommitLog
pub record CommitLog : Type 0 where
  pub id : String
  pub document : String
  pub proof : String
  pub gc_candidate : Bool

-- models.CommitOwner
pub record CommitOwner : Type 0 where
  pub commit_log_id : String
  pub owner : String

-- models.Record; an instant is its nanoseconds from 1970 on.
pub record Record : Type 0 where
  pub document_id : String
  pub owner : String
  pub schema : String
  pub c_date : ℕ

-- models.RecordKey
pub record RecordKey : Type 0 where
  pub id : ℕ
  pub parent_id : Option ℕ
  pub uri : String
  pub record_id : Option String

-- models.Association
pub record Association : Type 0 where
  pub target_id : ℕ
  pub document_id : String
  pub unique : String
  pub owner : String
  pub schema : String
  pub value : String
  pub c_date : ℕ

pub record Db : Type 0 where
  pub commits : List CommitLog
  pub owners : List CommitOwner
  pub records : List Record
  pub keys : List RecordKey
  pub associations : List Association

-- SELECT … LIMIT 1 and DELETE, by a test on the rows.
module _ {ℓ} {A : Type ℓ} (p : A → Bool) where
  unfoldable pub first : List A → Option A
  first [] = none
  first (x ∷ xs) = if p x then some x else first xs

  unfoldable pub reject : List A → List A
  reject [] = []
  reject (x ∷ xs) = let rest = reject xs in if p x then rest else x ∷ rest

  unfoldable pub exists : List A → Bool
  exists [] = false
  exists (x ∷ xs) = p x || exists xs

  unfoldable pub update_where : (A → A) → List A → List A
  update_where f [] = []
  update_where f (x ∷ xs) = (if p x then f x else x) ∷ update_where f xs

-- INSERT … ON CONFLICT DO NOTHING, for the rows that `p` calls the same.
abbrev pub insert_new {ℓ} : {A : Type ℓ} → (A → Bool) → A → List A → List A
insert_new p x xs = if exists p xs then xs else xs ++ x ∷ []

unfoldable pub find_commit : String → Db → Option CommitLog
unfolding first
find_commit id db = first (λ c. c.id == id) db.commits

unfoldable pub find_record : String → Db → Option Record
unfolding first
find_record id db = first (λ r. r.document_id == id) db.records

unfoldable pub find_key : String → Db → Option RecordKey
unfolding first
find_key uri db = first (λ k. k.uri == uri) db.keys

abbrev pub is_ref : String → Option String → Bool
is_ref id none = false
is_ref id (some r) = r == id

-- The associations of a target among the keys `gone` go with it.
unfoldable pub drop_targets : List RecordKey → List Association → List Association
unfolding reject exists
drop_targets gone = reject (λ a. exists (λ k. k.id == a.target_id) gone)

unfoldable pub select {ℓ} : {A : Type ℓ} → (A → Bool) → List A → List A
select p [] = []
select p (x ∷ xs) = let rest = select p xs in if p x then x ∷ rest else rest

-- DELETE of a record: the keys that point at it go, and the associations to those keys.
unfoldable pub delete_record : String → Db → Db
unfolding reject drop_targets select
delete_record id db = record db {
  records = reject (λ r. r.document_id == id) db.records;
  keys = reject (λ k. is_ref id k.record_id) db.keys;
  associations = drop_targets (select (λ k. is_ref id k.record_id) db.keys) db.associations;
}

-- DELETE of a commit: its owners, its record and its association go too.
unfoldable pub delete_commit : String → Db → Db
unfolding delete_record
delete_commit id db =
    let db' = delete_record id db in
    record db' {
      commits = reject (λ c. c.id == id) db.commits;
      owners = reject (λ o. o.commit_log_id == id) db.owners;
      associations = reject (λ a. a.document_id == id) db'.associations;
    }

-- The writes of a transaction, each of one statement.
pub data Write : Type 0 where
  add_commit : CommitLog → Write
  add_owner : CommitOwner → Write
  add_record : Record → Write
  add_key : RecordKey → Write
  upsert_key : RecordKey → Write
  flag_gc : String → Write
  drop_record : String → Write
  drop_commit : String → Write
  add_association : Association → Write

abbrev pub point_at : Option String → RecordKey → RecordKey
point_at r k = record k { record_id = r }

unfoldable pub upsert : RecordKey → List RecordKey → List RecordKey
unfolding exists update_where
upsert k ks =
    if exists (λ j. j.uri == k.uri) ks
    then update_where (λ j. j.uri == k.uri) (point_at k.record_id) ks
    else ks ++ k ∷ []

abbrev pub flagged : CommitLog → CommitLog
flagged c = record c { gc_candidate = true }

unfoldable pub apply : Write → Db → Db
unfolding exists upsert delete_record delete_commit update_where
apply (add_commit c) db = record db { commits = insert_new (λ d. d.id == c.id) c db.commits }
apply (add_owner o) db = record db {
  owners = insert_new (λ p. p.commit_log_id == o.commit_log_id && p.owner == o.owner) o db.owners;
}
apply (add_record r) db = record db {
  records = insert_new (λ s. s.document_id == r.document_id) r db.records;
}
apply (add_key k) db = record db { keys = db.keys ++ k ∷ [] }
apply (upsert_key k) db = record db { keys = upsert k db.keys }
apply (flag_gc id) db = record db { commits = update_where (λ c. c.id == id) flagged db.commits }
apply (drop_record id) db = delete_record id db
apply (drop_commit id) db = delete_commit id db
apply (add_association a) db = record db { associations = db.associations ++ a ∷ [] }

unfoldable pub apply_all : List Write → Db → Db
unfolding apply
apply_all [] db = db
apply_all (w ∷ ws) db = apply_all ws (apply w db)
