-- ===== src/Store/Tx.antt =====
-- Transactions at READ COMMITTED, with the failures of the database and of the signal service as a
-- list of answers: each statement takes one, and fails where it is true.
use concrnt_playground.Prelude.{
  ℕ, suc, String, Bool, true, false, Option, none, some, List, [], ◌∷◌, ◌++◌, Result, ok, err,
  panic, lost, Error, message, if◌then◌else◌, ◌==◌, string_eq, ◌||◌,
}
use concrnt_playground.Document.{Event}
use concrnt_playground.Store.{upsert_key, add_key, Db, Write, apply_all, RecordKey, exists}

-- What outlives a transaction: the committed tables, the sequence of the record keys, the clock,
-- the events that were published, and the answers to come.
pub record World : Type 0 where
  pub db : Db
  pub next_id : ℕ
  -- in nanoseconds from 1970 on
  pub clock : ℕ
  pub published : List (String × Event)
  pub faults : List Bool
  -- the URIs of keys that a transaction around this one has inserted and not committed
  pub locked : List String

-- A transaction on the way, with its writes in order.
pub record Pending : Type 0 where
  pub world : World
  pub writes : List Write

abbrev pub Tx : Type 0 → Type 0
Tx A = Pending → Result A × Pending

abbrev pub follow : {A B : Type 0} → Result A → Pending → (A → Tx B) → Result B × Pending
follow (ok a) p f = f a p
follow (err e) p f = (err e, p)
follow panic p f = (panic, p)
follow lost p f = (lost, p)

infixl 5 ◌>>=◌ ◌>>◌
unfoldable pub ◌>>=◌ : {A B : Type 0} → Tx A → (A → Tx B) → Tx B
◌>>=◌ m f p = follow (m p).0 (m p).1 f

abbrev pub ◌>>◌ : {B : Type 0} → Tx (Unit {0}) → Tx B → Tx B
m >> k = m >>= λ _. k

unfoldable pub pure : {A : Type 0} → A → Tx A
pure a p = (ok a, p)

-- A step that does not touch the state.
unfoldable pub lift : {A : Type 0} → Result A → Tx A
lift r p = (r, p)

abbrev pub set_faults : List Bool → Pending → Pending
set_faults fs p = record p { world = record p.world { faults = fs } }

abbrev pub answer : List Bool → Pending → Result (Unit {0}) × Pending
answer [] p = (ok tt, p)
answer (true ∷ fs) p = (err (message "statement failed"), set_faults fs p)
answer (false ∷ fs) p = (ok tt, set_faults fs p)

-- A round trip to the database or to the signal service.
unfoldable pub statement : Tx (Unit {0})
statement p = answer p.world.faults p

-- What the transaction sees: the committed tables under its own writes.
abbrev pub view : Pending → Db
view p = apply_all p.writes p.world.db

unfoldable pub look : {A : Type 0} → (Db → A) → Tx A
unfolding apply_all
look f p = (ok (f (view p)), p)

unfoldable pub query : {A : Type 0} → (Db → A) → Tx A
unfolding statement look
query f = do statement; look f

abbrev pub push : Write → Pending → Pending
push w p = record p { writes = p.writes ++ w ∷ [] }

unfoldable pub put : Write → Tx (Unit {0})
put w p = (ok tt, push w p)

unfoldable pub write : Write → Tx (Unit {0})
unfolding statement put
write w = do statement; put w

unfoldable pub mem : String → List String → Bool
mem s [] = false
mem s (t ∷ ts) = t == s || mem s ts

-- An insert waits for the transaction that has inserted the same URI and not committed. Where that
-- one waits for this one in turn, neither comes back.
abbrev pub unlocked : String → Tx (Unit {0})
unlocked uri p = (if mem uri p.world.locked then lost else ok tt, p)

-- The next value of the sequence, which no rollback gives back.
unfoldable pub next : Tx ℕ
next p = (ok p.world.next_id, record p { world = record p.world { next_id = suc p.world.next_id } })

-- INSERT of a record key with a fresh id, which it returns; a second row of the URI is refused.
unfoldable pub insert_key : Option ℕ → String → Tx RecordKey
unfolding statement mem next exists look put
insert_key parent uri = do
  statement
  unlocked uri
  id ← next
  taken ← look (λ db. exists (λ k. k.uri == uri) db.keys)
  let key : RecordKey = record { id = id; parent_id = parent; uri = uri; record_id = none }
  if taken then lift (err (message "duplicate key value")) else put (add_key key) >>= λ _. pure key

-- INSERT … ON CONFLICT (uri) DO UPDATE SET record_id
unfoldable pub upsert_record_key : Option ℕ → String → String → Tx (Unit {0})
unfolding statement mem next put
upsert_record_key parent uri document_id = do
  statement
  unlocked uri
  id ← next
  put (upsert_key (record { id = id; parent_id = parent; uri = uri; record_id = some document_id }))

unfoldable pub publish : String → Event → Tx (Unit {0})
unfolding statement
publish channel event = do
  statement
  λ p. (
    ok tt,
    record p { world = record p.world { published = p.world.published ++ (channel, event) ∷ [] } },
  )

-- The URIs of the rows of record_keys that the writes hold.
unfoldable pub held : List Write → List String
held [] = []
held (add_key k ∷ ws) = k.uri ∷ held ws
held (upsert_key k ∷ ws) = k.uri ∷ held ws
held (w ∷ ws) = held ws

abbrev pub caught : Result (Unit {0}) → Result (Option Error)
caught (ok u) = ok none
caught (err e) = ok (some e)
caught panic = panic
caught lost = lost

-- Another transaction, on a connection of its own: it sees what is committed, and blocks on what
-- this one holds. Its error is a value here.
unfoldable pub nested : (World → Result (Unit {0}) × World) → Tx (Option Error)
unfolding held
nested t p =
    let (r, w) = t (record p.world { locked = held p.writes ++ p.world.locked }) in
    (caught r, record p { world = record w { locked = p.world.locked } })

-- COMMIT, which may fail, or the rollback that every other outcome brings.
abbrev pub commit : {A : Type 0} → A → Result (Unit {0}) × Pending → Result A × World
commit a (ok u, p) = (ok a, record p.world { db = view p })
commit a (err e, p) = (err e, p.world)
commit a (panic, p) = (panic, p.world)
commit a (lost, p) = (lost, p.world)

abbrev pub conclude : {A : Type 0} → Result A × Pending → Result A × World
conclude (ok a, p) = commit a (statement p)
conclude (err e, p) = (err e, p.world)
conclude (panic, p) = (panic, p.world)
conclude (lost, p) = (lost, p.world)

unfoldable pub transaction : {A : Type 0} → Tx A → World → Result A × World
unfolding statement apply_all
transaction m w = conclude (m (record { world = w; writes = [] }))
