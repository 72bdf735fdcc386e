-- ===== src/Registry.antt =====
-- internal/infra/repository/entity.go and server.go, and internal/usecase/entity.go and server.go:
-- the entities and the servers that are known, from registrations and from other servers.
pub mod Laws
pub mod Refines
mod Tests
use concrnt_playground.Prelude.{
  ℕ, String, Bool, true, false, ◌||◌, Option, none, some, List, [], ◌∷◌, ◌++◌, ◌==◌, string_eq,
  if◌then◌else◌, Result, ok, err, panic, lost, Error, message, not_found,
}
use concrnt_playground.Prelude.Action.{Action, ◌>>=◌, ◌>>◌, pure, lift, get, modify, attempt}
use concrnt_playground.Document.{Entity, WellKnownConcrnt}
use concrnt_playground.Store.{first, exists, update_where}
use concrnt_playground.Client.{Client, Session, calls, get_entity_by, get_server_by}

-- What the repositories use of the client.
pub record Remote (S : Type 0) : Type 0 where
  pub get_entity : String → String → Action S Entity
  pub get_server : String → String → Action S WellKnownConcrnt

-- client.Client, on a stack that holds so many calls
abbrev pub remote : Client → ℕ → Remote Session
remote client depth = record {
  get_entity = get_entity_by client (calls client depth);
  get_server = get_server_by client (calls client depth);
}

-- models.Entity and domain.Entity, which have the same fields but for the dates
pub record EntityRow : Type 0 where
  pub id : String
  pub alias : Option String
  pub domain : String
  pub tag : String
  pub affiliation_document : String
  pub affiliation_signature : String

-- models.EntityMeta and domain.EntityMeta
pub record EntityMeta : Type 0 where
  pub id : String
  pub inviter : Option String
  pub info : String

-- models.Server
pub record ServerRow : Type 0 where
  pub id : String
  pub csid : String
  pub tag : String
  pub layer : String
  pub well_known : String

-- domain.Server
pub record Server : Type 0 where
  pub domain : String
  pub csid : String
  pub layer : String
  pub version : String
  pub well_known : WellKnownConcrnt

pub record Tables : Type 0 where
  pub entities : List EntityRow
  pub metas : List EntityMeta
  pub servers : List ServerRow

-- The tables, the answers of the statements to come, of which `true` is a failure, and the state of
-- the client.
pub record Registry (S : Type 0) : Type 0 where
  pub tables : Tables
  pub faults : List Bool
  pub session : S

-- concrnt.RegisterRequest[domain.EntityMeta]; the invite token is not read.
pub record RegisterRequest : Type 0 where
  pub affiliation_document : String
  pub affiliation_signature : String
  pub meta : EntityMeta

-- encoding/json on the author and the domain of an affiliation, and on well-known documents
pub record Encoding : Type 0 where
  pub unmarshal_affiliation : String → Result (String × String)
  pub unmarshal_server : String → Result WellKnownConcrnt
  pub marshal_server : WellKnownConcrnt → Result String

abbrev pub entity_row : Entity → EntityRow
entity_row entity = record {
  id = entity.ccid;
  alias = none;
  domain = entity.domain;
  tag = "";
  affiliation_document = entity.affiliation_document;
  affiliation_signature = entity.affiliation_signature;
}

-- INSERT … ON CONFLICT DO UPDATE of all other columns, for rows that `same` calls the same
abbrev pub upsert {ℓ} : {A : Type ℓ} → (A → Bool) → A → List A → List A
upsert same row rows =
    if exists same rows then update_where same (λ old. row) rows else rows ++ row ∷ []

abbrev pub put_entity : EntityRow → Tables → Tables
put_entity row t = record t { entities = upsert (λ e. e.id == row.id) row t.entities }

abbrev pub put_meta : EntityMeta → Tables → Tables
put_meta row t = record t { metas = upsert (λ m. m.id == row.id) row t.metas }

abbrev pub put_server : ServerRow → Tables → Tables
put_server row t = record t { servers = upsert (λ m. m.id == row.id) row t.servers }

unfoldable pub find_entity : String → Tables → Option EntityRow
unfolding first
find_entity ccid t = first (λ e. e.id == ccid) t.entities

abbrev pub or_no_record : {A : Type 0} → Option A → Result A
or_no_record none = err (message "record not found")
or_no_record (some a) = ok a

unfoldable pub find_server : String → Tables → Option ServerRow
unfolding first
find_server identifier t = first (λ s. s.id == identifier || s.csid == identifier) t.servers

abbrev pub server_row : WellKnownConcrnt → String → ServerRow
server_row wkc serialized = record {
  id = wkc.domain;
  csid = wkc.csid;
  tag = wkc.version;
  layer = wkc.layer;
  well_known = serialized;
}

abbrev pub server_of : ServerRow → WellKnownConcrnt → Server
server_of row wkc = record {
  domain = row.id;
  csid = row.csid;
  layer = row.layer;
  version = row.tag;
  well_known = wkc;
}

module _ {S : Type 0} where
  abbrev pub answer : List Bool → Registry S → Result (Unit {0}) × Registry S
  answer [] r = (ok tt, r)
  answer (true ∷ faults) r = (err (message "statement failed"), record r { faults = faults })
  answer (false ∷ faults) r = (ok tt, record r { faults = faults })

  unfoldable pub statement : Action (Registry S) (Unit {0})
  statement r = answer r.faults r

  unfoldable pub write : (Tables → Tables) → Action (Registry S) (Unit {0})
  unfolding statement ◌>>=◌ modify exists update_where
  write change = do statement; modify (λ r. record r { tables = change r.tables })

  abbrev pub rolled_back : Tables → Result (Unit {0}) × Registry S → Result (Unit {0}) × Registry S
  rolled_back tables (ok u, r) = (ok u, r)
  rolled_back tables (err e, r) = (err e, record r { tables = tables })
  rolled_back tables (panic, r) = (panic, record r { tables = tables })
  rolled_back tables (lost, r) = (lost, record r { tables = tables })

  -- The statements of a transaction and its COMMIT, any of which may fail.
  unfoldable pub transaction : Action (Registry S) (Unit {0}) → Action (Registry S) (Unit {0})
  unfolding ◌>>=◌ statement
  transaction m r = rolled_back r.tables ((m >> statement) r)

  -- A call of the client, which has a state of its own.
  unfoldable pub remotely : {A : Type 0} → Action S A → Action (Registry S) A
  remotely m r = ((m r.session).0, record r { session = (m r.session).1 })

  -- EntityRepository.Register
  unfoldable pub register_entity : EntityRow → EntityMeta → Action (Registry S) (Unit {0})
  unfolding transaction write ◌>>=◌
  register_entity entity meta = transaction (do write (put_entity entity); write (put_meta meta))

  -- EntityUsecase.Register
  unfoldable pub register : Encoding → RegisterRequest → Action (Registry S) (Unit {0})
  unfolding register_entity ◌>>=◌ lift
  register encoding req = do
    doc ← lift (encoding.unmarshal_affiliation req.affiliation_document)
    register_entity
        (record {
          id = doc.0;
          alias = none;
          domain = doc.1;
          tag = "";
          affiliation_document = req.affiliation_document;
          affiliation_signature = req.affiliation_signature;
        })
        req.meta

  -- First and Take: a failed statement and no row are both errors.
  unfoldable pub select_one : {A : Type 0} → (Tables → Option A) → Action (Registry S) A
  unfolding statement get ◌>>=◌ lift
  select_one find = do statement; found ← get (λ r. find r.tables); lift (or_no_record found)

  module _ (fqdn : String) (remote : Remote S) where
    abbrev pub or_remote_entity : String → String → Result EntityRow → Action (Registry S) EntityRow
    or_remote_entity ccid hint (ok row) = pure row
    or_remote_entity ccid hint (err e) = if hint == "" || hint == fqdn then lift (err e) else (do
      entity ← remotely (remote.get_entity ccid hint)
      write (put_entity (entity_row entity))
      pure (entity_row entity))
    or_remote_entity ccid hint panic = lift panic
    or_remote_entity ccid hint lost = lift lost

    -- EntityRepository.Get
    unfoldable pub get_entity : String → String → Action (Registry S) EntityRow
    unfolding select_one attempt remotely write ◌>>=◌ lift pure find_entity
    get_entity ccid hint = attempt (select_one (find_entity ccid)) >>= or_remote_entity ccid hint

  module _ (encoding : Encoding) (remote : Remote S) where
    abbrev pub fetched_server : String → String → Action (Registry S) Server
    fetched_server identifier hint = if hint == "" then lift (err (not_found "")) else (do
      wkc ← remotely (remote.get_server identifier hint)
      serialized ← lift (encoding.marshal_server wkc)
      write (put_server (server_row wkc serialized))
      pure (server_of (server_row wkc serialized) wkc))

    -- A row whose well-known document is there and decodes serves; otherwise the remote server does.
    abbrev pub decoded_or_fetched :
        String → String → ServerRow → Result WellKnownConcrnt → Action (Registry S) Server
    decoded_or_fetched identifier hint row (ok wkc) = pure (server_of row wkc)
    decoded_or_fetched identifier hint row _ = fetched_server identifier hint

    abbrev pub or_remote_server : String → String → Result ServerRow → Action (Registry S) Server
    or_remote_server identifier hint (ok row) =
        if row.well_known == ""
        then fetched_server identifier hint
        else decoded_or_fetched identifier hint row (encoding.unmarshal_server row.well_known)
    or_remote_server identifier hint (err e) = fetched_server identifier hint
    or_remote_server identifier hint panic = lift panic
    or_remote_server identifier hint lost = lift lost

    -- ServerRepository.Resolve
    unfoldable pub resolve : String → String → Action (Registry S) Server
    unfolding select_one attempt remotely write ◌>>=◌ lift pure find_server
    resolve identifier hint =
        attempt (select_one (find_server identifier)) >>= or_remote_server identifier hint
