-- ===== src/Rest/System.antt =====
-- cmd/concrnt/main.go: the handlers' services, wired from the usecases, the repositories, the client
-- and the gateway.
use concrnt_playground.Prelude.{ℕ, String, Option, some, List, Result, ok}
use concrnt_playground.Prelude.Int.{ℤ}
use concrnt_playground.Prelude.Action.{Action}
use concrnt_playground.Cdid.Stamp.{Time}
use concrnt_playground.Crypto.{Curve}
use concrnt_playground.Document.{Codec, SignedDocument}
use concrnt_playground.Store.{Db}
use concrnt_playground.Store.Tx.{World}
use concrnt_playground.Repository.Read.{get_signed_document}
use concrnt_playground.Repository.Query
use concrnt_playground.Usecase.{commit, repository}
use concrnt_playground.Client.{Client, Session}
use concrnt_playground.Registry.{
  Encoding, Registry, Tables, RegisterRequest, remote, register, get_entity, resolve,
}
use concrnt_playground.Chunkline.{
  BodyItem, get_chunkline_manifest, lookup_local_itrs, load_local_body, get_recent,
}
use concrnt_playground.Chunkline.Gateway.{GatewayState, RemoteManifest}
use concrnt_playground.Rest.{Config, Services}

-- The state of a server: the database, of which the tables of entities and servers stand beside the
-- others, the client's cache, and the gateway's.
pub record System : Type 0 where
  pub world : World
  pub tables : Tables
  pub session : Session
  pub manifests : List (String × RemoteManifest)

-- What is fixed when the server starts, with the libraries that it calls: the signatures, JSON,
-- time.Parse, and QueryDescending of the chunkline library. `depth` is how many calls the stack holds.
pub record Setup : Type 0 where
  pub config : Config
  pub codec : Codec
  pub curve : Curve
  pub encoding : Encoding
  pub client : Client
  pub depth : ℕ
  pub now : Time
  pub query_descending : List String → Time → ℤ → Action GatewayState (List BodyItem)
  pub bind_signed_document : String → Result SignedDocument
  pub bind_register_request : String → Result RegisterRequest
  pub parse_rfc3339 : String → Option Time

abbrev pub on_world : {A : Type 0} → Action World A → Action System A
on_world m s = ((m s.world).0, record s { world = (m s.world).1 })

abbrev pub on_db : {A : Type 0} → (Db → Result A) → Action System A
on_db f s = (f s.world.db, s)

-- The repositories of entities and servers take the same answers of the database.
abbrev pub registry_of : System → Registry Session
registry_of s = record { tables = s.tables; faults = s.world.faults; session = s.session }

abbrev pub with_registry : Registry Session → System → System
with_registry r s = record s {
  world = record s.world { faults = r.faults };
  tables = r.tables;
  session = r.session;
}

abbrev pub on_registry : {A : Type 0} → Action (Registry Session) A → Action System A
on_registry m s = ((m (registry_of s)).0, with_registry (m (registry_of s)).1 s)

abbrev pub on_gateway : {A : Type 0} → Action GatewayState A → Action System A
on_gateway m s =
    let outcome = m (record { manifests = s.manifests; session = s.session }) in
    (outcome.0, record s { manifests = outcome.1.manifests; session = outcome.1.session })

abbrev pub services : Setup → Services System
services setup = record {
  now = λ s. (ok setup.now, s);
  commit = λ sd. on_world (commit (repository setup.codec setup.depth) setup.codec setup.curve sd);
  get_signed = λ uri. on_db (λ db. get_signed_document setup.codec db uri);
  query = λ prefix schema since until limit order.
      on_db (λ db. Query.query setup.codec db prefix schema since until limit order);
  get_chunkline_manifest = λ uri. on_db (λ db. get_chunkline_manifest db uri);
  lookup_local_itrs = λ uris chunk. on_db (λ db. ok (lookup_local_itrs db uris chunk));
  load_local_body = λ uri chunk. on_db (λ db. load_local_body setup.codec db uri chunk);
  get_recent = λ uris until limit s.
      let outcome = on_gateway (setup.query_descending uris until limit) s in
      (get_recent (some (λ a b c. outcome.0)) uris until limit, outcome.1);
  register = λ req. on_registry (register setup.encoding req);
  get_entity = λ ccid hint.
      on_registry (get_entity setup.config.fqdn (remote setup.client setup.depth) ccid hint);
  resolve = λ identifier hint.
      on_registry (resolve setup.encoding (remote setup.client setup.depth) identifier hint);
  get_associated_records = λ uri schema variant author.
      on_db (λ db. Query.get_associated_records db uri schema variant author);
  get_associated_record_counts_by_schema =
      λ uri. on_db (λ db. Query.get_associated_record_counts_by_schema db uri);
  get_associated_record_counts_by_variant =
      λ uri schema. on_db (λ db. Query.get_associated_record_counts_by_variant db uri schema);
  bind_signed_document = setup.bind_signed_document;
  bind_register_request = setup.bind_register_request;
  parse_rfc3339 = setup.parse_rfc3339;
}
