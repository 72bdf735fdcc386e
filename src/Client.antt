-- ===== src/Client.antt =====
-- client/client.go: who serves an entity, a server or a document, over HTTP and with caches.
pub mod Laws
pub mod Cached
pub mod Tests
use Prim.Native.String.{◌++◌}
use concrnt_playground.Prelude.{
  ℕ, zero, suc, String, Bool, true, false, ◌||◌, Option, none, some, List, [], ◌∷◌, ◌==◌, string_eq,
  if◌then◌else◌, Result, ok, err, lost, message, lookup, insert,
}
use concrnt_playground.Prelude.Action.{Action, ◌>>=◌, ◌>>◌, pure, lift, annotated, get, modify}
use concrnt_playground.Document.{ConcrntEndpoint, Entity, WellKnownConcrnt}
use concrnt_playground.Url.Bytes.{replace_all}
use concrnt_playground.Url.Escape.{escape, query}
use concrnt_playground.Uri.{parse_cc_uri, is_ccid, is_csid}

-- A client and the world around it: what the request with a number answers, with the body of an
-- answer of status 200, or the error of the request or of another status, with its text; which entries
-- of the cache have expired by then; and what encoding/json reads from a body.
pub record Client : Type 0 where
  pub default_resolver : String
  pub fetch : ℕ → String → String → Result String
  pub expired : ℕ → String → Bool
  pub decode_entity : String → Result Entity
  pub decode_server : String → Result WellKnownConcrnt

-- The entries of the cache, of which the keys begin with `entity:` and `server:`, and the URLs that
-- were requested.
pub record Session : Type 0 where
  pub entities : List (String × Entity)
  pub servers : List (String × WellKnownConcrnt)
  pub tick : ℕ
  pub requests : List String

abbrev pub sent : String → Session → Session
sent url s = record s { tick = suc s.tick; requests = url ∷ s.requests }

abbrev pub keep_entity : String → Entity → Session → Session
keep_entity address entity s = record s { entities = insert address entity s.entities }

abbrev pub keep_server : String → WellKnownConcrnt → Session → Session
keep_server id server s = record s { servers = insert id server s.servers }

-- The two calls that others recurse through.
pub record Calls : Type 0 where
  pub get_entity : String → String → Action Session Entity
  pub get_server : String → Action Session WellKnownConcrnt

abbrev pub template_of : Option ConcrntEndpoint → Result String
template_of none = err (message "resource endpoint not found")
template_of (some endpoint) = ok endpoint.template

abbrev pub endpoint_of : WellKnownConcrnt → Result String
endpoint_of info = template_of (lookup "net.concrnt.resource" info.endpoints)

abbrev pub resource_url : WellKnownConcrnt → String → String → String → String → String
resource_url info template owner key uri =
    "https://"
    ++ (info.domain
        ++ replace_all "{uri}" (escape query uri)
            (replace_all "{key}" key (replace_all "{ccid}" owner template)))

module _ (client : Client) where
  unfoldable pub request : String → String → Action Session String
  request url accept s = (client.fetch s.tick url accept, sent url s)

  unfoldable pub cached_entity : String → Session → Option Entity
  unfolding lookup
  cached_entity address s =
      if client.expired s.tick ("entity:" ++ address) then none else lookup address s.entities

  unfoldable pub cached_server : String → Session → Option WellKnownConcrnt
  unfolding lookup
  cached_server id s = if client.expired s.tick ("server:" ++ id) then none else lookup id s.servers

  module _ (calls : Calls) where
    -- Client.resolveResolver
    unfoldable pub resolve_resolver : String → Action Session String
    unfolding ◌>>=◌ pure annotated is_ccid is_csid
    resolve_resolver resolver =
        if resolver == ""
        then pure client.default_resolver
        else if is_ccid resolver
        then (do
          entity ←
              annotated ("failed to get entity for ccid " ++ resolver)
                (calls.get_entity resolver "")
          pure entity.domain)
        else if is_csid resolver
        then (do
          server ←
              annotated ("failed to get server for csid " ++ resolver) (calls.get_server resolver)
          pure server.domain)
        else pure resolver

    abbrev pub server_of_owner : String → Action Session WellKnownConcrnt
    server_of_owner owner = do
      domain ← annotated "failed to resolve default resolver" (resolve_resolver owner)
      annotated ("failed to get server for default resolver " ++ domain) (calls.get_server domain)

    -- The server that GetResource asks, by its option or by the owner of the URI.
    abbrev pub server_for : String → String → Action Session WellKnownConcrnt
    server_for resolver owner =
        if resolver == ""
        then server_of_owner owner
        else annotated ("failed to get server for resolver " ++ resolver)
            (calls.get_server resolver)

    -- Client.GetResource, for the type that `decode` reads
    unfoldable pub get_resource :
        {A : Type 0} → (String → Result A) → String → String → String → Action Session A
    unfolding ◌>>=◌ lift annotated parse_cc_uri resolve_resolver request lookup replace_all escape
    get_resource decode uri accept resolver = do
      parsed ← annotated "failed to parse cc uri" (lift (parse_cc_uri uri))
      info ← server_for resolver parsed.0
      template ← lift (endpoint_of info)
      body ← request (resource_url info template parsed.0 parsed.1 uri) accept
      annotated "failed to decode resource" (lift (decode body))

    abbrev pub or_fetch_entity : String → String → Option Entity → Action Session Entity
    or_fetch_entity address hint (some entity) = pure entity
    or_fetch_entity address hint none = do
      entity ← annotated "failed to get entity" (
          get_resource client.decode_entity ("cc://" ++ address) "application/json"
            (if hint == "" then client.default_resolver else hint))
      modify (keep_entity address entity)
      pure entity

    -- Client.GetEntity
    unfoldable pub get_entity_by : String → String → Action Session Entity
    unfolding get get_resource modify cached_entity ◌>>=◌ pure annotated
    get_entity_by address hint = get (cached_entity address) >>= or_fetch_entity address hint

    abbrev pub well_known : String → Action Session WellKnownConcrnt
    well_known domain = do
      body ← request ("https://" ++ (domain ++ "/.well-known/concrnt")) ""
      annotated "failed to decode well-known concrnt" (lift (client.decode_server body))

    abbrev pub fetch_server : String → String → Action Session WellKnownConcrnt
    fetch_server id hint =
        if is_csid id
        then annotated "failed to get well-known concrnt" (
            get_resource client.decode_server ("cc://" ++ id) "application/json"
              client.default_resolver)
        else well_known (if hint == "" then id else hint)

    abbrev pub or_fetch_server :
        String → String → Option WellKnownConcrnt → Action Session WellKnownConcrnt
    or_fetch_server id hint (some server) = pure server
    or_fetch_server id hint none = do
      server ← fetch_server id hint
      modify (keep_server id server)
      pure server

    -- Client.GetServer
    unfoldable pub get_server_by : String → String → Action Session WellKnownConcrnt
    unfolding get get_resource modify cached_server request is_csid ◌>>=◌ pure annotated lift
    get_server_by id hint = get (cached_server id) >>= or_fetch_server id hint

    -- What HttpRequest and HttpRequestText ask.
    abbrev pub host_for : String → Action Session String
    host_for resolver =
        if resolver == "" || resolver == client.default_resolver
        then pure client.default_resolver
        else annotated "failed to resolve resolver" (resolve_resolver resolver)

    -- Client.HttpRequestText
    unfoldable pub http_request_text : String → String → Action Session String
    unfolding resolve_resolver request ◌>>=◌ pure annotated lift
    http_request_text resolver path = do
      domain ← host_for resolver
      if domain == ""
          then lift (err (message "resolver cannot be empty"))
          else request ("https://" ++ (domain ++ path)) ""

    -- Client.HttpRequest
    unfoldable pub http_request :
        {A : Type 0} → (String → Result A) → String → String → Action Session A
    unfolding http_request_text ◌>>=◌ annotated lift
    http_request decode resolver path = do
      body ← http_request_text resolver path
      annotated "failed to decode response" (lift (decode body))

  -- The calls on a stack that holds so many of them.
  abbrev nowhere : {A : Type 0} → Action Session A
  nowhere s = (lost, s)

  unfoldable pub calls : ℕ → Calls
  unfolding get_entity_by get_server_by
  calls zero = record { get_entity = λ a h. nowhere; get_server = λ i. nowhere }
  calls (suc depth) =
      let inner = calls depth in
      record { get_entity = get_entity_by inner; get_server = λ id. get_server_by inner id "" }
