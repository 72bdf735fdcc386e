-- ===== src/Client/Laws.antt =====
-- When the client's calls come back, and what its caches save.
use concrnt_playground.Client.{
  calls, keep_server, cached_entity, cached_server, or_fetch_server, or_fetch_entity, fetch_server,
  get_entity_by, get_server_by, template_of, server_for, get_resource, resolve_resolver, Calls,
  endpoint_of, request, Session, Client,
}
use concrnt_playground.Prelude.{
  guard, Error, ℕ, suc, String, Bool, true, false, ◌≡◌, refl, inl, inr, Option, none, some, ◌==◌,
  string_eq, if◌then◌else◌, Result, ok, err, panic, lost, message, Bool-cases, eq_iff, arith,
}
use Prim.Native.String.{◌++◌}
use concrnt_playground.Prelude.Action.{
  Action, ◌>>◌, pure, lift, annotated, get, modify, Halts, Halts-bind, Halts-annotated, Halts-lift,
  Halts-pure, Halts-get, Halts-modify,
}
use concrnt_playground.Document.{ConcrntEndpoint, Entity, WellKnownConcrnt}
use concrnt_playground.Prelude.{◌>>=◌ as chain}
use concrnt_playground.Url.{Url}
use concrnt_playground.Url.Parse.{parse}
use concrnt_playground.Url.Escape.{unescape, query}
use concrnt_playground.Uri.{
  parse_cc_uri, parse_cc_uri_with_hint, or_error, url_or_error, parts, is_ccid, is_csid,
}

-- A world in which each request is answered, with an error or not.
pub record IsAnswering (client : Client) : Type 0 where
  pub fetch : (tick : ℕ) (url accept : String) → ¬ (client.fetch tick url accept ≡ lost)
  pub entity : (body : String) → ¬ (client.decode_entity body ≡ lost)
  pub server : (body : String) → ¬ (client.decode_server body ≡ lost)

chain_returns :
    {A B : Type 0} (r : Result A) (f : A → Result B)
    → ¬ (r ≡ lost)
    → ((a : A) → ¬ (f a ≡ lost))
    → ¬ (chain r f ≡ lost)
chain_returns (ok a) f h k = k a
chain_returns (err e) f h k = λ e. cc e
chain_returns panic f h k = λ e. cc e
chain_returns lost f h k = λ e. h refl

or_error_returns : (o : Option String) (e : String) → ¬ (or_error o e ≡ lost)
or_error_returns none e k = cc k
or_error_returns (some s) e k = cc k

url_returns : (o : Option Url) (e : String) → ¬ (url_or_error o e ≡ lost)
url_returns none e k = cc k
url_returns (some s) e k = cc k

template_returns : (o : Option ConcrntEndpoint) → ¬ (template_of o ≡ lost)
template_returns none k = cc k
template_returns (some e) k = cc k

guard_returns : (b : Bool) (e : Error) → ¬ (guard b e ≡ lost)
guard_returns true e k = cc k
guard_returns false e k = cc k

ok_returns : {A : Type 0} (a : A) → ¬ (Result.ok a ≡ lost)
ok_returns a e = cc e

parse_returns : (uri : String) → ¬ (parse_cc_uri uri ≡ lost)
unfolding parse_cc_uri parse_cc_uri_with_hint
parse_returns uri =
    chain_returns _ _
      (chain_returns _ _ (or_error_returns (unescape query uri) "invalid uri encoding") λ text.
        chain_returns _ _ (url_returns (parse text) "invalid uri") λ url.
          chain_returns _ _ (guard_returns (url.scheme == "cc") (message "unsupported uri scheme"))
            λ u. ok_returns (parts url))
      λ p. ok_returns (p.0, p.1)

Halts-if :
    {A : Type 0} (b : Bool) (m n : Action Session A)
    → (b ≡ true → Halts m)
    → (b ≡ false → Halts n)
    → Halts (if b then m else n)
Halts-if true m n h k = h refl
Halts-if false m n h k = k refl

module _ (client : Client) (answering : IsAnswering client) where
  Halts-request : (url accept : String) → Halts (request client url accept)
  unfolding request
  Halts-request url accept = record { at = λ s. answering.fetch s.tick url accept }

  Halts-endpoint : (info : WellKnownConcrnt) → Halts {S = Session} (lift (endpoint_of info))
  Halts-endpoint info = Halts-lift _ (template_returns _)

  module _ (calls : Calls) where
    resolve-Halts :
        (resolver : String)
        → ((address : String) → Halts (calls.get_entity address ""))
        → ((id : String) → Halts (calls.get_server id))
        → Halts (resolve_resolver client calls resolver)
    unfolding resolve_resolver
    resolve-Halts resolver entities servers =
        Halts-if (resolver == "") _ _ (λ t. Halts-pure _)
          λ f.
            Halts-if (is_ccid resolver) _ _
              (λ t. Halts-bind _ _ (Halts-annotated _ _ (entities resolver)) λ e. Halts-pure _)
              λ f.
                Halts-if (is_csid resolver) _ _
                  (λ t. Halts-bind _ _ (Halts-annotated _ _ (servers resolver)) λ e. Halts-pure _)
                  λ f. Halts-pure _

    resource-Halts :
        {A : Type 0} (decode : String → Result A) (uri accept resolver : String)
        → ((body : String) → ¬ (decode body ≡ lost))
        → ((owner : String) → Halts (server_for client calls resolver owner))
        → Halts (get_resource client calls decode uri accept resolver)
    unfolding get_resource
    resource-Halts decode uri accept resolver decodes servers =
        Halts-bind _ _ (Halts-annotated _ _ (Halts-lift _ (parse_returns uri))) λ parsed.
          Halts-bind _ _ (servers parsed.0) λ info. Halts-bind _ _ (Halts-endpoint info) λ template.
            Halts-bind _ _ (Halts-request _ accept)
              λ body. Halts-annotated _ _ (Halts-lift _ (decodes body))

    own_server-Halts :
        (owner : String)
        → Halts (calls.get_server client.default_resolver)
        → ¬ (client.default_resolver ≡ "")
        → Halts (server_for client calls client.default_resolver owner)
    own_server-Halts owner inner named =
        Halts-if (client.default_resolver == "") _ _
          (λ t. absurd (named ((eq_iff client.default_resolver "").0 t)))
          λ f. Halts-annotated _ _ inner

    fetch_server-Halts :
        (id hint : String)
        → Halts (calls.get_server client.default_resolver)
        → ¬ (client.default_resolver ≡ "")
        → Halts (fetch_server client calls id hint)
    fetch_server-Halts id hint inner named =
        Halts-if (is_csid id) _ _
          (λ t.
            Halts-annotated _ _ (
              resource-Halts _ _ _ _ answering.server
                (λ owner. own_server-Halts owner inner named)))
          λ f.
            Halts-bind _ _ (Halts-request _ "")
              λ body. Halts-annotated _ _ (Halts-lift _ (answering.server body))

    or_fetch_server-Halts :
        (id hint : String) (found : Option WellKnownConcrnt)
        → Halts (calls.get_server client.default_resolver)
        → ¬ (client.default_resolver ≡ "")
        → Halts (or_fetch_server client calls id hint found)
    or_fetch_server-Halts id hint (some server) inner named = Halts-pure server
    or_fetch_server-Halts id hint none inner named =
        Halts-bind _ _ (fetch_server-Halts id hint inner named)
          λ server. Halts-bind _ _ (Halts-modify _) λ u. Halts-pure server

    server-Halts :
        (id hint : String)
        → Halts (calls.get_server client.default_resolver)
        → ¬ (client.default_resolver ≡ "")
        → Halts (get_server_by client calls id hint)
    unfolding get_server_by
    server-Halts id hint inner named =
        Halts-bind (get (cached_server client id)) (or_fetch_server client calls id hint)
          (Halts-get _) λ found. or_fetch_server-Halts id hint found inner named

    resolver_named :
        (hint : String)
        → ¬ (client.default_resolver ≡ "")
        → ¬ ((if hint == "" then client.default_resolver else hint) ≡ "")
    resolver_named hint named k = elim (Bool-cases (hint == "")) [
      | inl t ↦ named (ground arith)
      | inr f ↦ ground (arith, eq_iff hint "")
    ]

    asked-Halts :
        (resolver owner : String)
        → ¬ (resolver ≡ "")
        → ((id : String) → Halts (calls.get_server id))
        → Halts (server_for client calls resolver owner)
    asked-Halts resolver owner n servers =
        Halts-if (resolver == "") _ _ (λ t. absurd (n ((eq_iff resolver "").0 t)))
          λ f. Halts-annotated _ _ (servers resolver)

    or_fetch_entity-Halts :
        (address hint : String) (found : Option Entity)
        → ((id : String) → Halts (calls.get_server id))
        → ¬ (client.default_resolver ≡ "")
        → Halts (or_fetch_entity client calls address hint found)
    or_fetch_entity-Halts address hint (some entity) servers named = Halts-pure entity
    or_fetch_entity-Halts address hint none servers named =
        Halts-bind _ _
          (Halts-annotated _ _ (
            resource-Halts _ _ _ _ answering.entity
              (λ owner. asked-Halts _ owner (resolver_named hint named) servers)))
          λ entity. Halts-bind _ _ (Halts-modify _) λ u. Halts-pure entity

    entity-Halts :
        (address hint : String)
        → ((id : String) → Halts (calls.get_server id))
        → ¬ (client.default_resolver ≡ "")
        → Halts (get_entity_by client calls address hint)
    unfolding get_entity_by
    entity-Halts address hint servers named =
        Halts-bind (get (cached_entity client address)) (or_fetch_entity client calls address hint)
          (Halts-get _) λ found. or_fetch_entity-Halts address hint found servers named

module _ (client : Client) (answering : IsAnswering client)
    (named : ¬ (client.default_resolver ≡ ""))
    (plain : is_csid client.default_resolver ≡ false) where
  default-Halts :
      (inner : Calls) (hint : String)
      → Halts (get_server_by client inner client.default_resolver hint)
  unfolding get_server_by
  default-Halts inner hint =
      Halts-bind (get (cached_server client client.default_resolver))
        (or_fetch_server client inner client.default_resolver hint) (Halts-get _) or_fetch
    where
      fetched : Halts (fetch_server client inner client.default_resolver hint)
      fetched =
          Halts-if (is_csid client.default_resolver) _ _ (λ t. absurd (cc))
            λ f.
              Halts-bind
                (request client
                  ("https://"
                    ++ ((if hint == "" then client.default_resolver else hint)
                        ++ "/.well-known/concrnt"))
                  "")
                (λ body.
                  annotated "failed to decode well-known concrnt"
                    (lift (client.decode_server body)))
                (Halts-request client answering _ "")
                λ body. Halts-annotated _ _ (Halts-lift _ (answering.server body))

      or_fetch :
          (found : Option WellKnownConcrnt)
          → Halts (or_fetch_server client inner client.default_resolver hint found)
      or_fetch (some server) = Halts-pure server
      or_fetch none =
          Halts-bind (fetch_server client inner client.default_resolver hint)
            (λ server. modify (keep_server client.default_resolver server) >> pure server) fetched
            λ server.
              Halts-bind (modify (keep_server client.default_resolver server)) (λ u. pure server)
                (Halts-modify _) λ u. Halts-pure server

  -- With a default resolver that is a domain name, and requests that are each answered, three calls
  -- on the stack are enough for GetEntity with any hint, for GetServer without a hint, and for
  -- GetServer with any hint, whatever is asked and cached.
  pub calls-Halts :
      (depth : ℕ)
      → ((address hint : String)
          → Halts ((calls client (suc (suc (suc depth)))).get_entity address hint))
        × ((id : String) → Halts ((calls client (suc (suc (suc depth)))).get_server id))
        × ((id hint : String)
            → Halts (get_server_by client (calls client (suc (suc depth))) id hint))
  unfolding calls
  calls-Halts depth = (
    λ address hint.
        entity-Halts client answering (calls client (suc (suc depth))) address hint (servers depth)
          named,
    servers (suc depth),
    hinted,
  )
    where
      hinted :
          (id hint : String) → Halts (get_server_by client (calls client (suc (suc depth))) id hint)
      hinted id hint =
          server-Halts client answering (calls client (suc (suc depth))) id hint
            (default-Halts (calls client (suc depth)) "") named

      servers : (n : ℕ) (id : String) → Halts ((calls client (suc (suc n))).get_server id)
      servers n id =
          server-Halts client answering (calls client (suc n)) id ""
            (default-Halts (calls client n) "") named
