-- ===== src/Rest/Routes.antt =====
-- The handlers of internal/present/rest/handler.go, but for the one of documents and the socket.
use concrnt_playground.Prelude.{
  ℕ, String, not, ◌&&◌, Option, none, some, List, [], ◌∷◌, ◌==◌, string_eq, ltb, if◌then◌else◌,
  Result, ok, err, panic, lost, lookup, split,
}
use concrnt_playground.Prelude.Int.{ℤ, pos, negsuc}
use concrnt_playground.Prelude.Action.{Action, ◌>>=◌}
use concrnt_playground.Cdid.Stamp.{Time}
use concrnt_playground.Decimal.{format_int}
use concrnt_playground.Document.{WellKnownConcrnt, ConcrntEndpoint, SoftwareInfo}
use concrnt_playground.Jwt.{parse_int}
use concrnt_playground.Url.Escape.{unescape, segment}
use concrnt_playground.Uri.{compose_cc_uri}
use concrnt_playground.Rest.{
  Config, Request, Response, Payload, Services, success, bad_request, bad_request_message,
  or_internal_error, status_ok, well_known, documents, document_list, items, counts, ordered_counts,
  text,
}

abbrev pub endpoint : String → String → Option (List String) → ConcrntEndpoint
endpoint template method query = record { template = template; method = method; query = query }

-- What handleWellKnown answers with.
abbrev pub well_known_of : Config → SoftwareInfo → WellKnownConcrnt
well_known_of config info = record {
  version = "2.0";
  domain = config.fqdn;
  csid = config.csid;
  layer = config.layer;
  endpoints =
      ("net.concrnt.resource", endpoint "/resource/{uri}" "GET" none)
      ∷ ("net.concrnt.commit", endpoint "/commit" "POST" none)
      ∷ (
        "net.concrnt.query",
        endpoint "/query" "GET"
            (some ("prefix" ∷ "schema" ∷ "since" ∷ "until" ∷ "limit" ∷ "order" ∷ [])),
      )
      ∷ (
        "net.concrnt.associations",
        endpoint "/associations" "GET" (some ("uri" ∷ "schema" ∷ "variant" ∷ "author" ∷ [])),
      )
      ∷ (
        "net.concrnt.association-counts",
        endpoint "/association-counts" "GET" (some ("uri" ∷ "schema" ∷ [])),
      )
      ∷ ("net.concrnt.world.register", endpoint "/api/v1/register" "POST" none)
      ∷ (
        "net.concrnt.world.timeline.recent",
        endpoint "/api/v1/timeline/recent" "GET" (some ("uris" ∷ "until" ∷ "limit" ∷ [])),
      )
      ∷ ("net.concrnt.realtime", endpoint "/realtime" "GET" none)
      ∷ [];
  software_info = info;
}

unfoldable pub handle_well_known : Config → SoftwareInfo → Response
handle_well_known config info = success (well_known (well_known_of config info))

-- `if limit > most { limit = most }`
abbrev pub clamp : ℕ → ℤ → ℤ
clamp most (pos n) = if ltb most n then pos most else pos n
clamp most (negsuc n) = negsuc n

-- A number that is not there is the default; one that does not parse is `none`.
abbrev pub number_or : ℤ → String → Option ℤ
number_or default value = if value == "" then some default else parse_int value

-- An instant that is not there is nil; one that does not parse is `none`.
abbrev pub some_time : Option Time → Option (Option Time)
some_time none = none
some_time (some t) = some (some t)

abbrev pub or_asc : String → Option String
or_asc order =
    if order == ""
    then some "asc"
    else if not (order == "asc") && not (order == "desc")
    then none
    else some order

module _ {S : Type 0} where
  abbrev pub reply : Response → Action S Response
  reply response s = (ok response, s)

  abbrev pub refuse : String → Action S Response
  refuse msg = reply (bad_request_message msg)

  -- A call whose error is an internal error
  unfoldable pub answer : {A : Type 0} → (A → Payload) → Action S A → Action S Response
  answer show m s = (or_internal_error show (m s).0, (m s).1)

  -- c.Bind
  abbrev pub bound : {A : Type 0} → Result A → (A → Action S Response) → Action S Response
  bound (ok a) f = f a
  bound (err e) f = reply (bad_request e)
  bound panic f = λ s. (panic, s)
  bound lost f = λ s. (lost, s)

  -- A parameter that may be refused, with the message for that
  abbrev pub given : {A : Type 0} → Option A → String → (A → Action S Response) → Action S Response
  given none msg f = refuse msg
  given (some a) msg f = f a

-- `results[uri]`, which is 0 for a missing key
abbrev pub itr_at : Option ℕ → ℕ
itr_at none = 0
itr_at (some itr) = itr

module _ {S : Type 0} (services : Services S) where
  unfoldable pub handle_commit : Request → Action S Response
  unfolding answer
  handle_commit req =
      bound (services.bind_signed_document req.body)
        λ sd. answer (λ u. status_ok) (services.commit sd)

  unfoldable pub handle_register : Request → Action S Response
  unfolding answer
  handle_register req =
      bound (services.bind_register_request req.body)
        λ registration. answer (λ u. status_ok) (services.register registration)

  abbrev pub time_param : String → Option (Option Time)
  time_param value = if value == "" then some none else some_time (services.parse_rfc3339 value)

  unfoldable pub handle_query : Request → Action S Response
  unfolding answer
  handle_query req =
      if req.query_param "prefix" == ""
      then refuse "prefix parameter is required"
      else given (time_param (req.query_param "since")) "invalid since parameter" λ since.
        given (time_param (req.query_param "until")) "invalid until parameter" λ until.
          given (number_or (pos 10) (req.query_param "limit")) "invalid limit parameter" λ limit.
            given (or_asc (req.query_param "order")) "invalid order parameter" λ order.
              answer documents (
                services.query (req.query_param "prefix") (req.query_param "schema") since until
                  (clamp 100 limit) order)

  -- The URI and the chunk of the two routes of a chunkline
  abbrev pub with_chunk : Request → (String → ℤ → Action S Response) → Action S Response
  with_chunk req f = given (unescape segment (req.param "key")) "invalid key" λ key.
      given (parse_int (req.param "chunk")) "invalid chunk id"
        λ chunk. f (compose_cc_uri (req.param "owner") key) chunk

  unfoldable pub handle_chunkline_itr : Request → Action S Response
  unfolding answer unescape compose_cc_uri format_int lookup
  handle_chunkline_itr req = with_chunk req λ uri chunk.
      answer (λ results. text (format_int (pos (itr_at (lookup uri results)))))
        (services.lookup_local_itrs (uri ∷ []) chunk)

  unfoldable pub handle_chunkline_body : Request → Action S Response
  unfolding answer unescape compose_cc_uri
  handle_chunkline_body req =
      with_chunk req λ uri chunk. answer items (services.load_local_body uri chunk)

  -- time.Unix(until, 0), or the clock where there is no parameter
  abbrev pub until_param : String → (Time → Action S Response) → Action S Response
  until_param value f =
      if value == ""
      then services.now >>= f
      else given (parse_int value) "invalid until parameter"
          λ n. f (record { unix = n; nanosecond = 0 })

  unfoldable pub handle_timeline_recent : Request → Action S Response
  unfolding answer ◌>>=◌
  handle_timeline_recent req = until_param (req.query_param "until") λ until.
      given (number_or (pos 16) (req.query_param "limit")) "invalid limit parameter" λ limit.
        answer items
          (services.get_recent (split "," (req.query_param "uris")) until (clamp 64 limit))

  unfoldable pub handle_associations : Request → Action S Response
  unfolding answer
  handle_associations req =
      if req.query_param "uri" == ""
      then refuse "uri parameter is required"
      else answer document_list (
          services.get_associated_records (req.query_param "uri") (req.query_param "schema")
            (req.query_param "variant") (req.query_param "author"))

  unfoldable pub handle_association_counts : Request → Action S Response
  unfolding answer
  handle_association_counts req =
      if req.query_param "uri" == ""
      then refuse "uri parameter is required"
      else if req.query_param "schema" == ""
      then answer counts (services.get_associated_record_counts_by_schema (req.query_param "uri"))
      else answer ordered_counts (
          services.get_associated_record_counts_by_variant (req.query_param "uri")
            (req.query_param "schema"))
