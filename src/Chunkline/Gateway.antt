-- ===== src/Chunkline/Gateway.antt =====
-- internal/infra/gateway/chunkline_gateway.go: what the chunkline library asks of other servers.
use Prim.Native.String.{◌++◌}
use concrnt_playground.Prelude.{
  ℕ, String, Bool, Option, none, some, List, [], ◌∷◌, ◌==◌, string_eq, if◌then◌else◌, Result, ok,
  err, panic, message, lookup, insert, map,
}
use concrnt_playground.Prelude.Int.{ℤ, pos}
use concrnt_playground.Prelude.Action.{Action, ◌>>=◌, ◌>>◌, pure, lift, annotated, get, modify}
use concrnt_playground.Cdid.Stamp.{Time}
use concrnt_playground.Decimal.{format_int}
use concrnt_playground.Jwt.{parse_int}
use concrnt_playground.Url.Bytes.{replace_all}
use concrnt_playground.Uri.{parse_cc_uri}
use concrnt_playground.Client.{
  Client, Session, Calls, get_resource, http_request, http_request_text,
}
use concrnt_playground.Chunkline.{BodyItem}

-- chunkline.Manifest as another server sends it, with the iterator and the body of `Descending`; a
-- nil pointer is `none`, and reading a field through it panics.
pub record RemoteManifest : Type 0 where
  pub chunk_size : ℤ
  pub first_chunk : ℤ
  pub descending : Option (String × String)

-- chunkline.BodyChunk
pub record BodyChunk : Type 0 where
  pub uri : String
  pub chunk_id : ℤ
  pub items : List BodyItem

-- The calls of the client, what encoding/json reads, Manifest.Time2Chunk of the chunkline library,
-- and which manifests have expired in the cache after so many requests.
pub record Resolver : Type 0 where
  pub client : Client
  pub calls : Calls
  pub decode_manifest : String → Result RemoteManifest
  pub decode_items : String → Result (List BodyItem)
  pub time_to_chunk : RemoteManifest → Time → ℤ
  pub expired : ℕ → String → Bool

pub record GatewayState : Type 0 where
  pub manifests : List (String × RemoteManifest)
  pub session : Session

abbrev pub remotely : {A : Type 0} → Action Session A → Action GatewayState A
remotely m s = ((m s.session).0, record s { session = (m s.session).1 })

abbrev pub keep_manifest : String → RemoteManifest → GatewayState → GatewayState
keep_manifest timeline manifest s = record s { manifests = insert timeline manifest s.manifests }

-- The zero value, which a map gives for a missing key.
abbrev pub zero_manifest : RemoteManifest
zero_manifest = record { chunk_size = pos 0; first_chunk = pos 0; descending = none }

abbrev pub manifest_at : String → List (String × RemoteManifest) → RemoteManifest
manifest_at timeline manifests = elim (lookup timeline manifests) [
  | none ↦ zero_manifest
  | some manifest ↦ manifest
]

module _ (resolver : Resolver) where
  unfoldable pub cached_manifest : String → GatewayState → Option RemoteManifest
  unfolding lookup
  cached_manifest timeline s =
      if resolver.expired s.session.tick timeline then none else lookup timeline s.manifests

  abbrev pub put_cached :
      String
      → Option RemoteManifest
      → List (String × RemoteManifest) × List String
      → List (String × RemoteManifest) × List String
  put_cached timeline (some manifest) (result, remaining) =
      (insert timeline manifest result, remaining)
  put_cached timeline none (result, remaining) = (result, timeline ∷ remaining)

  -- The first loop of ResolveTimelines: the manifests in the cache, and the timelines that are left,
  -- in their order.
  unfoldable pub from_cache :
      List String → GatewayState → List (String × RemoteManifest) × List String
  unfolding cached_manifest insert
  from_cache [] s = ([], [])
  from_cache (timeline ∷ timelines) s =
      put_cached timeline (cached_manifest timeline s) (from_cache timelines s)

  -- The second loop, which asks for what is left.
  unfoldable pub fetch_rest :
      List String
      → List (String × RemoteManifest)
      → Action GatewayState (List (String × RemoteManifest))
  unfolding get_resource ◌>>=◌ pure annotated modify insert
  fetch_rest [] result = pure result
  fetch_rest (timeline ∷ timelines) result = do
    manifest ← annotated ("failed to resolve timeline " ++ timeline) (
        remotely (
          get_resource resolver.client resolver.calls resolver.decode_manifest timeline
            "application/chunkline+json" ""))
    modify (keep_manifest timeline manifest)
    fetch_rest timelines (insert timeline manifest result)

  -- resolver.ResolveTimelines
  unfoldable pub resolve_timelines :
      List String → Action GatewayState (List (String × RemoteManifest))
  unfolding from_cache fetch_rest ◌>>=◌ get
  resolve_timelines timelines = do found ← get (from_cache timelines); fetch_rest found.1 found.0

  -- resolver.GetRemovedItems
  unfoldable pub get_removed_items : List String → List (String × List String)
  unfolding insert
  get_removed_items [] = []
  get_removed_items (timeline ∷ timelines) = insert timeline [] (get_removed_items timelines)

  abbrev pub iterator_of : String → RemoteManifest → Result String
  iterator_of timeline manifest = elim manifest.descending [
    | none ↦ panic
    | some (iterator, body) ↦
        if iterator == ""
        then err (message ("timeline " ++ (timeline ++ " does not support descending iteration")))
        else ok iterator
  ]

  -- The loop of LookupChunkItrs
  unfoldable pub lookup_from :
      List (String × RemoteManifest)
      → Time
      → List String
      → List (String × String)
      → Action GatewayState (List (String × String))
  unfolding http_request_text ◌>>=◌ pure annotated lift insert parse_cc_uri format_int replace_all
      lookup
  lookup_from manifests until [] results = pure results
  lookup_from manifests until (timeline ∷ timelines) results = do
    iterator ← lift (iterator_of timeline (manifest_at timeline manifests))
    parsed ← annotated ("failed to parse timeline URI " ++ timeline) (lift (parse_cc_uri timeline))
    result ← remotely (
        http_request_text resolver.client resolver.calls parsed.0 (
          replace_all "{chunk}"
            (format_int (resolver.time_to_chunk (manifest_at timeline manifests) until)) iterator))
    lookup_from manifests until timelines (insert timeline result results)

  -- resolver.LookupChunkItrs
  unfoldable pub lookup_chunk_itrs :
      List String → Time → Action GatewayState (List (String × String))
  unfolding resolve_timelines lookup_from ◌>>=◌
  lookup_chunk_itrs timelines until = do
    manifests ← resolve_timelines timelines
    lookup_from manifests until timelines []

  abbrev pub chunk_id_of : String → Result ℤ
  chunk_id_of itr = elim (parse_int itr) [
    | none ↦ err (message ("invalid chunk ID " ++ itr))
    | some n ↦ ok n
  ]

  abbrev pub body_path : String → RemoteManifest → Result String
  body_path itr manifest = elim manifest.descending [
    | none ↦ panic
    | some (iterator, body) ↦ ok (replace_all "{chunk}" itr body)
  ]

  -- The loop of LoadChunkBodies
  unfoldable pub load_from :
      List (String × RemoteManifest)
      → List (String × String)
      → List (String × BodyChunk)
      → Action GatewayState (List (String × BodyChunk))
  unfolding http_request ◌>>=◌ pure annotated lift insert parse_cc_uri replace_all lookup
  load_from manifests [] result = pure result
  load_from manifests ((timeline, itr) ∷ query) result = do
    parsed ← annotated ("failed to parse timeline URI " ++ timeline) (lift (parse_cc_uri timeline))
    path ← lift (body_path itr (manifest_at timeline manifests))
    items ←
        remotely (http_request resolver.client resolver.calls resolver.decode_items parsed.0 path)
    chunk_id ← lift (chunk_id_of itr)
    load_from manifests query
        (insert timeline (record { uri = timeline; chunk_id = chunk_id; items = items }) result)

  -- resolver.LoadChunkBodies, on a query in the order in which Go happens to range over it
  unfoldable pub load_chunk_bodies :
      List (String × String) → Action GatewayState (List (String × BodyChunk))
  unfolding resolve_timelines load_from ◌>>=◌
  load_chunk_bodies query = do
    manifests ← resolve_timelines (map (λ entry. entry.0) query)
    load_from manifests query []
