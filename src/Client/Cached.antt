-- ===== src/Client/Cached.antt =====
-- What the client's cache saves, and where an empty default resolver leads.
use concrnt_playground.Client.{
  get_resource, keep_entity, or_fetch_entity, get_entity_by, cached_entity, Session, Calls, calls,
  Client,
}
use concrnt_playground.Prelude.{
  lookup-insert_own, String, false, ◌≡◌, refl, subst, ap, ◌∙◌, Option, none, some, ◌==◌, string_eq,
  if◌then◌else◌, ok, lookup, arith,
}
use Prim.Native.String.{◌++◌}
use concrnt_playground.Prelude.Action.{
  ended, Action, ◌>>=◌, ◌>>◌, pure, annotated, get, modify, bind-ok,
}
use concrnt_playground.Document.{Entity}

module _ (client : Client) (calls : Calls) where
  or_fetch-kept :
      (address hint : String) (found : Option Entity) (s t : Session) (entity : Entity)
      → cached_entity client address s ≡ found
      → or_fetch_entity client calls address hint found s ≡ (ok entity, t)
      → client.expired t.tick ("entity:" ++ address) ≡ false
      → cached_entity client address t ≡ some entity
  unfolding pure cached_entity modify ◌>>=◌
  or_fetch-kept address hint (some found) s t entity c e f =
      let (p, q) = ended found entity s t e in
      subst (λ u. cached_entity client address u ≡ some entity) q (c ∙ ap some p)
  or_fetch-kept address hint none s t entity c e f =
      let (fetched, u, g, h) =
        bind-ok
          (annotated "failed to get entity" (
            get_resource client calls client.decode_entity ("cc://" ++ address) "application/json"
              (if hint == "" then client.default_resolver else hint)))
          (λ entity. modify (keep_entity address entity) >> pure entity) s t entity e in
      let (p, q) = ended fetched entity (keep_entity address fetched u) t h in
      let k : lookup address t.entities ≡ some entity =
        subst (λ v. lookup address v.entities ≡ some entity) q
          (lookup-insert_own address fetched u.entities ∙ ap some p) in
      ground arith

  -- Where GetEntity answers, and the entry has not expired by then, the next call answers the same,
  -- whatever it hints, and requests nothing.
  pub get_entity-again :
      (address hint other : String) (s t : Session) (entity : Entity)
      → get_entity_by client calls address hint s ≡ (ok entity, t)
      → client.expired t.tick ("entity:" ++ address) ≡ false
      → get_entity_by client calls address other t ≡ (ok entity, t)
  unfolding get_entity_by get ◌>>=◌
  get_entity-again address hint other s t entity e f =
      let h = or_fetch-kept address hint _ s t entity refl e f in
      ap (λ c. or_fetch_entity client calls address other c t) h
