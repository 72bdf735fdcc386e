-- ===== src/Registry/Laws.antt =====
-- What a registration leaves behind.
use concrnt_playground.Registry.{
  put_entity, put_meta, find_entity, EntityMeta, transaction, rolled_back, register_entity, Tables,
  Registry, Remote, Encoding, get_entity, EntityRow, register, upsert, RegisterRequest,
}
use concrnt_playground.Prelude.{
  on_ok, String, Bool, true, ◌≡◌, refl, subst, inl, inr, none, some, List, [], ◌∷◌, ◌==◌, string_eq,
  Result, ok, err, panic, lost, Bool-cases, eq_refl, arith,
}
use concrnt_playground.Store.{first, exists, update_where}
use concrnt_playground.Store.Rows.{first-append_new}

abbrev pub registered : String → String → RegisterRequest → EntityRow
registered author domain req = record {
  id = author;
  alias = none;
  domain = domain;
  tag = "";
  affiliation_document = req.affiliation_document;
  affiliation_signature = req.affiliation_signature;
}

first-update_all :
    {A : Type 0} (p : A → Bool) (row : A) (rows : List A)
    → exists p rows ≡ true
    → p row ≡ true
    → first p (update_where p (λ old. row) rows) ≡ some row
unfolding first exists update_where
first-update_all p row [] e h = cc
first-update_all p row (r ∷ rows) e h = ground (arith, first-update_all p row rows)

-- The row of an upsert is the one that a lookup finds.
first-upsert :
    {A : Type 0} (p : A → Bool) (row : A) (rows : List A)
    → p row ≡ true
    → first p (upsert p row rows) ≡ some row
first-upsert p row rows h = elim (Bool-cases (exists p rows)) [
  | inl t ↦ ground (arith, first-update_all p row rows t h)
  | inr f ↦ ground (arith, first-append_new p rows row f h)
]

pub found_again :
    (author : String) (row : EntityRow) (meta : EntityMeta) (tables : Tables)
    → row.id ≡ author
    → find_entity author (put_meta meta (put_entity row tables)) ≡ some row
unfolding find_entity
found_again author row meta tables e =
    subst
      (λ id. first (λ r. r.id == id) (upsert (λ r. r.id == row.id) row tables.entities) ≡ some row)
      e (first-upsert (λ r. r.id == row.id) row tables.entities (eq_refl row.id))

module _ {S : Type 0} where
  -- Where no statement fails, Register accepts an affiliation whose document decodes, whatever its
  -- signature is, and Get at its author then answers with it from the table, whatever the hint is,
  -- and asks no other server.
  pub get_entity-register :
      (encoding : Encoding) (req : RegisterRequest) (fqdn : String) (remote : Remote S)
      (hint author domain : String) (r : Registry S)
      → encoding.unmarshal_affiliation req.affiliation_document ≡ ok (author, domain)
      → r.faults ≡ []
      → ((register encoding req r).0 ≡ ok tt)
        × (get_entity fqdn remote author hint (register encoding req r).1
            ≡ (ok (registered author domain req), (register encoding req r).1))
  unfolding register get_entity
  get_entity-register encoding req fqdn remote hint author domain r d f =
      rw (d, f)
        (refl, rw (found_again author (registered author domain req) req.meta r.tables refl) refl)

  undone :
      (tables : Tables) (p : Result (Unit {0}) × Registry S)
      → ¬ ((rolled_back tables p).0 ≡ ok tt)
      → (rolled_back tables p).1.tables ≡ tables
  undone tables (ok tt, r) h = absurd (h refl)
  undone tables (err e, r) h = refl
  undone tables (panic, r) h = refl
  undone tables (lost, r) h = refl

  pub registered_or_not :
      (entity : EntityRow) (meta : EntityMeta) (r : Registry S)
      → ¬ ((register_entity entity meta r).0 ≡ ok tt)
      → (register_entity entity meta r).1.tables ≡ r.tables
  unfolding register_entity transaction
  registered_or_not entity meta r h = undone r.tables _ h

  -- A Register that fails, whichever statement fails, leaves the tables as they were.
  pub register-rolls_back :
      (encoding : Encoding) (req : RegisterRequest) (r : Registry S)
      → ¬ ((register encoding req r).0 ≡ ok tt)
      → (register encoding req r).1.tables ≡ r.tables
  unfolding register
  register-rolls_back encoding req r h =
      either (encoding.unmarshal_affiliation req.affiliation_document) h
    where
      either :
          (doc : Result (String × String))
          → ¬ ((on_ok doc (λ d. register_entity (registered d.0 d.1 req) req.meta) r).0 ≡ ok tt)
          → (on_ok doc (λ d. register_entity (registered d.0 d.1 req) req.meta) r).1.tables
            ≡ r.tables
      either (ok d) h = registered_or_not (registered d.0 d.1 req) req.meta r h
      either (err e) h = refl
      either panic h = refl
      either lost h = refl
