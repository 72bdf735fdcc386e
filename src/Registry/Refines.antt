-- ===== src/Registry/Refines.antt =====
-- The table of entities implements a map from ids to entities, and a registration an assignment to it.
use concrnt_playground.Registry.{
  RegisterRequest, Encoding, register, rolled_back, upsert, put_entity, answer, put_meta,
  transaction, Registry, EntityMeta, register_entity, write, statement, find_entity, Tables,
  EntityRow,
}
use concrnt_playground.Prelude.{
  String, Bool, true, false, ◌≡◌, refl, sym, subst, ap, ◌∙◌, inl, inr, Option, some, List, [], ◌∷◌,
  ◌==◌, string_eq, if◌then◌else◌, Result, ok, err, panic, lost, Bool-cases, eq_iff, arith, on_ok,
}
use concrnt_playground.Prelude.Action.{Action, ◌>>=◌, ◌>>◌, modify, bind-ok}
use concrnt_playground.Store.{first, exists, update_where}
use concrnt_playground.Store.Rows.{first-append_other}
use concrnt_playground.Registry.Laws.{found_again, registered, registered_or_not}

-- The abstract view, which forgets the order of the rows.
abbrev pub Entities : Type 0
Entities = String → Option EntityRow

abbrev pub entities_of : Tables → Entities
entities_of tables id = find_entity id tables

abbrev pub assign : String → EntityRow → Entities → Entities
assign key row entities id = if key == id then some row else entities id

-- An update of the rows with one id is not seen at another.
first-update_other :
    (row : EntityRow) (id : String) (rows : List EntityRow)
    → (row.id == id) ≡ false
    → first (λ e. e.id == id) (update_where (λ e. e.id == row.id) (λ old. row) rows)
      ≡ first (λ e. e.id == id) rows
unfolding first update_where
first-update_other row id [] n = refl
first-update_other row id (r ∷ rows) n = elim (Bool-cases (r.id == row.id)) [
  | inl t ↦ ground (arith, first-update_other row id rows n, clash t)
  | inr f ↦ ground (arith, first-update_other row id rows n)
]
  where
    clash : (r.id == row.id) ≡ true → (r.id == id) ≡ false
    clash t = ap (λ x. x == id) ((eq_iff r.id row.id).0 t) ∙ n

first-upsert_other :
    (row : EntityRow) (id : String) (rows : List EntityRow)
    → (row.id == id) ≡ false
    → first (λ e. e.id == id) (upsert (λ e. e.id == row.id) row rows) ≡ first (λ e. e.id == id) rows
first-upsert_other row id rows n = elim (Bool-cases (exists (λ e. e.id == row.id) rows)) [
  | inl t ↦ ground (arith, first-update_other row id rows n)
  | inr f ↦ ground (arith, first-append_other (λ e. e.id == id) rows row n)
]

put_other :
    (row : EntityRow) (meta : EntityMeta) (tables : Tables) (id : String)
    → (row.id == id) ≡ false
    → find_entity id (put_meta meta (put_entity row tables)) ≡ find_entity id tables
unfolding find_entity
put_other row meta tables id n = first-upsert_other row id tables.entities n

put_entity-assign :
    (row : EntityRow) (meta : EntityMeta) (tables : Tables) (id : String)
    → find_entity id (put_meta meta (put_entity row tables))
      ≡ assign row.id row (entities_of tables) id
put_entity-assign row meta tables id = elim (Bool-cases (row.id == id)) [
  | inl t ↦ ground (arith, found_again id row meta tables ((eq_iff row.id id).0 t))
  | inr f ↦ ground (arith, put_other row meta tables id f)
]

module _ {S : Type 0} where
  statement-tables : (r t : Registry S) → statement r ≡ (ok tt, t) → t.tables ≡ r.tables
  unfolding statement
  statement-tables r t e = answered r.faults e
    where
      answered : (fs : List Bool) → answer fs r ≡ (ok tt, t) → t.tables ≡ r.tables
      answered [] e = ap (λ o. o.1.tables) (sym e)
      answered (true ∷ fs) e = absurd cc
      answered (false ∷ fs) e = ap (λ o. o.1.tables) (sym e)

  write-tables :
      (change : Tables → Tables) (r t : Registry S)
      → write change r ≡ (ok tt, t)
      → t.tables ≡ change r.tables
  unfolding write modify
  write-tables change r t e =
      let (u, q, f, g) =
        bind-ok statement (λ u. modify (λ r. record r { tables = change r.tables })) r t tt e in
      ap (λ o. o.1.tables) (sym g) ∙ ap change (statement-tables r q f)

  register_entity-tables :
      (entity : EntityRow) (meta : EntityMeta) (r : Registry S)
      → (register_entity entity meta r).0 ≡ ok tt
      → (register_entity entity meta r).1.tables ≡ put_meta meta (put_entity entity r.tables)
  unfolding register_entity transaction
  register_entity-tables entity meta r e = kept ((writes >> statement) r) refl e
    where
      writes : Action (Registry S) (Unit {0})
      writes = write (put_entity entity) >>= λ u. write (put_meta meta)

      kept :
          (o : Result (Unit {0}) × Registry S)
          → (writes >> statement) r ≡ o
          → (rolled_back r.tables o).0 ≡ ok tt
          → (rolled_back r.tables o).1.tables ≡ put_meta meta (put_entity entity r.tables)
      kept (ok tt, t) f e =
          let (u, q, g, h) = bind-ok writes (λ u. statement) r t tt f in
          let (v, p, k, l) =
            bind-ok (write (put_entity entity)) (λ u. write (put_meta meta)) r q tt g in
          statement-tables q t h
          ∙ (write-tables (put_meta meta) p q l
              ∙ ap (put_meta meta) (write-tables (put_entity entity) r p k))
      kept (err x, t) f e = absurd cc
      kept (panic, t) f e = absurd cc
      kept (lost, t) f e = absurd cc

  -- What comes of a call, as the abstract map sees it: the assignment where it returned nil, and
  -- otherwise nothing.
  pub record IsAssignment (key : String) (row : EntityRow) (before : Tables)
      (outcome : Result (Unit {0}) × Registry S) : Type 0 where
    pub done :
        outcome.0 ≡ ok tt
        → (id : String) → entities_of outcome.1.tables id ≡ assign key row (entities_of before) id
    pub undone :
        ¬ (outcome.0 ≡ ok tt)
        → (id : String) → entities_of outcome.1.tables id ≡ entities_of before id

  register_entity-IsAssignment :
      (entity : EntityRow) (meta : EntityMeta) (r : Registry S)
      → IsAssignment entity.id entity r.tables (register_entity entity meta r)
  register_entity-IsAssignment entity meta r = record {
    done = λ e id.
        ap (find_entity id) (register_entity-tables entity meta r e)
        ∙ put_entity-assign entity meta r.tables id;
    undone = λ n id. ap (find_entity id) (registered_or_not entity meta r n);
  }

  -- Register implements an assignment to a map from ids to entities, whichever statements fail: where
  -- it returns nil, the author of the affiliation is mapped to it, and every other id is mapped as
  -- before; where it does not, all are.
  pub register-IsAssignment :
      (encoding : Encoding) (req : RegisterRequest) (author domain : String) (r : Registry S)
      → encoding.unmarshal_affiliation req.affiliation_document ≡ ok (author, domain)
      → IsAssignment author (registered author domain req) r.tables (register encoding req r)
  unfolding register
  register-IsAssignment encoding req author domain r d =
      subst (IsAssignment author (registered author domain req) r.tables)
        (sym (ap (λ doc. on_ok doc (λ d. register_entity (registered d.0 d.1 req) req.meta) r) d))
        (register_entity-IsAssignment (registered author domain req) req.meta r)
