-- ===== src/Registry/Tests.antt =====
-- A registration, and the theorems on the registry at it.
use concrnt_playground.Registry.{get_entity, register, Registry, RegisterRequest, Remote, Encoding}
use concrnt_playground.Prelude.{Bool, true, false, ◌≡◌, refl, none, List, [], ◌∷◌, ok, err, message}
use concrnt_playground.Registry.Refines.{IsAssignment, register-IsAssignment}
use concrnt_playground.Registry.Laws.{registered, get_entity-register}

abbrev encoding : Encoding
encoding = record {
  unmarshal_affiliation = λ s. ok ("con1alice", "example.com");
  unmarshal_server = λ s. err (message "unexpected end of JSON input");
  marshal_server = λ wkc. ok wkc.domain;
}

abbrev offline : Remote (Unit {0})
offline = record {
  get_entity = λ address hint s. (err (message "offline"), s);
  get_server = λ id hint s. (err (message "offline"), s);
}

abbrev request : RegisterRequest
request = record {
  affiliation_document = "{}";
  affiliation_signature = "not a signature";
  meta = record { id = "con1alice"; inviter = none; info = "null" };
}

abbrev empty : List Bool → Registry (Unit {0})
empty faults = record {
  tables = record { entities = []; metas = []; servers = [] };
  faults = faults;
  session = tt;
}

get_entity-register_example :
    ((register encoding request (empty [])).0 ≡ ok tt)
    × (get_entity "example.com" offline "con1alice" "" (register encoding request (empty [])).1 ≡ (
      ok (registered "con1alice" "example.com" request),
      (register encoding request (empty [])).1,
    ))
get_entity-register_example =
    get_entity-register encoding request "example.com" offline "" "con1alice" "example.com"
      (empty []) refl refl

-- The second INSERT fails, and the first one is undone.
undone_test : (register encoding request (empty (false ∷ true ∷ []))).1.tables ≡ (empty []).tables
unfolding register
undone_test = refl

register-IsAssignment_example :
    IsAssignment "con1alice"
      (registered "con1alice" "example.com" request)
      (empty []).tables
      (register encoding request (empty (false ∷ true ∷ [])))
register-IsAssignment_example =
    register-IsAssignment encoding request "con1alice" "example.com" (empty (false ∷ true ∷ []))
      refl
