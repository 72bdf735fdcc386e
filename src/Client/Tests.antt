-- ===== src/Client/Tests.antt =====
-- A network of one server, and the theorems on the client in it.
use concrnt_playground.Client.{get_server_by, get_entity_by, is_csid, calls, Session, Client}
use concrnt_playground.Prelude.{
  ℕ, suc, String, Bool, false, ◌≡◌, refl, none, some, List, [], ◌∷◌, ◌==◌, string_eq, if◌then◌else◌,
  Result, ok, err, message,
}
use concrnt_playground.Prelude.Action.{Halts}
use concrnt_playground.Document.{Entity, WellKnownConcrnt}
use concrnt_playground.Client.Laws.{IsAnswering, calls-Halts}
use concrnt_playground.Client.Cached.{get_entity-again}

abbrev pub alice : String
alice = "con1alice000000000000000000000000000000000"

abbrev pub entity_of_alice : Entity
entity_of_alice = record {
  ccid = alice;
  domain = "example.com";
  affiliation_document = "{}";
  affiliation_signature = "00";
}

abbrev pub example : WellKnownConcrnt
example = record {
  version = "2.0";
  domain = "example.com";
  csid = "ccs1example";
  layer = "main";
  endpoints =
      (
        "net.concrnt.resource",
        record { template = "/resource/{uri}"; method = "GET"; query = none },
      )
      ∷ [];
  software_info = record { version = ""; build_machine = ""; build_time = ""; go_version = "" };
}

-- Every request is answered, with its URL.
abbrev pub network : String → Client
network resolver = record {
  default_resolver = resolver;
  fetch = λ tick url accept. ok url;
  expired = λ tick key. false;
  decode_entity = λ body. ok entity_of_alice;
  decode_server = λ body. ok example;
}

abbrev pub fresh : Session
fresh = record { entities = []; servers = []; tick = 0; requests = [] }

network-IsAnswering : IsAnswering (network "example.com")
network-IsAnswering = record {
  fetch = λ tick url accept e. cc e;
  entity = λ body e. cc e;
  server = λ body e. cc e;
}

-- Two requests: who the server is, and the entity.
asked_test :
    ((calls (network "example.com") 3).get_entity alice "" fresh).1.requests
    ≡ "https://example.com/resource/cc%3A%2F%2Fcon1alice000000000000000000000000000000000"
      ∷ "https://example.com/.well-known/concrnt" ∷ []
unfolding calls concrnt_playground.Url.Parse.split_authority
asked_test = refl

calls-Halts_example :
    ((address hint : String) → Halts ((calls (network "example.com") 3).get_entity address hint))
    × ((id : String) → Halts ((calls (network "example.com") 3).get_server id))
    × ((id hint : String)
        → Halts (get_server_by (network "example.com") (calls (network "example.com") 2) id hint))
unfolding concrnt_playground.Uri.is_csid
calls-Halts_example = calls-Halts (network "example.com") network-IsAnswering (λ e. cc e) refl 0

abbrev known : Session
known = record fresh { entities = (alice, entity_of_alice) ∷ [] }

known_test :
    get_entity_by (network "example.com") (calls (network "example.com") 2) alice "" known
    ≡ (ok entity_of_alice, known)
unfolding get_entity_by
known_test = refl

get_entity-again_test :
    get_entity_by
      (network "example.com")
      (calls (network "example.com") 2)
      alice
      "other.example"
      known
    ≡ (ok entity_of_alice, known)
get_entity-again_test =
    get_entity-again (network "example.com") (calls (network "example.com") 2) alice ""
      "other.example" known known entity_of_alice known_test refl

-- An entity is kept under the address that was asked for, whatever entity the hinted server gave.
poisoned_test :
    (get_entity_by (network "") (calls (network "") 1) "con1bob" "evil.example" fresh).1.entities
    ≡ ("con1bob", entity_of_alice) ∷ []
unfolding get_entity_by calls concrnt_playground.Url.Parse.split_authority
    concrnt_playground.Prelude.insert
poisoned_test = refl
