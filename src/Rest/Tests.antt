-- ===== src/Rest/Tests.antt =====
-- Requests to a server, and the theorems on the routes at them.
use concrnt_playground.Rest.Routes.{handle_commit, handle_query}
use concrnt_playground.Rest.{Response, Request, Config}
use concrnt_playground.Prelude.{
  String, ◌≡◌, ◌≢◌, refl, none, [], ◌==◌, string_eq, if◌then◌else◌, ok, err, message,
}
use concrnt_playground.Prelude.Int.{pos}
use concrnt_playground.Document.{SignedDocument, Document}
use concrnt_playground.Crypto.Tests.{toy}
use concrnt_playground.Usecase.Laws.{IsSigned}
use concrnt_playground.Client.Tests.{network, fresh}
use concrnt_playground.Repository.QueryTests.{timeline, codec}
use concrnt_playground.Rest.Resource.{handle_resource}
use concrnt_playground.Rest.System.{System, Setup, services}
use concrnt_playground.Rest.Laws.{
  Refused, IsQueryCall, handle_query-IsQueryCall, handle_commit-unsigned,
}
use concrnt_playground.Rest.Found.{resource_at, handle_resource-resource_at}

abbrev pub config : Config
config = record { fqdn = "example.com"; layer = "main"; csid = "ccs1example" }

abbrev posted : SignedDocument
posted = record { document = "d1"; proof = record { type = "none"; signature = none; href = none } }

abbrev pub setup : Setup
setup = record {
  config = config;
  codec = codec;
  curve = toy;
  encoding = record {
    unmarshal_affiliation = λ s. err (message "unexpected end of JSON input");
    unmarshal_server = λ s. err (message "unexpected end of JSON input");
    marshal_server = λ wkc. ok wkc.domain;
  };
  client = network "example.com";
  depth = 5;
  now = record { unix = pos 1200; nanosecond = 0 };
  query_descending = λ uris until limit s. (ok [], s);
  bind_signed_document = λ s. ok posted;
  bind_register_request = λ s. err (message "unexpected end of JSON input");
  parse_rfc3339 = λ s. none;
}

abbrev pub running : System
running = record {
  world = record {
    db = timeline;
    next_id = 5;
    clock = 1300;
    published = [];
    faults = [];
    locked = [];
  };
  tables = record { entities = []; metas = []; servers = [] };
  session = fresh;
  manifests = [];
}

abbrev pub get_request : (String → String) → (String → String) → Request
get_request param query_param = record {
  param = param;
  query_param = query_param;
  accept = "";
  body = "";
}

abbrev pub nothing : String → String
nothing name = ""

abbrev limited : String → String → String
limited limit name =
    if name == "prefix" then "cc://con1alice/home/" else if name == "limit" then limit else ""

-- The limit -1 passes the clamp, and is no limit.
unlimited_test :
    handle_query (services setup) (get_request nothing (limited "-1")) running
    ≡ handle_query (services setup) (get_request nothing (limited "100")) running
unfolding handle_query concrnt_playground.Repository.Query.query concrnt_playground.Jwt.parse_int
unlimited_test = refl

handle_query-IsQueryCall_example :
    Refused running
      (IsQueryCall (services setup) (get_request nothing (limited "2")) running)
      (handle_query (services setup) (get_request nothing (limited "2")) running)
handle_query-IsQueryCall_example =
    handle_query-IsQueryCall (services setup) (get_request nothing (limited "2")) running

not-IsSigned :
    (doc : Document) → codec.unmarshal posted.document ≡ ok doc → ¬ IsSigned toy posted doc.author
not-IsSigned doc h (text, signature, t, s, d, i) = absurd (cc s)

handle_commit-unsigned_example :
    ((response : Response)
      → (handle_commit (services setup) (get_request nothing nothing) running).0 ≡ ok response
      → response.status ≢ 200)
    × ((handle_commit (services setup) (get_request nothing nothing) running).1 ≡ running)
handle_commit-unsigned_example =
    handle_commit-unsigned setup (get_request nothing nothing) posted running refl not-IsSigned

abbrev at_uri : String → String
at_uri name = "cc://con1alice/home/a"

handle_resource-resource_at_example :
    handle_resource config (services setup) (get_request at_uri nothing) running
    ≡ resource_at (services setup) (get_request at_uri nothing) "cc://con1alice/home/a" running
unfolding concrnt_playground.Url.Bytes.every concrnt_playground.Url.Bytes.is_one_of
handle_resource-resource_at_example =
    handle_resource-resource_at config (services setup) (get_request at_uri nothing) "con1alice"
      "home/a" running refl (λ e. cc e, refl) refl
