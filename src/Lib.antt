-- ===== src/Lib.antt =====
-- concrnt-playground: a server of a federated network, in Go. A client signs a document and posts
-- it; the server checks the signature, and stores the document as a record under a URI
-- `cc://owner/key`, or as an association to a record, or deletes a record by it. Records are read
-- back by their URIs. Policies say what a request may do, and tokens say who sends it.
--
-- The parts and the files that model them:
--   Prelude: Boolean tests, lists, maps as lists of pairs, strings.Split and strings.Join, and
--     `Result`, what comes of a Go call: a value, an error, a panic, or nothing at all (`lost`: a
--     deadlock or an overflow of the stack). `not_found` is NotFoundError of
--     internal/domain/errors.go. Prelude.Int has the signed integers.
--   Url: what the code uses of net/url and path, written after the standard library.
--   Uri: utils.go; ParseCCURI, ComposeCCURI, IsCCID, IsCSID, IsCKID. Uri.Plain and Uri.RoundTrip
--     follow a URI through the escapes and back; Uri.Ids is about the ids.
--   Cdid: cdid/cdid.go; New, SetTime, GetTime, Bytes, String, Parse, IsCDIDChar. Cdid.Base32 is
--     encoding/base32 without padding, Cdid.Stamp the six bytes of the time.
--   Policy: policy/types.go; Policy.Path is policy/utils.go, Policy.Eval policy/operators.go and
--     Eval of policy/functions.go, Policy.Document its EvaluatePolicy and SummerizeConclusion.
--   Document: types.go and schemas; `Codec` stands for encoding/json and the hashes.
--   Store: internal/infra/database/models; the tables, and `apply`, what each statement does to
--     them, cascades included. Store.Tx has the transactions, Store.Keeps the rules by which a
--     property is carried along the steps of one, Store.Rows what lookups find.
--   Repository: internal/infra/repository/record.go; Create (CreateRecord), Parents
--     (getOrCreateParentRecordKey), Associate (CreateAssociation, CreateAck), Remove (Delete), Read
--     (GetDocument, GetSignedDocument, getCommitByURI, getRecordByURI, GetRecordKeyByURI), Query
--     (Query, GetAssociatedRecords and the two counts). Under Repository.Laws, Steps, Stages and
--     Returns carry properties along the steps of a transaction, and Atomic, ReadBack, Parents,
--     Removal and Queried draw the conclusions.
--   Store.Sorting, Store.Pages, Store.Joined and Store.Like: ORDER BY with LIMIT and what a page of it
--     is, the join of keys and records, and LIKE.
--   OrderedMap: internal/utils/orderedkv.go; OrderedMap.Insertion stands for its sort.Slice.
--   Chunkline: internal/infra/repository/chunkline.go and internal/usecase/chunkline.go. Laws is
--     about what a body lists, Dates about the ends of a chunk, Served about the two routes together;
--     Gateway is internal/infra/gateway/chunkline_gateway.go.
--   Client: client/client.go; Laws says when its calls come back, Cached what its cache saves.
--   Registry: the repositories and usecases of entities (Register, Get) and servers (Resolve), over an
--     interface `Remote` that `remote` fills with the client.
--   Rest: internal/present/rest; Routes and Resource have the handlers, over an interface `Services`
--     that Rest.System fills the way cmd/concrnt/main.go does. Laws and Found are about the routes.
--   Signal: internal/service/signal.go and handleRealtime of internal/present/rest/handler.go, as
--     steps of goroutines. Wanted has the invariant, Safety that each step keeps it, Delivery what can
--     happen next.
--   Prelude.Action: calls that change a state, and the rules for what they keep and whether they come
--     back. Decimal is strconv.FormatInt.
--   Crypto: crypto.go; VerifySignature, PubkeyBytesToAddr. Crypto.Signing has SignBytes, GetHash,
--     PubkeyToAddr and PrivKeyToAddr. `Curve` and `Signer` stand for the libraries.
--   Usecase: Commit of internal/usecase/record.go, over an interface `RecordRepository` that
--     `repository` fills with the operations of Repository.
--   Jwt: jwt; Create and Validate, over SignBytes and VerifySignature. `Encoding` stands for base64
--     and JSON.
--   Auth: internal/service/auth.go (AuthJwt) and internal/present/rest/middleware/auth.go
--     (IdentifyIdentity).
--   Tag: tag.go.
--
-- How they interact: Auth and Usecase check signatures by Crypto. Usecase calls Repository, which
-- reads and composes URIs by Uri, makes ids by Cdid, and runs its statements by Store.Tx. Rest calls
-- Usecase, Repository, Chunkline and Registry; Registry and Chunkline.Gateway call Client, which asks
-- other servers. Repository publishes the events that Signal delivers.
--
-- Strings are Go's strings of bytes: a character stands for the byte of its code. Numbers are
-- native; a machine integer has its wrap-around written out. An instant of the database is its
-- nanoseconds since 1970. A transaction runs on what is committed and its own writes; each
-- statement, and each call of the signal service, takes an answer from `faults` and fails where
-- that is true, so a theorem about every list of faults is one about every way to fail. A
-- transaction that another one starts on a connection of its own (CreateRecord inside CreateRecord)
-- sees only what is committed, and an insert of a URI that the outer one holds is `lost`.
--
-- Fuel: CreateRecord and getOrCreateParentRecordKey recurse, and their first argument is how many
-- calls the stack still holds. `Reaches` counts the steps from a URI up to the root; one call more
-- than that is enough, and for a URI that is its own parent no number is. GetEntity and GetServer of
-- the client recurse through each other in the same way; three calls are enough where the default
-- resolver is a domain name.
--
-- An event comes out of the JSON in which Publish sends it as it went in, or does not decode, and then
-- the subscription drops it.
--
-- Reads outside a transaction take no faults: a statement of theirs that fails is an error, or counts
-- as a missing row, where the code says so, and changes nothing.
--
-- Parameters: JSON, base64 and Bech32 texts, Keccak and xxh3 hashes, the curve, the answers of other
-- servers, the expiry of caches, time.Parse, the glob patterns of Redis, and the chunkline library.
-- Nothing is assumed of them but what a theorem names as a hypothesis.
--
-- Not modelled: tracing, which only observes; instants so far from 1970 that the driver of the
-- database cannot carry them; and the start-up code but for its wiring, which is I/O.
pub mod Chunkline
pub mod Client
pub mod Decimal
pub mod Prelude
pub mod Policy
pub mod Cdid
pub mod Url
pub mod Uri
pub mod Document
pub mod OrderedMap
pub mod Signal
pub mod Store
pub mod Registry
pub mod Repository
pub mod Rest
pub mod Crypto
pub mod Usecase
pub mod Jwt
pub mod Auth
pub mod Tag
