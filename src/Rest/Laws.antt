-- ===== src/Rest/Laws.antt =====
-- What the routes promise for requests of any kind.
use concrnt_playground.Rest.System.{services, System, Setup}
use concrnt_playground.Rest.{
  status_ok, or_internal_error, bad_request_message, documents, Response, Request, Services,
}
use concrnt_playground.Rest.Routes.{
  number_or, answer, time_param, handle_commit, handle_query, given, refuse, or_asc, clamp,
}
use concrnt_playground.Prelude.{
  ok_injective, ℕ, String, ◌≤◌, ◌≡◌, ◌≢◌, refl, sym, ap, ◌∙◌, ◌⊎◌, inl, inr, Bool, true, false, not,
  ◌&&◌, Option, none, some, ◌==◌, string_eq, ltb, if◌then◌else◌, Result, ok, err, panic, lost,
  eq_iff, arith,
}
use concrnt_playground.Prelude.Int.{ℤ, pos, negsuc}
use concrnt_playground.Prelude.Action.{Action}
use concrnt_playground.Cdid.Stamp.{Time}
use concrnt_playground.Document.{Document, SignedDocument}
use concrnt_playground.Usecase.Laws.{IsSigned, commit-unsigned}
use concrnt_playground.Usecase.{repository}
use concrnt_playground.Rest.Routes

abbrev pub AtMost : ℕ → ℤ → Type 0
AtMost most (pos n) = n ≤ most
AtMost most (negsuc n) = Unit

clamped : (most n : ℕ) (b : Bool) → ltb most n ≡ b → AtMost most (if b then pos most else pos n)
clamped most n true e = omega arith
clamped most n false e = ground arith

clamp-AtMost : (most : ℕ) (limit : ℤ) → AtMost most (clamp most limit)
clamp-AtMost most (pos n) = clamped most n (ltb most n) refl
clamp-AtMost most (negsuc n) = tt

-- A request to /query that reaches the database.
pub record IsQueryCall {S : Type 0} (services : Services S) (req : Request) (s : S)
    (answer : Result Response × S) : Type 0 where
  pub since : Option Time
  pub until : Option Time
  pub limit : ℤ
  pub order : String
  pub prefixed : ¬ (req.query_param "prefix" ≡ "")
  pub bounded : AtMost 100 limit
  pub ordered : (order ≡ "asc") ⊎ (order ≡ "desc")
  pub called :
      answer
      ≡ Routes.answer documents
          (services.query
            (req.query_param "prefix")
            (req.query_param "schema")
            since
            until
            limit
            order)
          s

some_injective : {A : Type 0} (a b : A) → some a ≡ some b → a ≡ b
some_injective a b e = cc

chosen_order :
    (order chosen : String) (empty asc desc : Bool)
    → (order == "asc") ≡ asc
    → (order == "desc") ≡ desc
    → (if empty then some "asc" else if not asc && not desc then none else some order) ≡ some chosen
    → (chosen ≡ "asc") ⊎ (chosen ≡ "desc")
chosen_order order chosen true asc desc a d e = inl (sym (some_injective _ _ e))
chosen_order order chosen false true desc a d e =
    inl (sym (some_injective _ _ e) ∙ (eq_iff order "asc").0 a)
chosen_order order chosen false false true a d e =
    inr (sym (some_injective _ _ e) ∙ (eq_iff order "desc").0 d)
chosen_order order chosen false false false a d e = absurd cc

-- An answer that is a refusal which leaves the state as it was, or is as `P` says.
module _ {S : Type 0} (s : S) (P : Result Response × S → Type 0) where
  abbrev pub Refused : Result Response × S → Type 0
  Refused answer = ((msg : String) × (answer ≡ (ok (bad_request_message msg), s))) ⊎ P answer

  Refused-if :
      (b : Bool) (msg : String) (m : Action S Response)
      → (b ≡ false → Refused (m s))
      → Refused ((if b then refuse msg else m) s)
  Refused-if true msg m h = inl (msg, refl)
  Refused-if false msg m h = h refl

  Refused-given :
      {A : Type 0} (o : Option A) (msg : String) (f : A → Action S Response)
      → ((a : A) → o ≡ some a → Refused (f a s))
      → Refused (given o msg f s)
  Refused-given none msg f h = inl (msg, refl)
  Refused-given (some a) msg f h = h a refl

-- A request to /query is refused with status 400, or it runs one query of a prefix that is not empty,
-- in ascending or descending order, with a limit of at most 100, and answers with what comes of that.
pub handle_query-IsQueryCall :
    {S : Type 0} (services : Services S) (req : Request) (s : S)
    → Refused s (IsQueryCall services req s) (handle_query services req s)
unfolding handle_query
handle_query-IsQueryCall services req s =
    Refused-if s (IsQueryCall services req s) (req.query_param "prefix" == "") _ _ λ p.
      Refused-given s (IsQueryCall services req s) (time_param services (req.query_param "since")) _
        _
        λ since _.
          Refused-given s (IsQueryCall services req s)
            (time_param services (req.query_param "until")) _ _
            λ until _.
              Refused-given s (IsQueryCall services req s)
                (number_or (pos 10) (req.query_param "limit")) _ _
                λ limit _.
                  Refused-given s (IsQueryCall services req s) (or_asc (req.query_param "order")) _
                    _
                    λ order o. inr (record {
                      since = since;
                      until = until;
                      limit = clamp 100 limit;
                      order = order;
                      prefixed = λ e. cc (p, (eq_iff (req.query_param "prefix") "").1 e);
                      bounded = clamp-AtMost 100 limit;
                      ordered = chosen_order (req.query_param "order") order _ _ _ refl refl o;
                      called = refl;
                    })

not_success :
    (r : Result (Unit {0}))
    → r ≢ ok tt
    → (response : Response) → or_internal_error (λ u. status_ok) r ≡ ok response
    → response.status ≢ 200
not_success (ok tt) n response e = absurd (n refl)
not_success (err x) n response e = λ f.
    let g : 500 ≡ response.status = ap (λ r. r.status) (ok_injective _ response e) in omega arith
not_success panic n response e = cc
not_success lost n response e = cc

-- POST /commit of a document that its author has not signed does not answer with status 200, and
-- leaves the whole server as it was.
pub handle_commit-unsigned :
    (setup : Setup) (req : Request) (sd : SignedDocument) (s : System)
    → setup.bind_signed_document req.body ≡ ok sd
    → ((doc : Document)
        → setup.codec.unmarshal sd.document ≡ ok doc
        → ¬ IsSigned setup.curve sd doc.author)
    → ((response : Response)
        → (handle_commit (services setup) req s).0 ≡ ok response
        → response.status ≢ 200)
      × ((handle_commit (services setup) req s).1 ≡ s)
unfolding handle_commit answer
handle_commit-unsigned setup req sd s b h =
    let (fails, same) =
      commit-unsigned (repository setup.codec setup.depth) setup.codec setup.curve sd s.world h in
    rw b (not_success _ fails, ap (λ w. record s { world = w }) same)
