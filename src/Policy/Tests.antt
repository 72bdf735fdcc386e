-- ===== src/Policy/Tests.antt =====
-- Concrete runs of the policy evaluator, and its theorems at concrete inputs.
use concrnt_playground.Prelude.{
  String, join, ◌≡◌, refl, inl, inr, true, false, List, [], ◌∷◌, ok, arith, lookup, ◌↔◌,
}
use concrnt_playground.Policy.{
  unset, okay, allow, deny, Value, null, bool, str, arr, nil, Fields, RequestContext, Expr, expr,
  Exprs, Stmt, PolicyDocument, parse_conclusion, or,
}
use concrnt_playground.Policy.Path.{get, walk, resolve_dot_notation, struct_to_map}
use concrnt_playground.Policy.Eval.{
  done, failed, panics, eval, apply_operator, op_eq, op_load, any_eq, key_not_found, loaded,
}
use concrnt_playground.Policy.Document.{evaluate_policy, summarize_conclusion}
use concrnt_playground.Policy.Laws.Conclusions.{
  summarize_conclusion_lem, undecided, first_decision, fold, evaluate_policy-unopposed,
  evaluate_policy_order,
}
use concrnt_playground.Policy.Laws.Expressions.{
  call, nots, result, eval-connectives, eval_de_morgan, eval-failed_argument, eval_load_params,
  eval_eq-eq-panics_iff, AreContainers,
}

abbrev alice : RequestContext
alice = record {
  requester = null;
  requester_domain = null;
  parent = null;
  this = null;
  params = Fields.field "user" (str "alice") (Fields.field "role" (str "admin") Fields.end);
}

abbrev const : Value → Expr
const v = expr "" Exprs.none v

abbrev load : Expr
load = call "Load" (const (str "params.role") ∷ [])

-- The case of policy/policy_test.go.
eval_test : eval alice (call "Eq" (load ∷ const (str "admin") ∷ [])) ≡ done "Eq" (bool true)
unfolding eval apply_operator op_eq op_load any_eq resolve_dot_notation walk get struct_to_map
eval_test = refl

eval_missing_key :
    eval alice (call "Not" (call "Load" (const (str "params.age") ∷ []) ∷ []))
    ≡ failed "Not" (key_not_found "params.age")
unfolding eval apply_operator op_load resolve_dot_notation walk get struct_to_map
eval_missing_key = refl

abbrev booleans : List Expr
booleans = const (bool true) ∷ const (bool false) ∷ []

eval-connectives_test :
    (eval alice (call "And" booleans) ≡ done "And" (bool false))
    × (eval alice (call "Or" booleans) ≡ done "Or" (bool true))
unfolding eval
eval-connectives_test =
    eval-connectives alice booleans (true ∷ false ∷ []) (("Const", refl), (("Const", refl), tt))

eval_de_morgan_test :
    result (eval alice (call "Not" (call "And" booleans ∷ [])))
    ≡ result (eval alice (call "Or" (nots booleans)))
unfolding eval
eval_de_morgan_test =
    eval_de_morgan alice booleans (true ∷ false ∷ []) (("Const", refl), (("Const", refl), tt))

eval-failed_argument_test :
    eval alice (call "And" (const (bool false) ∷ call "Load" (const (str "x") ∷ []) ∷ []))
    ≡ failed "And" (key_not_found "x")
unfolding eval apply_operator op_load resolve_dot_notation walk get struct_to_map
eval-failed_argument_test =
    eval-failed_argument alice "And" (const (bool false) ∷ []) (call "Load" (const (str "x") ∷ []))
      [] "Load" (key_not_found "x") (("Const", bool false, refl), tt) refl

eval_load_params_test :
    eval alice (call "Load" (expr "" Exprs.none (str "params.role") ∷ []))
    ≡ loaded "params.role" (walk ("role" ∷ []) alice.params)
unfolding join
eval_load_params_test = eval_load_params alice "role" [] (omega arith) tt

abbrev empty_array : Value
empty_array = arr nil

eval_eq-eq-panics_iff_example :
    (eval alice (call "Eq" (const empty_array ∷ const empty_array ∷ [])) ≡ panics)
    ↔ AreContainers empty_array empty_array
unfolding eval
eval_eq-eq-panics_iff_example =
    eval_eq-eq-panics_iff alice (const empty_array) (const empty_array) "Const" "Const" empty_array
      empty_array refl refl

abbrev emits : String → Stmt
emits s = record { emit = s; condition = const (bool true) }

abbrev document : PolicyDocument
document = record {
  name = "p";
  description = "";
  versions =
      (
        "2024-01-01",
        record {
          statements =
              ("read", emits "ok" ∷ emits "deny" ∷ [])
              ∷ ("last", emits "allow" ∷ emits "allow" ∷ emits "deny" ∷ [])
              ∷ ("first", emits "deny" ∷ emits "allow" ∷ emits "allow" ∷ [])
              ∷ [];
          defaults = [];
        },
      )
      ∷ [];
}

evaluate_policy-unopposed_example : evaluate_policy document alice "read" ≡ ok deny
unfolding lookup eval parse_conclusion
evaluate_policy-unopposed_example =
    evaluate_policy-unopposed deny allow document _ alice "read" _ (inr (refl, refl)) refl refl
      ((λ e. cc e), ((λ e. cc e), tt)) ((λ e. cc e), ((λ e. cc e), tt)) (inr (inl refl))

evaluate_policy_order_test :
    (evaluate_policy document alice "first" ≡ ok allow)
    × (evaluate_policy document alice "last" ≡ ok unset)
unfolding lookup eval parse_conclusion
evaluate_policy_order_test =
    evaluate_policy_order document _ alice "first" "last" (emits "allow") (emits "allow")
      (emits "deny") refl refl refl ((λ e. cc e), ((λ e. cc e), ((λ e. cc e), tt))) refl

-- An ok alone does not let a request through, even where the default would.
summarize_lone_ok : summarize_conclusion (okay ∷ []) true ≡ false
unfolding summarize_conclusion or
summarize_lone_ok = refl

-- An ok alone is no allow.
summarize_conclusion_lem_test :
    summarize_conclusion (unset ∷ okay ∷ []) true
    ≡ undecided (first_decision (unset ∷ okay ∷ [])) (fold unset (unset ∷ okay ∷ [])) true
summarize_conclusion_lem_test = summarize_conclusion_lem (unset ∷ okay ∷ []) true

lone_ok : summarize_conclusion (okay ∷ []) true ≡ false
unfolding summarize_conclusion or
lone_ok = refl
