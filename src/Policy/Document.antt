-- ===== src/Policy/Document.antt =====
-- `EvaluatePolicy` and `SummerizeConclusion` of policy/functions.go.
use concrnt_playground.Prelude.{
  String, Bool, true, false, Option, none, some, List, [], ◌∷◌, Result, ok, err, panic, lost,
  message, if◌then◌else◌, lookup,
}
use concrnt_playground.Policy.{
  Conclusion, unset, allow, deny, conclusion_eq, or, parse_conclusion, bool, RequestContext, Stmt,
  Policy, PolicyDocument,
}
use concrnt_playground.Policy.Eval.{Outcome, done, failed, panics, eval}

-- One round of the loop over the statements: a failing condition is passed over, and a panic
-- leaves the call.
unfoldable pub step : Conclusion → Stmt → Outcome → Result Conclusion
step c stmt (done op (bool true)) = ok (or c (parse_conclusion stmt.emit))
step c stmt (done op _) = ok c
step c stmt (failed op e) = ok c
step c stmt panics = panic

unfoldable pub evaluate_from : RequestContext → Conclusion → List Stmt → Result Conclusion
evaluate_from ctx c [] = ok c
evaluate_from ctx c (stmt ∷ stmts) = elim (step c stmt (eval ctx stmt.condition)) [
  | ok c' ↦ evaluate_from ctx c' stmts
  | err e ↦ err e
  | panic ↦ panic
  | lost ↦ lost
]

-- The statements of an action: none where the action has no entry.
abbrev evaluate_action : RequestContext → Option (List Stmt) → Result Conclusion
evaluate_action ctx none = ok unset
evaluate_action ctx (some stmts) = evaluate_from ctx unset stmts

abbrev evaluate_version : RequestContext → String → Option Policy → Result Conclusion
evaluate_version ctx action none = err (message "unsupported policy version")
evaluate_version ctx action (some policy) = evaluate_action ctx (lookup action policy.statements)

unfoldable pub evaluate_policy : PolicyDocument → RequestContext → String → Result Conclusion
unfolding evaluate_from
evaluate_policy doc ctx action = evaluate_version ctx action (lookup "2024-01-01" doc.versions)

-- The loop of SummerizeConclusion, whose `result` is the second argument.
unfoldable pub summarize_from : List Conclusion → Conclusion → Bool → Bool
summarize_from [] result default_allow =
    if conclusion_eq result unset then default_allow else conclusion_eq result allow
summarize_from (allow ∷ cs) result default_allow = true
summarize_from (deny ∷ cs) result default_allow = false
summarize_from (c ∷ cs) result default_allow = summarize_from cs (or result c) default_allow

unfoldable pub summarize_conclusion : List Conclusion → Bool → Bool
unfolding summarize_from
summarize_conclusion cs default_allow = summarize_from cs unset default_allow
