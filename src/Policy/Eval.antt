-- ===== src/Policy/Eval.antt =====
-- policy/operators.go and `Eval` of policy/functions.go.
use concrnt_playground.Prelude.{
  ℕ, ◌+◌, String, Bool, true, false, not, Option, none, some, List, [], ◌∷◌, ◌==◌, nat_eq,
  string_eq, if◌then◌else◌, length,
}
use concrnt_playground.Policy.{
  Value, null, bool, num, str, arr, obj, RequestContext, Expr, expr, Exprs, more, values,
}
use concrnt_playground.Policy.Path.{resolve_dot_notation, struct_to_map}

-- The errors that the evaluator builds.
pub data EvalError : Type 0 where
  bad_type : (operator : String) → (index : ℕ) → EvalError
  bad_length : (operator : String) → (expected got : ℕ) → EvalError
  key_not_found : String → EvalError
  unknown_operator : String → EvalError

-- `(EvalResult, error)`: `done` has the fields Operator and Result, `failed` has Operator and the
-- error, which is also the text in the field Error; `Args` is never set. `==` panics where both
-- sides are slices or both are maps.
pub data Outcome : Type 0 where
  done : String → Value → Outcome
  failed : String → EvalError → Outcome
  panics : Outcome

-- `a == b` on two `any`: `none` is the panic.
unfoldable pub any_eq : Value → Value → Option Bool
any_eq null null = some true
any_eq (bool true) (bool b) = some b
any_eq (bool false) (bool b) = some (not b)
any_eq (num a) (num b) = some (a == b)
any_eq (str a) (str b) = some (a == b)
any_eq (arr _) (arr _) = none
any_eq (obj _) (obj _) = none
any_eq _ _ = some false

-- slices.Contains
unfoldable pub contains : List Value → Value → Option Bool
contains [] v = some false
contains (w ∷ ws) v =
    let rest = contains ws v in
    elim (any_eq w v) [ some false ↦ rest | some true ↦ some true | none ↦ none ]

abbrev pub done_or_panics : String → Option Bool → Outcome
done_or_panics op none = panics
done_or_panics op (some b) = done op (bool b)

-- The loops of opAnd and opOr from index `i`.
unfoldable pub and_from : ℕ → List Value → Outcome
and_from i [] = done "And" (bool true)
and_from i (bool false ∷ args) = done "And" (bool false)
and_from i (bool true ∷ args) = and_from (i + 1) args
and_from i (_ ∷ args) = failed "And" (bad_type "AND" i)

unfoldable pub or_from : ℕ → List Value → Outcome
or_from i [] = done "Or" (bool false)
or_from i (bool true ∷ args) = done "Or" (bool true)
or_from i (bool false ∷ args) = or_from (i + 1) args
or_from i (_ ∷ args) = failed "Or" (bad_type "OR" i)

unfoldable pub op_and : RequestContext → List Value → Outcome
unfolding and_from
op_and ctx args = and_from 0 args

unfoldable pub op_or : RequestContext → List Value → Outcome
unfolding or_from
op_or ctx args = or_from 0 args

unfoldable pub op_not : RequestContext → List Value → Outcome
op_not ctx (bool b ∷ []) = done "Not" (bool (not b))
op_not ctx (_ ∷ []) = failed "Not" (bad_type "NOT" 0)
op_not ctx args = failed "Not" (bad_length "NOT" 1 (length args))

unfoldable pub op_eq : RequestContext → List Value → Outcome
op_eq ctx (a ∷ b ∷ []) = done_or_panics "Eq" (any_eq a b)
op_eq ctx args = failed "Eq" (bad_length "EQ" 2 (length args))

unfoldable pub op_contains : RequestContext → List Value → Outcome
op_contains ctx (arr vs ∷ v ∷ []) = done_or_panics "Contains" (contains (values vs) v)
op_contains ctx (_ ∷ _ ∷ []) = failed "Contains" (bad_type "CONTAINS" 0)
op_contains ctx args = failed "Contains" (bad_length "CONTAINS" 2 (length args))

abbrev pub loaded : String → Option Value → Outcome
loaded key none = failed "Load" (key_not_found key)
loaded key (some v) = done "Load" v

unfoldable pub op_load : RequestContext → List Value → Outcome
op_load ctx (str key ∷ []) = loaded key (resolve_dot_notation (struct_to_map ctx) key)
op_load ctx (_ ∷ []) = failed "Load" (bad_type "Load" 0)
op_load ctx args = failed "Load" (bad_length "Load" 1 (length args))

-- The table that `init` fills, applied to the arguments.
unfoldable pub apply_operator : String → RequestContext → List Value → Outcome
apply_operator op ctx args =
    if op == "And"
    then op_and ctx args
    else if op == "Or"
    then op_or ctx args
    else if op == "Not"
    then op_not ctx args
    else if op == "Eq"
    then op_eq ctx args
    else if op == "Contains"
    then op_contains ctx args
    else if op == "Load"
    then op_load ctx args
    else failed op (unknown_operator op)

-- The arguments evaluated so far, or what ended the loop over them.
pub data Args : Type 0 where
  collected : List Value → Args
  broken : EvalError → Args
  unwound : Args

abbrev pub push_arg : Outcome → Args → Args
push_arg (done op v) (collected vs) = collected (v ∷ vs)
push_arg (done op v) rest = rest
push_arg (failed op e) rest = broken e
push_arg panics rest = unwound

abbrev pub finish : String → RequestContext → Args → Outcome
finish op ctx (collected vs) = apply_operator op ctx vs
finish op ctx (broken e) = failed op e
finish op ctx unwound = panics

unfoldable mutual
  pub eval : RequestContext → Expr → Outcome
  eval ctx (expr op args null) = finish op ctx (eval_args ctx args)
  eval ctx (expr op args const) = done "Const" const

  -- The loop over `expr.Args`: the first failure ends it.
  pub eval_args : RequestContext → Exprs → Args
  eval_args ctx Exprs.none = collected []
  eval_args ctx (more e es) = push_arg (eval ctx e) (eval_args ctx es)
