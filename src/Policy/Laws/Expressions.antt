-- ===== src/Policy/Laws/Expressions.antt =====
-- What expressions compute: Boolean operators, failing arguments, loads and comparisons.
use concrnt_playground.Prelude.{
  ℕ, ◌+◌, String, ◌≡◌, refl, ap, ◌↔◌, Bool, true, false, not, Option, none, some, List, [], ◌∷◌,
  map, ◌&&◌, ◌||◌, All, arith, join, Lacks, split-join,
}
use concrnt_playground.Policy.{
  Value, null, bool, arr, str, obj, Expr, expr, Exprs, more, RequestContext,
}
use concrnt_playground.Policy.Path.{walk, get, resolve_dot_notation, struct_to_map}
use concrnt_playground.Policy.Eval.{
  EvalError, Outcome, done, failed, panics, any_eq, and_from, or_from, op_and, op_or, op_not, op_eq,
  op_load, apply_operator, eval, eval_args, collected, broken, loaded, done_or_panics,
}

-- Each expression gives the Boolean beside it.
abbrev pub AreBools : RequestContext → List Expr → List Bool → Type 0
AreBools ctx [] [] = Unit
AreBools ctx [] (b ∷ bs) = ⊥
AreBools ctx (e ∷ es) [] = ⊥
AreBools ctx (e ∷ es) (b ∷ bs) =
    ((op : String) × (eval ctx e ≡ done op (bool b))) × AreBools ctx es bs

abbrev pub exprs : List Expr → Exprs
exprs [] = Exprs.none
exprs (e ∷ es) = more e (exprs es)

abbrev pub call : String → List Expr → Expr
call op es = expr op (exprs es) null

abbrev pub all : List Bool → Bool
all [] = true
all (b ∷ bs) = b && all bs

abbrev pub any : List Bool → Bool
any [] = false
any (b ∷ bs) = b || any bs

eval_args-bools :
    (ctx : RequestContext) (es : List Expr) (bs : List Bool)
    → AreBools ctx es bs
    → eval_args ctx (exprs es) ≡ collected (map bool bs)
unfolding eval
eval_args-bools ctx [] [] h = refl
eval_args-bools ctx [] (b ∷ bs) h = elim h [ ]
eval_args-bools ctx (e ∷ es) [] h = elim h [ ]
eval_args-bools ctx (e ∷ es) (b ∷ bs) ((op, p), h) = rw (p, eval_args-bools ctx es bs h)

and_from-bools : (i : ℕ) (bs : List Bool) → and_from i (map bool bs) ≡ done "And" (bool (all bs))
unfolding and_from
and_from-bools i [] = refl
and_from-bools i (true ∷ bs) = and_from-bools (i + 1) bs
and_from-bools i (false ∷ bs) = refl

or_from-bools : (i : ℕ) (bs : List Bool) → or_from i (map bool bs) ≡ done "Or" (bool (any bs))
unfolding or_from
or_from-bools i [] = refl
or_from-bools i (false ∷ bs) = or_from-bools (i + 1) bs
or_from-bools i (true ∷ bs) = refl

-- On expressions that give Booleans, And gives their conjunction and Or their disjunction.
pub eval-connectives :
    (ctx : RequestContext) (es : List Expr) (bs : List Bool)
    → AreBools ctx es bs
    → (eval ctx (call "And" es) ≡ done "And" (bool (all bs)))
      × (eval ctx (call "Or" es) ≡ done "Or" (bool (any bs)))
unfolding eval apply_operator op_and op_or
eval-connectives ctx es bs h = (
  rw (eval_args-bools ctx es bs h) (and_from-bools 0 bs),
  rw (eval_args-bools ctx es bs h) (or_from-bools 0 bs),
)

eval-not :
    (ctx : RequestContext) (e : Expr) (op : String) (b : Bool)
    → eval ctx e ≡ done op (bool b)
    → eval ctx (call "Not" (e ∷ [])) ≡ done "Not" (bool (not b))
unfolding eval apply_operator op_not
eval-not ctx e op b h = rw h

abbrev pub nots : List Expr → List Expr
nots = map (λ e. call "Not" (e ∷ []))

AreBools-nots :
    (ctx : RequestContext) (es : List Expr) (bs : List Bool)
    → AreBools ctx es bs
    → AreBools ctx (nots es) (map not bs)
AreBools-nots ctx [] [] h = tt
AreBools-nots ctx [] (b ∷ bs) h = elim h [ ]
AreBools-nots ctx (e ∷ es) [] h = elim h [ ]
AreBools-nots ctx (e ∷ es) (b ∷ bs) ((op, p), h) =
    (("Not", eval-not ctx e op b p), AreBools-nots ctx es bs h)

any-not : (bs : List Bool) → any (map not bs) ≡ not (all bs)
any-not [] = refl
any-not (true ∷ bs) = any-not bs
any-not (false ∷ bs) = refl

abbrev pub result : Outcome → Option Value
result (done op v) = some v
result _ = none

-- On expressions that give Booleans, Not of And has the value of Or over the Nots.
pub eval_de_morgan :
    (ctx : RequestContext) (es : List Expr) (bs : List Bool)
    → AreBools ctx es bs
    → result (eval ctx (call "Not" (call "And" es ∷ []))) ≡ result (eval ctx (call "Or" (nots es)))
eval_de_morgan ctx es bs h = rw (
  eval-not ctx (call "And" es) "And" (all bs) (eval-connectives ctx es bs h).0,
  (eval-connectives ctx (nots es) (map not bs) (AreBools-nots ctx es bs h)).1,
  any-not bs,
)

-- Each expression gives a value.
abbrev pub AreDone : RequestContext → List Expr → Type 0
AreDone ctx = All (λ e. (op : String) × (v : Value) × (eval ctx e ≡ done op v))

abbrev pub before : List Expr → Expr → List Expr → List Expr
before [] e es = e ∷ es
before (d ∷ ds) e es = d ∷ before ds e es

eval_args-failed :
    (ctx : RequestContext) (ds : List Expr) (e : Expr) (es : List Expr) (op : String)
    (error : EvalError)
    → AreDone ctx ds
    → eval ctx e ≡ failed op error
    → eval_args ctx (exprs (before ds e es)) ≡ broken error
unfolding eval
eval_args-failed ctx [] e es op error h p = rw p
eval_args-failed ctx (d ∷ ds) e es op error ((o, v, q), h) p =
    rw (q, eval_args-failed ctx ds e es op error h p)

-- The first argument that fails makes the call fail with its error, for every operator: a false
-- argument of And before it, or a true one of Or, does not save the call.
pub eval-failed_argument :
    (ctx : RequestContext) (operator : String) (ds : List Expr) (e : Expr) (es : List Expr)
    (op : String) (error : EvalError)
    → AreDone ctx ds
    → eval ctx e ≡ failed op error
    → eval ctx (call operator (before ds e es)) ≡ failed operator error
unfolding eval
eval-failed_argument ctx operator ds e es op error h p =
    rw (eval_args-failed ctx ds e es op error h p)

walk_params :
    (ctx : RequestContext) (k : String) (ks : List String)
    → Lacks "." k
    → All (Lacks ".") ks
    → resolve_dot_notation (struct_to_map ctx) (join "." ("params" ∷ k ∷ ks))
      ≡ walk (k ∷ ks) ctx.params
unfolding resolve_dot_notation
walk_params ctx k ks h hs =
    rw (split-join "." "params" (k ∷ ks) (omega arith) (h, hs))
      (unfold walk get struct_to_map in refl)

-- Loading `params.k.ks…` walks down the parameters of the request, for keys that hold no dot.
pub eval_load_params :
    (ctx : RequestContext) (k : String) (ks : List String)
    → Lacks "." k
    → All (Lacks ".") ks
    → eval ctx (call "Load" (expr "" Exprs.none (str (join "." ("params" ∷ k ∷ ks))) ∷ []))
      ≡ loaded (join "." ("params" ∷ k ∷ ks)) (walk (k ∷ ks) ctx.params)
unfolding eval apply_operator op_load
eval_load_params ctx k ks h hs = ap (loaded _) (walk_params ctx k ks h hs)

abbrev pub AreContainers : Value → Value → Type 0
AreContainers (arr _) (arr _) = Unit
AreContainers (obj _) (obj _) = Unit
AreContainers _ _ = ⊥

any_eq-eq-none_iff : (v w : Value) → (any_eq v w ≡ none) ↔ AreContainers v w
unfolding any_eq
any_eq-eq-none_iff (bool true) w = ground arith
any_eq-eq-none_iff (bool false) w = ground arith
any_eq-eq-none_iff v w = ground arith

done_or_panics-eq-panics_iff :
    (op : String) (o : Option Bool) → (done_or_panics op o ≡ panics) ↔ (o ≡ none)
done_or_panics-eq-panics_iff op none = (λ _. refl, λ _. refl)
done_or_panics-eq-panics_iff op (some b) = (λ e. cc e, λ e. cc e)

-- Eq on two arguments that give values panics exactly when both are arrays or both are objects.
pub eval_eq-eq-panics_iff :
    (ctx : RequestContext) (a b : Expr) (op op' : String) (v w : Value)
    → eval ctx a ≡ done op v
    → eval ctx b ≡ done op' w
    → (eval ctx (call "Eq" (a ∷ b ∷ [])) ≡ panics) ↔ AreContainers v w
unfolding eval apply_operator op_eq
eval_eq-eq-panics_iff ctx a b op op' v w p q =
    let (f, g) = done_or_panics-eq-panics_iff "Eq" (any_eq v w) in
    let (f', g') = any_eq-eq-none_iff v w in rw (p, q) (λ e. f' (f e), λ c. g (g' c))
