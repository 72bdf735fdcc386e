-- ===== src/Policy.antt =====
-- policy/types.go: conclusions, expressions, statements and the values that they compute.
pub mod Path
pub mod Eval
pub mod Document
pub mod Laws
mod Tests
use concrnt_playground.Prelude.{
  ℕ, String, Bool, true, false, List, [], ◌∷◌, ◌||◌, ◌&&◌, ◌==◌, string_eq, if◌then◌else◌,
}

-- policy.Conclusion
pub data Conclusion : Type 0 where
  unset okay ng allow deny : Conclusion

abbrev pub conclusion_eq : Conclusion → Conclusion → Bool
conclusion_eq unset unset = true
conclusion_eq okay okay = true
conclusion_eq ng ng = true
conclusion_eq allow allow = true
conclusion_eq deny deny = true
conclusion_eq _ _ = false

unfoldable pub parse_conclusion : String → Conclusion
parse_conclusion s =
    if s == "allow"
    then allow
    else if s == "deny"
    then deny
    else if s == "ok"
    then okay
    else if s == "ng"
    then ng
    else unset

-- Conclusion.Or
unfoldable pub or : Conclusion → Conclusion → Conclusion
or c other =
    if conclusion_eq c unset
    then other
    else if conclusion_eq other unset
    then c
    else if conclusion_eq c deny && conclusion_eq other allow
        || conclusion_eq c allow && conclusion_eq other deny
    then unset
    else if conclusion_eq c deny || conclusion_eq other deny
    then deny
    else if conclusion_eq c allow || conclusion_eq other allow
    then allow
    else if conclusion_eq c okay && conclusion_eq other ng
        || conclusion_eq c ng && conclusion_eq other okay
    then unset
    else if conclusion_eq c okay || conclusion_eq other okay
    then okay
    else if conclusion_eq c ng || conclusion_eq other ng
    then ng
    else unset

-- What an `any` holds that came from JSON. The evaluator only compares numbers, so a float64 is
-- its place among the float64 values in their order, zero and minus zero being one.
mutual
  pub data Value : Type 0 where
    null : Value
    bool : Bool → Value
    num : ℕ → Value
    obj : Fields → Value
    arr : Items → Value
    str : String → Value

  pub data Fields : Type 0 where
    end : Fields
    field : String → Value → Fields → Fields

  pub data Items : Type 0 where
    nil : Items
    cons : Value → Items → Items

abbrev pub values : Items → List Value
values nil = []
values (cons v vs) = v ∷ values vs

-- policy.RequestContext
pub record RequestContext : Type 0 where
  pub requester : Value
  pub requester_domain : Value
  pub parent : Value
  pub this : Value
  pub params : Fields

-- policy.Expr: the operator, the arguments and `Const`, which is `null` where it is nil.
mutual
  pub data Expr : Type 0 where
    expr : (operator : String) → (args : Exprs) → (const : Value) → Expr

  pub data Exprs : Type 0 where
    none : Exprs
    more : Expr → Exprs → Exprs

-- policy.Stmt
pub record Stmt : Type 0 where
  pub emit : String
  pub condition : Expr

-- policy.Policy
pub record Policy : Type 0 where
  pub statements : List (String × List Stmt)
  pub defaults : List (String × Bool)

-- policy.PolicyDocument
pub record PolicyDocument : Type 0 where
  pub name : String
  pub description : String
  pub versions : List (String × Policy)
