-- ===== src/Policy/Laws/Conclusions.antt =====
-- The conclusions that statements and several policies add up to.
use mathlib.Core.List.{foldl}
use concrnt_playground.Prelude.{
  String, ◌≡◌, ◌≢◌, ◌⊎◌, inl, inr, refl, Bool, true, false, Option, none, some, List, [], ◌∷◌, map,
  ◌∙◌, ok, ◌&&◌, lookup, All, arith, ap,
}
use concrnt_playground.Policy.{
  Conclusion, unset, okay, ng, allow, deny, conclusion_eq, or, parse_conclusion, bool,
  RequestContext, Stmt, Policy, PolicyDocument,
}
use concrnt_playground.Policy.Eval.{Outcome, done, panics, eval}
use concrnt_playground.Policy.Document.{
  step, evaluate_from, evaluate_policy, summarize_from, summarize_conclusion,
}

pub or_comm : (c d : Conclusion) → or c d ≡ or d c
unfolding or
or_comm unset d = ground arith
or_comm okay d = ground arith
or_comm ng d = ground arith
or_comm allow d = ground arith
or_comm deny d = ground arith

-- The first conclusion of a list that allows or denies.
abbrev pub first_decision : List Conclusion → Option Bool
first_decision [] = none
first_decision (allow ∷ cs) = some true
first_decision (deny ∷ cs) = some false
first_decision (unset ∷ cs) = first_decision cs
first_decision (okay ∷ cs) = first_decision cs
first_decision (ng ∷ cs) = first_decision cs

-- The answer where nothing allows or denies: the default, and only while the rest cancels out.
abbrev pub undecided : Option Bool → Conclusion → Bool → Bool
undecided (some b) c default_allow = b
undecided none c default_allow = conclusion_eq c unset && default_allow

abbrev pub IsMild : Conclusion → Type 0
IsMild c = (c ≢ allow) × (c ≢ deny)

or-IsMild : (c d : Conclusion) → IsMild c → IsMild d → IsMild (or c d)
unfolding or
or-IsMild unset d h k = ground arith
or-IsMild okay d h k = ground arith
or-IsMild ng d h k = ground arith
or-IsMild allow d h k = ground arith
or-IsMild deny d h k = ground arith

abbrev pub fold : Conclusion → List Conclusion → Conclusion
fold = foldl or

summarize_from_lem :
    (cs : List Conclusion) (c : Conclusion) (d : Bool)
    → IsMild c
    → summarize_from cs c d ≡ undecided (first_decision cs) (fold c cs) d
unfolding summarize_from
summarize_from_lem [] c d h = ground arith
summarize_from_lem (allow ∷ cs) c d h = refl
summarize_from_lem (deny ∷ cs) c d h = refl
summarize_from_lem (unset ∷ cs) c d h =
    summarize_from_lem cs (or c unset) d (or-IsMild c unset h (ground arith))
summarize_from_lem (okay ∷ cs) c d h =
    summarize_from_lem cs (or c okay) d (or-IsMild c okay h (ground arith))
summarize_from_lem (ng ∷ cs) c d h =
    summarize_from_lem cs (or c ng) d (or-IsMild c ng h (ground arith))

-- SummerizeConclusion answers by the first conclusion that allows or denies. Where none does, it
-- answers by the default if the conclusions add up to nothing, and denies otherwise.
pub summarize_conclusion_lem :
    (cs : List Conclusion) (default_allow : Bool)
    → summarize_conclusion cs default_allow
      ≡ undecided (first_decision cs) (fold unset cs) default_allow
unfolding summarize_conclusion
summarize_conclusion_lem cs d = summarize_from_lem cs unset d (ground arith)

-- What a statement adds, given how its condition came out.
abbrev pub contribution : Outcome → Stmt → Conclusion
contribution (done op (bool true)) stmt = parse_conclusion stmt.emit
contribution _ stmt = unset

abbrev pub contributions : RequestContext → List Stmt → List Conclusion
contributions ctx = map (λ stmt. contribution (eval ctx stmt.condition) stmt)

abbrev pub NoPanic : RequestContext → List Stmt → Type 0
NoPanic ctx = All (λ stmt. eval ctx stmt.condition ≢ panics)

or_unset : (c : Conclusion) → or c unset ≡ c
unfolding or
or_unset unset = refl
or_unset okay = refl
or_unset ng = refl
or_unset allow = refl
or_unset deny = refl

step-contribution :
    (c : Conclusion) (stmt : Stmt) (o : Outcome)
    → o ≢ panics
    → step c stmt o ≡ ok (or c (contribution o stmt))
unfolding step
step-contribution c stmt (done op (bool true)) h = refl
step-contribution c stmt panics h = absurd (h refl)
step-contribution c stmt o h = rw or_unset

evaluate_from-fold :
    (ctx : RequestContext) (c : Conclusion) (stmts : List Stmt)
    → NoPanic ctx stmts
    → evaluate_from ctx c stmts ≡ ok (fold c (contributions ctx stmts))
unfolding evaluate_from
evaluate_from-fold ctx c [] h = refl
evaluate_from-fold ctx c (stmt ∷ stmts) (p, h) =
    rw (step-contribution c stmt (eval ctx stmt.condition) p, evaluate_from)
      (evaluate_from-fold ctx (or c (contribution (eval ctx stmt.condition) stmt)) stmts h)

-- `winner` is allow or deny, `loser` the other.
abbrev pub AreOpposed : Conclusion → Conclusion → Type 0
AreOpposed winner loser = ((winner ≡ allow) × (loser ≡ deny)) ⊎ ((winner ≡ deny) × (loser ≡ allow))

or-winner :
    (winner loser c : Conclusion) → AreOpposed winner loser → c ≢ loser → or winner c ≡ winner
unfolding or
or-winner winner loser unset o h = ground arith
or-winner winner loser okay o h = ground arith
or-winner winner loser ng o h = ground arith
or-winner winner loser allow o h = ground arith
or-winner winner loser deny o h = ground arith

or-ne-loser :
    (winner loser c d : Conclusion)
    → AreOpposed winner loser
    → c ≢ loser
    → d ≢ loser
    → or c d ≢ loser
unfolding or
or-ne-loser winner loser unset d o h k = ground arith
or-ne-loser winner loser okay d o h k = ground arith
or-ne-loser winner loser ng d o h k = ground arith
or-ne-loser winner loser allow d o h k = ground arith
or-ne-loser winner loser deny d o h k = ground arith

abbrev pub Occurs : Conclusion → List Conclusion → Type 0
Occurs c [] = ⊥
Occurs c (d ∷ ds) = (d ≡ c) ⊎ Occurs c ds

module _ (winner loser : Conclusion) (opposed : AreOpposed winner loser) where
  fold-winner : (cs : List Conclusion) → All (λ c. c ≢ loser) cs → fold winner cs ≡ winner
  fold-winner [] h = refl
  fold-winner (c ∷ cs) (p, h) = rw (or-winner winner loser c opposed p) (fold-winner cs h)

  fold-Occurs :
      (c : Conclusion) (cs : List Conclusion)
      → c ≢ loser
      → All (λ d. d ≢ loser) cs
      → Occurs winner cs
      → fold c cs ≡ winner
  fold-Occurs c [] h ps o = elim o [ ]
  fold-Occurs c (d ∷ cs) h (p, ps) (inl e) =
      let same : or c d ≡ winner =
        or_comm c d ∙ ap (λ x. or x c) e ∙ or-winner winner loser c opposed h in
      rw same (fold-winner cs ps)
  fold-Occurs c (d ∷ cs) h (p, ps) (inr o) =
      fold-Occurs (or c d) cs (or-ne-loser winner loser c d opposed h p) ps o

-- A policy whose statements for the action allow in one place and deny nowhere, and of which no
-- condition panics, gives allow, in whatever order they stand; with allow and deny exchanged, it
-- gives deny.
pub evaluate_policy-unopposed :
    (winner loser : Conclusion) (doc : PolicyDocument) (policy : Policy) (ctx : RequestContext)
    (action : String) (stmts : List Stmt)
    → AreOpposed winner loser
    → lookup "2024-01-01" doc.versions ≡ some policy
    → lookup action policy.statements ≡ some stmts
    → NoPanic ctx stmts
    → All (λ c. c ≢ loser) (contributions ctx stmts)
    → Occurs winner (contributions ctx stmts)
    → evaluate_policy doc ctx action ≡ ok winner
unfolding evaluate_policy
evaluate_policy-unopposed winner loser doc policy ctx action stmts opposed v a safe none_loses
      wins =
    rw v (
      rw a (
        rw (evaluate_from-fold ctx unset stmts safe) (
          ap ok (
            fold-Occurs winner loser opposed unset (contributions ctx stmts) (ground arith)
              none_loses wins))))

-- Where one statement denies and two allow, the answer hangs on the order: nothing is concluded
-- when the deny stands last, and allow when it stands first.
pub evaluate_policy_order :
    (doc : PolicyDocument) (policy : Policy) (ctx : RequestContext) (first last : String)
    (a b c : Stmt)
    → lookup "2024-01-01" doc.versions ≡ some policy
    → lookup first policy.statements ≡ some (c ∷ a ∷ b ∷ [])
    → lookup last policy.statements ≡ some (a ∷ b ∷ c ∷ [])
    → NoPanic ctx (a ∷ b ∷ c ∷ [])
    → contributions ctx (a ∷ b ∷ c ∷ []) ≡ allow ∷ allow ∷ deny ∷ []
    → (evaluate_policy doc ctx first ≡ ok allow) × (evaluate_policy doc ctx last ≡ ok unset)
unfolding evaluate_policy
evaluate_policy_order doc policy ctx first last a b c v f l (pa, (pb, (pc, _))) e =
    let ea : contribution (eval ctx a.condition) a ≡ allow = cc in
    let eb : contribution (eval ctx b.condition) b ≡ allow = cc in
    let ec : contribution (eval ctx c.condition) c ≡ deny = cc in
    (
      rw (v, f, evaluate_from-fold ctx unset (c ∷ a ∷ b ∷ []) (pc, (pa, (pb, tt))), ea, eb, ec)
          (unfold or in refl),
      rw (v, l, evaluate_from-fold ctx unset (a ∷ b ∷ c ∷ []) (pa, (pb, (pc, tt))), ea, eb, ec)
          (unfold or in refl),
    )
