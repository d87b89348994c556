-- ===== src/License/Policy/Passing.antt =====
-- Which expressions pass without review: intelligence/license/policy.py, `needs_review`.
use ip_risk_agent_v.Base.{
  ◌≡◌, ◌↔◌, ◌⊎◌, inl, inr, refl, arith, true, false, sym, subst, Bool-cases, Option, none, some,
  is_none, if◌then◌else◌, Text, text_eq, text_eq_iff, lookup, ok, ◌≢◌,
}
use ip_risk_agent_v.Contracts.{LicensePolicyOutcome}
use ip_risk_agent_v.License.Spdx.{
  ExpressionNode, Operands, license, and_node, or_node, one, more, unknown_license,
  canonicalize_exception,
}
use ip_risk_agent_v.License.Policy.{
  Evaluation, needs_review, evaluate_node, decide_leaf, outcome_for_identifier, exception_effect,
  relieves, is_conflict, or_unknown,
}
use ip_risk_agent_v.License.Policy.Table.{outcome_items}
use ip_risk_agent_v.License.Policy.Exceptions.{ExceptionEffect, effect_items}
use ip_risk_agent_v.License.Policy.Order.{heavier, prefer}
use ip_risk_agent_v.License.Policy.Judgement.{judge, worst_of, best_of, evaluate_node-judge}

-- A class that asks for nothing, or for a notice.
abbrev pub IsLight : LicensePolicyOutcome → Type 0
IsLight o = (o ≡ LicensePolicyOutcome.no_action) ⊎ (o ≡ LicensePolicyOutcome.notice_required)

-- The policy table lists the license, under a light class.
abbrev pub IsLightLicense : Text → Type 0
IsLightLicense identifier =
    (identifier ≢ unknown_license)
    × (o : LicensePolicyOutcome) × (lookup outcome_items identifier ≡ some o)
    × IsLight o

-- One can pick branches of the ORs so that every license left is listed under a light class.
mutual
  pub Passes : ExpressionNode → Type 0
  Passes (license identifier exception) = IsLightLicense identifier
  Passes (and_node operands) = AllPass operands
  Passes (or_node operands) = SomePasses operands

  pub AllPass : Operands → Type 0
  AllPass (one n) = Passes n
  AllPass (more n ns) = Passes n × AllPass ns

  pub SomePasses : Operands → Type 0
  SomePasses (one n) = Passes n
  SomePasses (more n ns) = Passes n ⊎ SomePasses ns

IsLight-heavier : (a b : LicensePolicyOutcome) → IsLight (heavier a b) ↔ (IsLight a × IsLight b)
IsLight-heavier a b = ground arith

IsLight-prefer : (a b : LicensePolicyOutcome) → IsLight (prefer a b) ↔ (IsLight a ⊎ IsLight b)
IsLight-prefer a b = ground arith

IsLight-decide_leaf :
    (i : Text) (e : Option Text)
    → IsLight (decide_leaf i e).outcome ↔ IsLight (outcome_for_identifier i)
unfolding decide_leaf
IsLight-decide_leaf i e = ground arith

found-IsLight :
    (found : Option LicensePolicyOutcome)
    → IsLight (or_unknown found) ↔ ((o : LicensePolicyOutcome) × (found ≡ some o) × IsLight o)
found-IsLight (some o) = (λ l. (o, refl, l), λ (p, e, l). subst IsLight (sym (ground (arith, e))) l)
found-IsLight none = (λ l. absurd (ground (arith, l)), λ (p, e, l). absurd (ground (arith, e)))

outcome_for_identifier-IsLight : (i : Text) → IsLight (outcome_for_identifier i) ↔ IsLightLicense i
unfolding outcome_for_identifier
outcome_for_identifier-IsLight i =
    let known = found-IsLight (lookup outcome_items i) in
    elim (Bool-cases (text_eq i unknown_license)) [
      | inl t ↦
          let same = (text_eq_iff i unknown_license).0 t in
          rw t (λ l. absurd (ground (arith, l)), λ (apart, _, _, _). absurd (apart same))
      | inr f ↦
          let apart : i ≢ unknown_license =
            λ e. ground (arith, f, (text_eq_iff i unknown_license).1 e) in
          rw f
            (λ l. let (p, q, k) = known.0 l in (apart, p, q, k), λ (_, p, q, k). known.1 (p, q, k))
    ]

mutual
  unfolding judge Passes

  judge-Passes : (n : ExpressionNode) → IsLight (judge n) ↔ Passes n
  judge-Passes (license i e) =
      let d = IsLight-decide_leaf i e in
      let o = outcome_for_identifier-IsLight i in (λ l. o.0 (d.0 l), λ l. d.1 (o.1 l))
  judge-Passes (and_node ns) = worst_of-AllPass ns
  judge-Passes (or_node ns) = best_of-SomePasses ns

  worst_of-AllPass : (ns : Operands) → IsLight (worst_of ns) ↔ AllPass ns
  worst_of-AllPass (one n) = judge-Passes n
  worst_of-AllPass (more n ns) =
      let h = IsLight-heavier (judge n) (worst_of ns) in
      let p = judge-Passes n in
      let q = worst_of-AllPass ns in
      (λ l. (p.0 (h.0 l).0, q.0 (h.0 l).1), λ (a, b). h.1 (p.1 a, q.1 b))

  best_of-SomePasses : (ns : Operands) → IsLight (best_of ns) ↔ SomePasses ns
  best_of-SomePasses (one n) = judge-Passes n
  best_of-SomePasses (more n ns) =
      ground (arith, IsLight-prefer (judge n) (best_of ns), judge-Passes n, best_of-SomePasses ns)

needs_review-IsLight : (o : LicensePolicyOutcome) → (needs_review o ≡ false) ↔ IsLight o
unfolding needs_review
needs_review-IsLight o = ground arith

-- An expression is let through without review exactly when branches of its ORs can be picked so that
-- every license left is listed in the policy table under a class that asks for nothing or for a
-- notice, and is not the placeholder of an unknown one. Neither a license that the table does not list
-- nor any exception lets an expression through.
pub Passes-iff :
    (n : ExpressionNode)
    → (r : Evaluation) × (evaluate_node n ≡ ok r) × ((needs_review r.outcome ≡ false) ↔ Passes n)
Passes-iff n =
    let (r, e, j) = evaluate_node-judge n in
    let h = needs_review-IsLight r.outcome in
    let p = judge-Passes n in
    (r, e, (λ k. p.0 (subst IsLight j (h.0 k)), λ k. h.1 (subst IsLight (sym j) (p.1 k))))

-- A registered exception that the table of effects lists as a relief of linking or of output.
abbrev pub IsRelief : Option Text → Type 0
IsRelief exception =
    (x : Text) × (exception ≡ some x)
    × ((name : Text) × (canonicalize_exception x ≡ some name))
    × ((lookup effect_items x ≡ some ExceptionEffect.relieves_linking)
        ⊎ (lookup effect_items x ≡ some ExceptionEffect.relieves_output))

effect_of-IsRelief :
    (x : Text) (known : Option Text) (effect : Option ExceptionEffect)
    → canonicalize_exception x ≡ known
    → lookup effect_items x ≡ effect
    → (relieves (if is_none known then none else effect) ≡ true) ↔ IsRelief (some x)
effect_of-IsRelief x none effect k e = (
  λ r. absurd (ground (arith, r)),
  λ (y, same, (name, there), _).
      let q : y ≡ x = ground (arith, same) in
      let there' = subst (λ z. canonicalize_exception z ≡ some name) q there in
      absurd (ground (arith, k, there')),
)
effect_of-IsRelief x (some name) effect k e = (
  λ r. (
    x,
    refl,
    (name, k),
    subst
        (λ z.
          (z ≡ some ExceptionEffect.relieves_linking) ⊎ (z ≡ some ExceptionEffect.relieves_output))
        (sym e) (ground (arith, r)),
  ),
  λ (y, same, _, listed).
      let q : y ≡ x = ground (arith, same) in
      let listed' =
        subst
          (λ z.
            (lookup effect_items z ≡ some ExceptionEffect.relieves_linking)
            ⊎ (lookup effect_items z ≡ some ExceptionEffect.relieves_output))
          q listed in
      ground (arith, e, listed'),
)

exception_effect-IsRelief : (e : Option Text) → (relieves (exception_effect e) ≡ true) ↔ IsRelief e
unfolding exception_effect
exception_effect-IsRelief none =
    (λ r. absurd (ground (arith, r)), λ (x, same, _, _). absurd (ground (arith, same)))
exception_effect-IsRelief (some x) =
    effect_of-IsRelief x (canonicalize_exception x) (lookup effect_items x) refl refl

-- An exception changes the class of a license only if it is registered and listed as a relief of
-- linking or of output, and the class was a conflict; then a person still has to review it, and the
-- class before is recorded. In every other case the class is the license's own and no relief is
-- recorded.
pub decide_leaf-IsRelief :
    (i : Text) (e : Option Text)
    → IsRelief e
        × (outcome_for_identifier i ≡ LicensePolicyOutcome.policy_conflict)
        × ((decide_leaf i e).outcome ≡ LicensePolicyOutcome.review_required)
        × ((decide_leaf i e).relieved_from ≡ some LicensePolicyOutcome.policy_conflict)
      ⊎ ((¬ IsRelief e) ⊎ (outcome_for_identifier i ≢ LicensePolicyOutcome.policy_conflict))
        × ((decide_leaf i e).outcome ≡ outcome_for_identifier i)
        × ((decide_leaf i e).relieved_from ≡ none)
unfolding decide_leaf
decide_leaf-IsRelief i e =
    let k = exception_effect-IsRelief e in
    elim (Bool-cases (relieves (exception_effect e))) [
      | inr f ↦
          let never : ¬ IsRelief e = λ h. ground (arith, f, k.1 h) in
          inr (inl never, ground (arith, f), ground (arith, f))
      | inl t ↦ elim (Bool-cases (is_conflict (outcome_for_identifier i))) [
        | inl c ↦ inl (k.0 t, ground (arith, c), ground (arith, t, c), ground (arith, t, c))
        | inr c ↦ inr (inr (ground (arith, c)), ground (arith, c), ground (arith, c))
      ]
    ]
