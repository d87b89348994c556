-- ===== src/License/Policy.antt =====
-- intelligence/license/policy.py: the review class of a license expression. The sentences that
-- explain a decision are left out; a note is kept as what it reports.
pub mod Table
pub mod Exceptions
pub mod Order
pub mod Judgement
pub mod Passing
pub mod Leading
pub mod Notes
use ip_risk_agent_v.Base.{
  ℕ, ◌≤◌, min, max, Bool, true, false, ◌&&◌, ◌||◌, not, leb, ltb, ◌==◌, if◌then◌else◌, is_some,
  is_none, Option, none, some, List, [], ◌∷◌, ◌++◌, Text, text_eq, lookup, keep, Outcome, ok,
  raised, ◌>>=◌, Error, assertion, any,
}
use ip_risk_agent_v.Contracts.{LicensePolicyOutcome}
use ip_risk_agent_v.License.Spdx.{
  ExpressionNode, Operands, license, and_node, or_node, one, more, unknown_license,
  canonicalize_exception,
}
use ip_risk_agent_v.License.Policy.Table.{outcome_items}
use ip_risk_agent_v.License.Policy.Exceptions.{ExceptionEffect, effect_items}

-- `_SEVERITY`
abbrev pub severity : LicensePolicyOutcome → ℕ
severity LicensePolicyOutcome.no_action = 0
severity LicensePolicyOutcome.notice_required = 1
severity LicensePolicyOutcome.unknown = 2
severity LicensePolicyOutcome.review_required = 3
severity LicensePolicyOutcome.policy_conflict = 4

-- `_by_severity`
abbrev pub by_severity : ℕ → Outcome Error LicensePolicyOutcome
by_severity value =
    if value == 0
    then ok LicensePolicyOutcome.no_action
    else if value == 1
    then ok LicensePolicyOutcome.notice_required
    else if value == 2
    then ok LicensePolicyOutcome.unknown
    else if value == 3
    then ok LicensePolicyOutcome.review_required
    else if value == 4
    then ok LicensePolicyOutcome.policy_conflict
    else raised assertion

abbrev pub is_unknown : LicensePolicyOutcome → Bool
is_unknown LicensePolicyOutcome.unknown = true
is_unknown _ = false

abbrev pub is_conflict : LicensePolicyOutcome → Bool
is_conflict LicensePolicyOutcome.policy_conflict = true
is_conflict _ = false

abbrev pub or_unknown : Option LicensePolicyOutcome → LicensePolicyOutcome
or_unknown (some outcome) = outcome
or_unknown none = LicensePolicyOutcome.unknown

unfoldable pub outcome_for_identifier : Text → LicensePolicyOutcome
unfolding outcome_items lookup
outcome_for_identifier identifier =
    if text_eq identifier unknown_license
    then LicensePolicyOutcome.unknown
    else or_unknown (lookup outcome_items identifier)

unfoldable pub exception_effect : Option Text → Option ExceptionEffect
unfolding canonicalize_exception effect_items lookup
exception_effect none = none
exception_effect (some exception) =
    if is_none (canonicalize_exception exception) then none else lookup effect_items exception

-- `effect in _RELIEF`
abbrev pub relieves : Option ExceptionEffect → Bool
relieves (some ExceptionEffect.relieves_linking) = true
relieves (some ExceptionEffect.relieves_output) = true
relieves _ = false

pub record LeafDecision : Type 0 where
  pub identifier : Text
  pub exception : Option Text
  pub outcome : LicensePolicyOutcome
  pub relieved_from : Option LicensePolicyOutcome

unfoldable pub decide_leaf : Text → Option Text → LeafDecision
unfolding outcome_for_identifier exception_effect
decide_leaf identifier exception =
    let base = outcome_for_identifier identifier in
    let relief = relieves (exception_effect exception) && is_conflict base in
    record {
      identifier = identifier;
      exception = exception;
      outcome = if relief then LicensePolicyOutcome.review_required else base;
      relieved_from = if relief then some base else none;
    }

-- A leaf with an exception, and the choice of an OR: what was taken and what was dropped.
pub data Note : Type 0 where
  exception_note : LeafDecision → Note
  choice_note : List LeafDecision → List LeafDecision → Note

-- What `_evaluate_node` returns, and `Evaluation`.
pub record Evaluation : Type 0 where
  pub outcome : LicensePolicyOutcome
  pub leading : List LeafDecision
  pub all_leaves : List LeafDecision
  pub notes : List Note

abbrev pub leaf_notes : LeafDecision → List Note
leaf_notes d = if is_some d.relieved_from || is_some d.exception then exception_note d ∷ [] else []

abbrev pub evaluate_leaf : LeafDecision → Evaluation
evaluate_leaf d = record {
  outcome = d.outcome;
  leading = d ∷ [];
  all_leaves = d ∷ [];
  notes = leaf_notes d;
}

-- The leaves that lead, and all leaves and notes, of the results that the test picks.
abbrev pub leads_of : (Evaluation → Bool) → List Evaluation → List LeafDecision
leads_of test [] = []
leads_of test (r ∷ rs) = let rest = leads_of test rs in if test r then r.leading ++ rest else rest

abbrev pub every_leaf : List Evaluation → List LeafDecision
every_leaf [] = []
every_leaf (r ∷ rs) = r.all_leaves ++ every_leaf rs

abbrev pub every_note : List Evaluation → List Note
every_note [] = []
every_note (r ∷ rs) = r.notes ++ every_note rs

-- `max(...)` and `min(...)` of the severities of results of which there is one at least.
abbrev pub heaviest : Evaluation → List Evaluation → ℕ
heaviest r [] = severity r.outcome
heaviest r (s ∷ rs) = max (severity r.outcome) (heaviest s rs)

abbrev pub lightest : Evaluation → List Evaluation → ℕ
lightest r [] = severity r.outcome
lightest r (s ∷ rs) = min (severity r.outcome) (lightest s rs)

abbrev pub is_known : Evaluation → Bool
is_known r = not (is_unknown r.outcome)

unfoldable pub combine_and : Evaluation → List Evaluation → Outcome Error Evaluation
combine_and r rs = do
  outcome ← by_severity (heaviest r rs)
  ok record {
    outcome = outcome;
    leading = leads_of (λ s. severity s.outcome == heaviest r rs) (r ∷ rs);
    all_leaves = every_leaf (r ∷ rs);
    notes = every_note (r ∷ rs);
  }

abbrev pub choice_notes : List LeafDecision → List LeafDecision → List Note
choice_notes leading [] = []
choice_notes leading (d ∷ ds) = choice_note leading (d ∷ ds) ∷ []

-- The choice of an OR among its known results, where there is one.
unfoldable pub choose : List Evaluation → List Evaluation → Outcome Error Evaluation
choose results [] = ok record {
  outcome = LicensePolicyOutcome.unknown;
  leading = every_leaf results;
  all_leaves = every_leaf results;
  notes = every_note results;
}
choose results (k ∷ ks) = do
  outcome ← by_severity (lightest k ks)
  let leading = leads_of (λ s. severity s.outcome == lightest k ks) (k ∷ ks)
  let dropped = leads_of (λ s. ltb (lightest k ks) (severity s.outcome)) results
  ok record {
    outcome = outcome;
    leading = leading;
    all_leaves = every_leaf results;
    notes = every_note results ++ choice_notes leading dropped;
  }

unfoldable pub combine_or : Evaluation → List Evaluation → Outcome Error Evaluation
unfolding choose
combine_or r rs = choose (r ∷ rs) (keep is_known (r ∷ rs))

-- `_evaluate_node`
unfoldable mutual
  unfolding decide_leaf combine_and combine_or

  pub evaluate_node : ExpressionNode → Outcome Error Evaluation
  evaluate_node (license identifier exception) =
      ok (evaluate_leaf (decide_leaf identifier exception))
  evaluate_node (and_node operands) = do (r, rs) ← evaluate_operands operands; combine_and r rs
  evaluate_node (or_node operands) = do (r, rs) ← evaluate_operands operands; combine_or r rs

  pub evaluate_operands : Operands → Outcome Error (Evaluation × List Evaluation)
  evaluate_operands (one n) = do r ← evaluate_node n; ok (r, [])
  evaluate_operands (more n ns) = do
    r ← evaluate_node n
    (s, rs) ← evaluate_operands ns
    ok (r, s ∷ rs)

unfoldable pub needs_review : LicensePolicyOutcome → Bool
needs_review outcome = leb (severity LicensePolicyOutcome.unknown) (severity outcome)
