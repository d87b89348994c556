-- ===== src/License/Tests.antt =====
-- Runs of the license policy, and the properties at concrete expressions.
use ip_risk_agent_v.Base.{
  raised, List, [], ◌∷◌, Text, upper, upper_char, ap, ◌∙◌, ◌≡◌, ◌↔◌, ◌⊎◌, ◌≢◌, inr, refl, arith,
  false, map, none, some, codes, ok, All, text_eq, lookup, split, strip, strip_of, lstrip, rstrip,
  lower, lower_char,
}
use ip_risk_agent_v.Contracts.{LicensePolicyOutcome}
use ip_risk_agent_v.License.Spdx.{
  ExpressionNode, Operands, license, and_node, or_node, one, more, leaves, resolve,
  canonicalize_exception,
}
use ip_risk_agent_v.License.Policy.{
  Evaluation, evaluate_node, decide_leaf, outcome_for_identifier, needs_review, is_unknown,
  severity,
}
use ip_risk_agent_v.License.Spdx.Parser.{parse, syntax_error}
use ip_risk_agent_v.License.Spdx.Parser.Termination.{parse_settles}
use ip_risk_agent_v.License.Spdx.Printer.{to_text, try_parse_expression}
use ip_risk_agent_v.License.Spdx.RoundTrip.{IsToken, Canonical}
use ip_risk_agent_v.License.Spdx.RoundTrip.Reading.{parse-to_text}
use ip_risk_agent_v.License.Policy.Judgement.{
  judge, result_of, evaluate_node_lem, result_of-judge, evaluate_node-judge,
}
use ip_risk_agent_v.License.Policy.Passing.{IsRelief, Passes, Passes-iff, decide_leaf-IsRelief}
use ip_risk_agent_v.License.Policy.Leading.{leading_agrees}
use ip_risk_agent_v.License.Policy.Notes.{
  SomeHeavier, ReportsChoice, heavier_leads, downgrade_noted,
}

resolve_plus : resolve (codes " GPL-2.0+ ") ≡ (codes "GPL-2.0-or-later", none)
unfolding resolve strip strip_of lstrip rstrip lower lower_char text_eq split lookup
resolve_plus = refl

resolve_reference :
    resolve (codes "DocumentRef-a:LicenseRef-b") ≡ (codes "DocumentRef-a:LicenseRef-b", none)
unfolding resolve strip strip_of lstrip rstrip lower lower_char text_eq split lookup
resolve_reference = refl

resolve_apache_plus : resolve (codes "apache2+") ≡ (codes "Apache-2.0", none)
unfolding resolve strip strip_of lstrip rstrip lower lower_char text_eq split lookup
resolve_apache_plus = refl

classpath_relieves :
    (decide_leaf (codes "GPL-2.0-only") (some (codes "Classpath-exception-2.0"))).outcome
    ≡ LicensePolicyOutcome.review_required
unfolding decide_leaf canonicalize_exception strip strip_of lstrip rstrip lower lower_char text_eq
    split lookup
classpath_relieves = refl

-- `MIT AND ISC OR GPL-3.0-only`
abbrev mit_or_gpl : Operands
mit_or_gpl =
    more (and_node (more (license (codes "MIT") none) (one (license (codes "ISC") none))))
      (one (license (codes "GPL-3.0-only") none))

abbrev offered : ExpressionNode
offered = or_node mit_or_gpl

offered_outcome : judge offered ≡ LicensePolicyOutcome.notice_required
unfolding judge decide_leaf canonicalize_exception strip strip_of lstrip rstrip lower lower_char
    text_eq split lookup
offered_outcome = refl

evaluate_node-judge_example :
    (r : Evaluation) × (evaluate_node offered ≡ ok r) × (r.outcome ≡ judge offered)
evaluate_node-judge_example = evaluate_node-judge offered

Passes-iff_example :
    (r : Evaluation) × (evaluate_node offered ≡ ok r)
    × ((needs_review r.outcome ≡ false) ↔ Passes offered)
Passes-iff_example = Passes-iff offered

decide_leaf-IsRelief_example :
    IsRelief (some (codes "LLVM-exception"))
      × (outcome_for_identifier (codes "MIT") ≡ LicensePolicyOutcome.policy_conflict)
      × ((decide_leaf (codes "MIT") (some (codes "LLVM-exception"))).outcome
          ≡ LicensePolicyOutcome.review_required)
      × ((decide_leaf (codes "MIT") (some (codes "LLVM-exception"))).relieved_from
          ≡ some LicensePolicyOutcome.policy_conflict)
    ⊎ ((¬ IsRelief (some (codes "LLVM-exception")))
        ⊎ (outcome_for_identifier (codes "MIT") ≢ LicensePolicyOutcome.policy_conflict))
      × ((decide_leaf (codes "MIT") (some (codes "LLVM-exception"))).outcome
          ≡ outcome_for_identifier (codes "MIT"))
      × ((decide_leaf (codes "MIT") (some (codes "LLVM-exception"))).relieved_from ≡ none)
decide_leaf-IsRelief_example = decide_leaf-IsRelief (codes "MIT") (some (codes "LLVM-exception"))

abbrev offered_result : Evaluation
offered_result = result_of offered

leading_agrees_example :
    (offered_result.all_leaves ≡ map (λ l. decide_leaf l.0 l.1) (leaves offered))
    × ((offered_result.outcome ≡ LicensePolicyOutcome.unknown)
        ⊎ All (λ d. d.outcome ≡ offered_result.outcome) offered_result.leading)
leading_agrees_example = leading_agrees offered offered_result (evaluate_node_lem offered)

gpl_outcome : judge (license (codes "GPL-3.0-only") none) ≡ LicensePolicyOutcome.policy_conflict
unfolding judge decide_leaf canonicalize_exception strip strip_of lstrip rstrip lower lower_char
    text_eq split lookup
gpl_outcome = refl

offered_heavier : SomeHeavier (severity offered_result.outcome) mit_or_gpl
offered_heavier = inr (ground (arith, result_of-judge offered ∙ offered_outcome, gpl_outcome))

downgrade_noted_example :
    ReportsChoice offered_result (heavier_leads (severity offered_result.outcome) mit_or_gpl)
downgrade_noted_example =
    downgrade_noted mit_or_gpl offered_result (evaluate_node_lem offered)
      (ap is_unknown (result_of-judge offered ∙ offered_outcome)) offered_heavier

abbrev written : List Text
written =
    codes "("
    ∷ codes "mit"
    ∷ codes "and"
    ∷ codes "ISC"
    ∷ codes ")"
    ∷ codes "OR"
    ∷ codes "GPL-3.0"
    ∷ []

parse-offered : parse written ≡ ok offered
unfolding parse resolve canonicalize_exception upper upper_char strip strip_of lstrip rstrip lower
    lower_char text_eq split lookup
parse-offered = refl

parse_settles_example :
    (parse written ≡ raised syntax_error) ⊎ ((n : ExpressionNode) × (parse written ≡ ok n))
parse_settles_example = parse_settles written

mit_IsToken : IsToken (codes "MIT")
unfolding text_eq upper upper_char
mit_IsToken = record { some_char = refl; word = (refl, (refl, (refl, tt))); no_operator = refl }

isc_IsToken : IsToken (codes "ISC")
unfolding text_eq upper upper_char
isc_IsToken = record { some_char = refl; word = (refl, (refl, (refl, tt))); no_operator = refl }

mit-Canonical : Canonical (license (codes "MIT") none)
unfolding Canonical resolve strip strip_of lstrip rstrip lower lower_char text_eq split lookup
mit-Canonical = (mit_IsToken, refl, tt)

isc-Canonical : Canonical (license (codes "ISC") none)
unfolding Canonical resolve strip strip_of lstrip rstrip lower lower_char text_eq split lookup
isc-Canonical = (isc_IsToken, refl, tt)

-- `(MIT OR ISC) AND ISC`
abbrev nested : ExpressionNode
nested = and_node (
    more (or_node (more (license (codes "MIT") none) (one (license (codes "ISC") none))))
      (one (license (codes "ISC") none)))

nested_text : to_text nested ≡ codes "(MIT OR ISC) AND ISC"
unfolding to_text
nested_text = refl

nested-Canonical : Canonical nested
unfolding Canonical
nested-Canonical = (tt, ((tt, (mit-Canonical, isc-Canonical)), isc-Canonical))

parse-to_text_example : try_parse_expression (to_text nested) ≡ some nested
parse-to_text_example = parse-to_text nested nested-Canonical
