-- ===== src/Reconcile/Projections.antt =====
-- application/risk_reconcile/service.py: what the candidates of a result project to, by risk key.
use ip_risk_agent_v.Base.{
  ℕ, ltb, ◌==◌, Bool, true, false, not, ◌||◌, if◌then◌else◌, Option, none, some, List, [], ◌∷◌,
  ◌++◌, any, keep, Text, String, codes, text_eq, is_space, strip, Dict, get_item, set_item, Outcome,
  ok, ◌>>=◌, ◌>>◌, raise_if, Error, intake,
}
use ip_risk_agent_v.Contracts.{ReviewPriority, LicensePolicyOutcome}
use ip_risk_agent_v.Identity.{patent_risk_key, license_risk_key}
use ip_risk_agent_v.Risk.Metadata.{Json, entries}
use ip_risk_agent_v.Reconcile.{Library, AnalysisResult, Candidate}
use ip_risk_agent_v.Reconcile.Retention.{EvidenceRetentionPolicy, is_blank, sanitize_summary}

-- A part of an excerpt that the screen marks: from `start` up to `end`.
pub record QuoteSpan : Type 0 where
  pub start : ℕ
  pub end : ℕ

-- `_CandidateProjection`
pub record CandidateProjection : Type 0 where
  pub risk_key : Text
  pub priority : ReviewPriority
  pub summary : Text
  pub evidence_ids : List Text
  pub quote_spans : Dict QuoteSpan

-- `mapping.get(key)`
abbrev get_json : List (Text × Json) → Text → Option Json
get_json d key = get_item d key

-- A span whose ends are integers with `0 <= start < end`.
abbrev checked_span : Option Json → Option Json → Option QuoteSpan
checked_span (some (Json.whole start)) (some (Json.whole end)) =
    if ltb start end then some record { start = start; end = end } else none
checked_span _ _ = none

abbrev span_of : Json → Option QuoteSpan
span_of (Json.mapping m) =
    checked_span (get_json (entries m) (codes "start")) (get_json (entries m) (codes "end"))
span_of _ = none

abbrev add_span : Text → Option QuoteSpan → Dict QuoteSpan → Dict QuoteSpan
add_span evidence_id none checked = checked
add_span evidence_id (some span) checked = set_item evidence_id span checked

unfoldable pub check_spans : List (Text × Json) → Dict QuoteSpan → Dict QuoteSpan
check_spans [] checked = checked
check_spans ((evidence_id, span) ∷ rest) checked =
    check_spans rest (add_span evidence_id (span_of span) checked)

abbrev spans_in : Option Json → Dict QuoteSpan
spans_in (some (Json.mapping spans)) = check_spans (entries spans) []
spans_in _ = []

-- `_quote_spans`; a license candidate has no such metadata.
unfoldable pub quote_spans : Candidate → Dict QuoteSpan
unfolding check_spans entries
quote_spans (Candidate.patent c) =
    spans_in (get_json (entries c.provider_metadata_safe) (codes "quote_spans"))
quote_spans (Candidate.license c) = []

-- `_is_risk_worthy`
abbrev pub is_risk_worthy : ReviewPriority → Bool
is_risk_worthy ReviewPriority.low = false
is_risk_worthy _ = true

-- `_license_priority`
abbrev pub license_priority : LicensePolicyOutcome → ReviewPriority
license_priority LicensePolicyOutcome.policy_conflict = ReviewPriority.high
license_priority LicensePolicyOutcome.review_required = ReviewPriority.high
license_priority LicensePolicyOutcome.notice_required = ReviewPriority.medium
license_priority LicensePolicyOutcome.unknown = ReviewPriority.indeterminate
license_priority LicensePolicyOutcome.no_action = ReviewPriority.low

abbrev onto_word : Bool → ℕ → List Text → List Text
onto_word starts c [] = (c ∷ []) ∷ []
onto_word true c (w ∷ ws) = (c ∷ []) ∷ w ∷ ws
onto_word false c (w ∷ ws) = (c ∷ w) ∷ ws

abbrev starts_blank : Text → Bool
starts_blank [] = true
starts_blank (c ∷ s) = is_space c

-- `s.split()`
unfoldable pub split_words : Text → List Text
unfolding is_space
split_words [] = []
split_words (c ∷ s) =
    if is_space c then split_words s else onto_word (starts_blank s) c (split_words s)

-- `" ".join(words)`
abbrev pub join_words : List Text → Text
join_words [] = []
join_words (w ∷ []) = w
join_words (w ∷ v ∷ ws) = w ++ b' ' ∷ join_words (v ∷ ws)

-- `tuple(dict.fromkeys(ids))`
unfoldable pub without_repeats : List Text → List Text → List Text
without_repeats seen [] = []
without_repeats seen (i ∷ ids) =
    if any (text_eq i) seen then without_repeats seen ids else i ∷ without_repeats (i ∷ seen) ids

abbrev is_separator : ℕ → Bool
is_separator c = is_space c || c == b'-' || c == b'_'

abbrev pub token_of : Text → String → Outcome Error Text
token_of normalized message = do raise_if (is_blank normalized) (intake message); ok normalized

module _ (lib : Library) (policy : EvidenceRetentionPolicy) where
  -- `_normalized_token`, with the message for an empty token.
  unfoldable pub normalized_token : Text → String → Outcome Error Text
  normalized_token value message = token_of (lib.casefold (strip (lib.nfkc value))) message

  -- With `remove_separators`.
  unfoldable pub normalized_number : Text → Outcome Error Text
  normalized_number value =
      token_of (keep (λ c. not (is_separator c)) (lib.casefold (strip (lib.nfkc value))))
        "patent application number cannot be empty"

  abbrev pub normalized_version : Option Text → Outcome Error (Option Text)
  normalized_version none = ok none
  normalized_version (some v) = do
    let version = strip (lib.nfkc v)
    raise_if (is_blank version) (intake "resolved license version cannot be empty")
    ok (some version)

  abbrev pub version_label : Option Text → Text
  version_label none = codes "unresolved"
  version_label (some v) = v

  -- One pass of the loop, up to the check for repeats.
  unfoldable pub project : Text → Candidate → Outcome Error CandidateProjection
  project artifact_id (Candidate.patent c) = do
    application_number ← normalized_number c.normalized_application_number
    risk_key ← patent_risk_key lib.sha artifact_id application_number
    summary ← sanitize_summary lib policy c.title
    ok record {
      risk_key = risk_key;
      priority = c.suggested_review_priority;
      summary = summary;
      evidence_ids = without_repeats [] c.evidence_ids;
      quote_spans = quote_spans (Candidate.patent c);
    }
  project artifact_id (Candidate.license c) = do
    ecosystem ← normalized_token c.ecosystem "license ecosystem cannot be empty"
    package_name ← normalized_token c.normalized_package_name "license package name cannot be empty"
    version ← normalized_version c.resolved_version
    let expression = lib.upper (join_words (split_words (lib.nfkc c.normalized_license_expression)))
    raise_if (is_blank expression) (intake "license expression cannot be empty")
    risk_key ← license_risk_key lib.sha artifact_id ecosystem package_name version expression
    summary ← sanitize_summary lib policy (
        ecosystem
        ++ b':' ∷ package_name
        ++ b'@' ∷ version_label version
        ++ 32 ∷ 8212 ∷ 32 ∷ expression)
    ok record {
      risk_key = risk_key;
      priority = license_priority c.policy_outcome;
      summary = summary;
      evidence_ids = without_repeats [] c.evidence_ids;
      quote_spans = [];
    }

  unfoldable pub project_all :
      Text → List Text → List Candidate → Outcome Error (List CandidateProjection)
  project_all artifact_id seen_keys [] = ok []
  project_all artifact_id seen_keys (c ∷ cs) = do
    p ← project artifact_id c
    raise_if (any (text_eq p.risk_key) seen_keys) (intake "duplicate stable candidate identity")
    rest ← project_all artifact_id (p.risk_key ∷ seen_keys) cs
    ok (if is_risk_worthy p.priority then p ∷ rest else rest)

  -- `_candidate_projections`: the values of the mapping, whose keys are their own.
  unfoldable pub candidate_projections : AnalysisResult → Outcome Error (List CandidateProjection)
  candidate_projections result = project_all result.artifact_id [] result.candidates
