-- ===== src/Risk/Causes.antt =====
-- What the attribution of a change claims: core/risk/attribution.py, `attribute_change`.
use ip_risk_agent_v.Base.{
  split, sym, Option-cases, inl, inr, length, ◌≡◌, ◌≢◌, ◌↔◌, arith, some, Text, text_eq_refl,
  same_text_iff, eq_of_same_text, ◌∙◌, eq_of_text_eq,
}
use ip_risk_agent_v.Risk.Attribution.{
  colon, ChangeCause, VerdictFingerprint, policy_table_version, deployment_axes, moved_fingerprints,
  cause_of, attribute_change,
}

-- Both verdicts saw the same input.
module _ (f g : VerdictFingerprint) {c : Text} (cf : f.analysis_input_checksum ≡ some c)
    (cg : g.analysis_input_checksum ≡ some c) where
  same_input : (attribute_change (some f) (some g)).cause ≡ cause_of (moved_fingerprints f g)
  unfolding attribute_change
  same_input = rw (cf, cg) (rw (text_eq_refl c))

  -- Other deployment axes: the user changed the profile, whatever else moved.
  pub axes_moved :
      deployment_axes f ≢ deployment_axes g
      → (attribute_change (some f) (some g)).cause ≡ ChangeCause.user_policy
  axes_moved d =
      same_input
      ∙ unfold moved_fingerprints in
        ground (arith, eq_of_same_text (deployment_axes f) (deployment_axes g))

  -- The same axes and models under another table: our knowledge changed.
  pub table_moved :
      deployment_axes f ≡ deployment_axes g
      → policy_table_version f ≢ policy_table_version g
      → f.model_id ≡ g.model_id
      → f.prompt_version ≡ g.prompt_version
      → (attribute_change (some f) (some g)).cause ≡ ChangeCause.our_knowledge
  table_moved ea d em ep =
      same_input
      ∙ unfold moved_fingerprints in
        ground (
          arith,
          same_text_iff (deployment_axes f) (deployment_axes g),
          same_text_iff (policy_table_version f) (policy_table_version g),
          same_text_iff f.model_id g.model_id,
          same_text_iff f.prompt_version g.prompt_version,
        )

-- The same known input, and each fingerprint of ours equal, or absent on both sides.
pub record IsUnmoved (f g : VerdictFingerprint) : Type 0 where
  pub checksum : Text
  pub checksum_before : f.analysis_input_checksum ≡ some checksum
  pub checksum_after : g.analysis_input_checksum ≡ some checksum
  pub axes : deployment_axes f ≡ deployment_axes g
  pub table : policy_table_version f ≡ policy_table_version g
  pub corpus : f.rag_corpus_version ≡ g.rag_corpus_version
  pub model : f.model_id ≡ g.model_id
  pub prompt : f.prompt_version ≡ g.prompt_version

cause_of_external :
    (f g : VerdictFingerprint)
    → (cause_of (moved_fingerprints f g) ≡ ChangeCause.external_fact) ↔ (
        (deployment_axes f ≡ deployment_axes g)
        × (policy_table_version f ≡ policy_table_version g)
        × (f.rag_corpus_version ≡ g.rag_corpus_version)
        × (f.model_id ≡ g.model_id)
        × (f.prompt_version ≡ g.prompt_version))
unfolding moved_fingerprints
cause_of_external f g = ground (
  arith,
  same_text_iff (deployment_axes f) (deployment_axes g),
  same_text_iff (policy_table_version f) (policy_table_version g),
  same_text_iff f.rag_corpus_version g.rag_corpus_version,
  same_text_iff f.model_id g.model_id,
  same_text_iff f.prompt_version g.prompt_version,
)

external_needs_checksum :
    (f g : VerdictFingerprint)
    → (attribute_change (some f) (some g)).cause ≡ ChangeCause.external_fact
    → (c : Text) × (f.analysis_input_checksum ≡ some c) × (g.analysis_input_checksum ≡ some c)
unfolding attribute_change
external_needs_checksum f g h = elim (Option-cases f.analysis_input_checksum) [
  | inl absent ↦ absurd (ground arith)
  | inr (a, ea) ↦ elim (Option-cases g.analysis_input_checksum) [
    | inl absent ↦ absurd (ground arith)
    | inr (b, eb) ↦ (a, ea, ground (arith, eq_of_text_eq a b))
  ]
]

IsUnmoved-of_external :
    (f g : VerdictFingerprint)
    → (attribute_change (some f) (some g)).cause ≡ ChangeCause.external_fact
    → IsUnmoved f g
IsUnmoved-of_external f g h =
    let (c, cf, cg) = external_needs_checksum f g h in
    let same = (cause_of_external f g).0 (sym (same_input f g cf cg) ∙ h) in
    record {
      checksum = c;
      checksum_before = cf;
      checksum_after = cg;
      axes = same.0;
      table = same.1;
      corpus = same.2;
      model = same.3;
      prompt = same.4;
    }

-- A change is put down to an external fact exactly when both verdicts saw the same known input and
-- none of our fingerprints differs (two that are absent count as equal).
pub external_fact_iff :
    (f g : VerdictFingerprint)
    → ((attribute_change (some f) (some g)).cause ≡ ChangeCause.external_fact) ↔ IsUnmoved f g
external_fact_iff f g = (
  IsUnmoved-of_external f g,
  λ u.
      same_input f g u.checksum_before u.checksum_after
      ∙ (cause_of_external f g).1 (u.axes, u.table, u.corpus, u.model, u.prompt),
)

-- A policy version of another shape than three pieces.
abbrev pub IsFlat : Text → Type 0
IsFlat v = length (split colon v) ≢ 3
