-- ===== src/Reconcile/EvidenceWrites.antt =====
-- application/risk_reconcile/service.py: the evidence that is kept for a candidate.
use ip_risk_agent_v.Base.{
  if◌then◌else◌, Option, none, some, List, [], ◌∷◌, Text, codes, text_eq, Instant, get_item,
  set_item, Outcome, ok, raised, Error, key_error,
}
use ip_risk_agent_v.Exec.{Exec, pure, lift, ◌>>=◌, ◌>>◌}
use ip_risk_agent_v.Identity.{risk_evidence_id_for}
use ip_risk_agent_v.Risk.{Risk, RiskLifecycleState, RiskEventType}
use ip_risk_agent_v.Risk.Evidence.{RiskEvidence}
use ip_risk_agent_v.Risk.Metadata.{Json, JsonMap, entries, from_entries}
use ip_risk_agent_v.Repositories.{ControlState}
use ip_risk_agent_v.Repositories.Risks.{add_evidence, clear_evidence}
use ip_risk_agent_v.Reconcile.{Library, AnalysisResult, Evidence}
use ip_risk_agent_v.Reconcile.Retention.{
  EvidenceRetentionPolicy, sanitize_excerpt, sanitize_reference,
}
use ip_risk_agent_v.Reconcile.Retention.Metadata.{sanitize_metadata}
use ip_risk_agent_v.Reconcile.Projections.{CandidateProjection, QuoteSpan}

-- `_with_quote_span`
unfoldable pub with_quote_span : JsonMap → Option QuoteSpan → JsonMap
with_quote_span metadata none = metadata
with_quote_span metadata (some span) = from_entries (
    set_item (codes "quote_end") (Json.whole span.end)
      (set_item (codes "quote_start") (Json.whole span.start) (entries metadata)))

-- `evidence_by_id[evidence_id]`; a later item of an id replaces an earlier one.
unfoldable pub evidence_by_id : List Evidence → Text → Option Evidence
evidence_by_id [] evidence_id = none
evidence_by_id (e ∷ es) evidence_id = elim (evidence_by_id es evidence_id) [
  | some later ↦ some later
  | none ↦ if text_eq e.evidence_id evidence_id then some e else none
]

abbrev found : Option Evidence → Outcome Error Evidence
found none = raised key_error
found (some e) = ok e

module _ (lib : Library) (policy : EvidenceRetentionPolicy) (result : AnalysisResult) where
  -- One pass of the loop over the evidence of a candidate.
  unfoldable pub write_one : Risk → Instant → CandidateProjection → Text → Exec ControlState Text
  write_one risk risk_time p evidence_id = do
    source ← lift (found (evidence_by_id result.evidence evidence_id))
    id ← lift (risk_evidence_id_for lib.sha risk.id result.analysis_job_id evidence_id)
    reference ← lift (sanitize_reference lib policy source.reference)
    metadata ← lift (
        sanitize_metadata lib policy
          (with_quote_span source.metadata_safe (get_item p.quote_spans evidence_id)))
    evidence ← lift (
        ip_risk_agent_v.Risk.Evidence.post_init record {
          id = id;
          risk_id = risk.id;
          analysis_job_id = result.analysis_job_id;
          evidence_id_from_result = evidence_id;
          evidence_type = source.evidence_type;
          excerpt = sanitize_excerpt lib policy source.excerpt;
          reference = reference;
          source_revision = result.revision;
          created_at = risk_time;
          metadata_safe = metadata;
        })
    add_evidence evidence
    pure evidence.id

  -- The ids of what was written.
  unfoldable pub write_evidence :
      Risk → Instant → CandidateProjection → List Text → Exec ControlState (List Text)
  write_evidence risk risk_time p [] = pure []
  write_evidence risk risk_time p (evidence_id ∷ ids) = do
    one ← write_one risk risk_time p evidence_id
    refs ← write_evidence risk risk_time p ids
    pure (one ∷ refs)

  -- What an earlier run of the same job left is taken away first.
  unfoldable pub replace_evidence :
      Risk → Instant → CandidateProjection → Exec ControlState (List Text)
  replace_evidence risk risk_time p = do
    clear_evidence risk.id result.analysis_job_id
    write_evidence risk risk_time p p.evidence_ids
