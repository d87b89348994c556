-- ===== src/Risk/Evidence.antt =====
-- core/risk/models.py: what an analysis found, as it is kept with the risk.
use ip_risk_agent_v.Base.{Text, Instant, require_non_empty, Outcome, ok, ◌>>=◌, Error}
use ip_risk_agent_v.Risk.Metadata.{JsonMap}

pub record RiskEvidence : Type 0 where
  pub id : Text
  pub risk_id : Text
  pub analysis_job_id : Text
  pub evidence_id_from_result : Text
  pub evidence_type : Text
  pub excerpt : Text
  pub reference : Text
  pub source_revision : Text
  pub created_at : Instant
  pub metadata_safe : JsonMap

-- `RiskEvidence.__post_init__`, on a timestamp that is an instant already.
unfoldable pub post_init : RiskEvidence → Outcome Error RiskEvidence
post_init e = do
  id ← require_non_empty e.id "risk_evidence.id"
  risk_id ← require_non_empty e.risk_id "risk_evidence.risk_id"
  analysis_job_id ← require_non_empty e.analysis_job_id "risk_evidence.analysis_job_id"
  evidence_id_from_result ←
      require_non_empty e.evidence_id_from_result "risk_evidence.evidence_id_from_result"
  evidence_type ← require_non_empty e.evidence_type "risk_evidence.evidence_type"
  reference ← require_non_empty e.reference "risk_evidence.reference"
  source_revision ← require_non_empty e.source_revision "risk_evidence.source_revision"
  ok record e {
    id = id;
    risk_id = risk_id;
    analysis_job_id = analysis_job_id;
    evidence_id_from_result = evidence_id_from_result;
    evidence_type = evidence_type;
    reference = reference;
    source_revision = source_revision;
  }
