-- ===== src/Reconcile.antt =====
-- application/risk_reconcile: what an analyzer reports, and the services of the language and of the
-- redaction that the intake of a report calls.
pub mod Retention
pub mod Projections
pub mod Recording
pub mod EvidenceWrites
pub mod History
pub mod Notices
pub mod Loop
pub mod Frame
pub mod Effects
pub mod Observing
pub mod Closing
pub mod Keys
pub mod Listing
pub mod Closable
pub mod Refinement
pub mod Appending
pub mod Reviving
mod Tests
pub mod Outcomes
pub mod Failures
pub mod Aggregation
pub mod Intake
pub mod Examples
use ip_risk_agent_v.Base.{ℕ, Bool, Option, List, Text, Instant}
use ip_risk_agent_v.Contracts.{
  AnalysisType, AnalysisStatus, AnalysisCoverage, ReviewPriority, LicensePolicyOutcome,
}
use ip_risk_agent_v.Workspaces.LicenseProfile.{Sha256}
use ip_risk_agent_v.Risk.Metadata.{JsonMap}

-- `urllib.parse.SplitResult`
pub record Url : Type 0 where
  pub scheme : Text
  pub netloc : Text
  pub path : Text
  pub query : Text
  pub fragment : Text
  pub username : Option Text
  pub password : Option Text

-- Unicode tables, regular expressions and the URL parser of the standard library, and the patterns of
-- application/security_gate/redaction.py.
pub record Library : Type 0 where
  pub sha : Sha256
  pub nfkc : Text → Text  -- unicodedata.normalize("NFKC", s)
  pub casefold : Text → Text
  pub upper : Text → Text
  pub redact : Text → Text  -- redact_text(s)[0]
  pub is_sensitive : Text → Bool  -- _SENSITIVE_METADATA_KEY.search(s)
  pub urlsplit : Text → Url
  pub urlunsplit : Url → Text

pub record Evidence : Type 0 where
  pub evidence_id : Text
  pub evidence_type : Text
  pub excerpt : Text
  pub reference : Text
  pub metadata_safe : JsonMap

pub record ProviderFailure : Type 0 where
  pub provider : Text
  pub category : Text
  pub retryable : Bool
  pub safe_message : Text

pub record AnalysisVersions : Type 0 where
  pub analyzer_version : Text
  pub model_id : Option Text
  pub prompt_version : Option Text
  pub policy_version : Option Text
  pub rag_corpus_version : Option Text

pub record PatentCandidate : Type 0 where
  pub normalized_application_number : Text
  pub title : Text
  pub suggested_review_priority : ReviewPriority
  pub evidence_ids : List Text
  pub provider_metadata_safe : JsonMap

pub record LicenseCandidate : Type 0 where
  pub ecosystem : Text
  pub normalized_package_name : Text
  pub resolved_version : Option Text
  pub normalized_license_expression : Text
  pub policy_outcome : LicensePolicyOutcome
  pub evidence_ids : List Text

pub data Candidate : Type 0 where
  patent : PatentCandidate → Candidate
  license : LicenseCandidate → Candidate

pub record AnalysisResult : Type 0 where
  pub analysis_job_id : Text
  pub artifact_id : Text
  pub revision : Text
  pub analysis_type : AnalysisType
  pub status : AnalysisStatus
  pub coverage : AnalysisCoverage
  pub candidates : List Candidate
  pub evidence : List Evidence
  pub provider_failures : List ProviderFailure
  pub versions : AnalysisVersions
  pub started_at : Instant
  pub completed_at : Instant
