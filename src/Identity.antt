-- ===== src/Identity.antt =====
-- `stable_key` of core/common.py, and the identities of core/risk/identity.py and
-- core/memberships/identity.py that are built on it. SHA-256 is an argument.
pub mod Json
pub mod Distinct
pub mod Normal
mod Tests
use ip_risk_agent_v.Base.{
  ℕ, ◌==◌, ltb, Bool, if◌then◌else◌, Option, none, some, List, [], ◌∷◌, ◌++◌, Text, codes,
  require_non_empty, Outcome, ok, raised, ◌>>=◌, ◌>>◌, raise_if, Error, invariant,
}
use ip_risk_agent_v.Workspaces.LicenseProfile.{Sha256}
use ip_risk_agent_v.Identity.Json.{dumps}

-- `tuple(require_non_empty(part, "identity component") for part in parts)`
unfoldable pub components : List Text → Outcome Error (List Text)
components [] = ok []
components (part ∷ parts) = do
  p ← require_non_empty part "identity component"
  ps ← components parts
  ok (p ∷ ps)

abbrev pub key_of : Sha256 → Text → List Text → Text
key_of sha namespace parts =
    namespace ++ (codes ":v1:" ++ sha.hexdigest (dumps (codes "v1" ∷ namespace ∷ parts)))

unfoldable pub stable_key : Sha256 → Text → List Text → Outcome Error Text
unfolding components
stable_key sha namespace parts = do
  normalized_namespace ← require_non_empty namespace "namespace"
  normalized_parts ← components parts
  ok (key_of sha normalized_namespace normalized_parts)

module _ (sha : Sha256) where
  unfoldable pub risk_id_for : Text → Outcome Error Text
  risk_id_for risk_key = stable_key sha (codes "risk") (risk_key ∷ [])

  unfoldable pub risk_evidence_id_for : Text → Text → Text → Outcome Error Text
  risk_evidence_id_for risk_id analysis_job_id evidence_id_from_result =
      stable_key sha (codes "risk-evidence")
        (risk_id ∷ analysis_job_id ∷ evidence_id_from_result ∷ [])

  unfoldable pub risk_event_id_for : Text → Text → Text → Outcome Error Text
  risk_event_id_for risk_id result_fingerprint event_type =
      stable_key sha (codes "risk-event") (risk_id ∷ result_fingerprint ∷ event_type ∷ [])

  unfoldable pub patent_risk_key : Text → Text → Outcome Error Text
  patent_risk_key artifact_id normalized_application_number =
      stable_key sha (codes "risk-patent") (artifact_id ∷ normalized_application_number ∷ [])

  abbrev version_state : Option Text → Text
  version_state none = codes "unresolved"
  version_state (some v) = codes "resolved"

  abbrev version_value : Option Text → Text
  version_value none = codes "not-applicable"
  version_value (some v) = v

  unfoldable pub license_risk_key : Text → Text → Text → Option Text → Text → Outcome Error Text
  license_risk_key artifact_id ecosystem package_name resolved_version license_expression =
      stable_key sha (codes "risk-license") (
        artifact_id
        ∷ ecosystem
        ∷ package_name
        ∷ version_state resolved_version
        ∷ version_value resolved_version
        ∷ license_expression
        ∷ [])

  unfoldable pub membership_id_for : Text → Text → Outcome Error Text
  membership_id_for risk_workspace_id user_id =
      stable_key sha (codes "membership") (risk_workspace_id ∷ user_id ∷ [])
