-- ===== src/Artifacts.antt =====
-- core/artifacts/models.py: the files that a workspace watches. The locator metadata is left out.
use ip_risk_agent_v.Base.{
  Option, List, Text, Instant, List, ◌∷◌, [], require_non_empty, require_chronological, Outcome, ok,
  ◌>>=◌, ◌>>◌, Error,
}
use ip_risk_agent_v.Contracts.{AnalysisType, SourceType}

pub data ArtifactStatus : Type 0 where
  active archived : ArtifactStatus

pub data ArtifactAvailability : Type 0 where
  available unavailable deleted : ArtifactAvailability

pub record Artifact : Type 0 where
  pub id : Text
  pub risk_workspace_id : Text
  pub mount_id : Text
  pub source_workspace_id : Text
  pub source_type : SourceType
  pub source_artifact_id : Text
  pub display_name : Text
  pub logical_path : Text
  pub status : ArtifactStatus
  pub first_seen_at : Instant
  pub last_seen_at : Instant

pub record ArtifactState : Type 0 where
  pub artifact_id : Text
  pub latest_revision : Option Text
  pub latest_checksum : Option Text
  pub availability_state : ArtifactAvailability
  pub updated_at : Instant
  pub latest_successful_analysis_revision_by_type : List (AnalysisType × Text)

-- `Artifact.__post_init__`, on timestamps that are instants already.
unfoldable pub post_init : Artifact → Outcome Error Artifact
post_init a = do
  id ← require_non_empty a.id "artifact.id"
  risk_workspace_id ← require_non_empty a.risk_workspace_id "artifact.risk_workspace_id"
  mount_id ← require_non_empty a.mount_id "artifact.mount_id"
  source_workspace_id ← require_non_empty a.source_workspace_id "artifact.source_workspace_id"
  source_artifact_id ← require_non_empty a.source_artifact_id "artifact.source_artifact_id"
  display_name ← require_non_empty a.display_name "artifact.display_name"
  logical_path ← require_non_empty a.logical_path "artifact.logical_path"
  require_chronological a.first_seen_at a.last_seen_at "artifact.first_seen_at"
      "artifact.last_seen_at"
  ok record a {
    id = id;
    risk_workspace_id = risk_workspace_id;
    mount_id = mount_id;
    source_workspace_id = source_workspace_id;
    source_artifact_id = source_artifact_id;
    display_name = display_name;
    logical_path = logical_path;
  }

unfoldable pub name_revisions :
    List (AnalysisType × Text) → Outcome Error (List (AnalysisType × Text))
name_revisions [] = ok []
name_revisions ((t, revision) ∷ rest) = do
  r ←
      require_non_empty revision
        "artifact_state.latest_successful_analysis_revision_by_type revision"
  rs ← name_revisions rest
  ok ((t, r) ∷ rs)

-- `ArtifactState.__post_init__`
unfoldable pub state_post_init : ArtifactState → Outcome Error ArtifactState
state_post_init s = do
  artifact_id ← require_non_empty s.artifact_id "artifact_state.artifact_id"
  revisions ← name_revisions s.latest_successful_analysis_revision_by_type
  ok record s { artifact_id = artifact_id; latest_successful_analysis_revision_by_type = revisions }
