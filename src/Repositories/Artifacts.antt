-- ===== src/Repositories/Artifacts.antt =====
-- `InMemoryArtifactRepository` of application/repositories/in_memory.py.
use ip_risk_agent_v.Base.{
  Bool, false, not, if◌then◌else◌, is_none, is_some, none, some, unique_violation, Option, List,
  Text, text_eq, text_leb, sorted, keep, get_item, set_item, values, not_found,
}
use ip_risk_agent_v.Exec.{Exec, raise, gets, modify, refuse_if, ◌>>=◌, ◌>>◌}
use ip_risk_agent_v.Artifacts.{Artifact, ArtifactState}
use ip_risk_agent_v.Repositories.{ControlState, PairDict}
use ip_risk_agent_v.Repositories.Pairs.{same_pair, get_pair, set_pair, drop_pair}

unfoldable pub get : ControlState → Text → Option Artifact
get s artifact_id = get_item s.artifacts artifact_id

-- The file of an id that an index gives.
abbrev artifact_of : ControlState → Option Text → Option Artifact
artifact_of s none = none
artifact_of s (some artifact_id) = get_item s.artifacts artifact_id

unfoldable pub get_by_source_identity : ControlState → Text → Text → Option Artifact
unfolding get_pair
get_by_source_identity s source_workspace_id source_artifact_id =
    artifact_of s
      (get_pair s.artifacts_by_source_identity (source_workspace_id, source_artifact_id))

abbrev source_key_of : Artifact → Text × Text
source_key_of artifact = (artifact.source_workspace_id, artifact.source_artifact_id)

unfoldable pub add : Artifact → ArtifactState → Exec ControlState (Unit {0})
unfolding get_pair set_pair
add artifact state = do
  known ← gets (λ s. get_item s.artifacts artifact.id)
  refuse_if (is_some known) (unique_violation "artifact already exists")
  owner ← gets (λ s. get_pair s.artifacts_by_source_identity (source_key_of artifact))
  refuse_if (is_some owner) (unique_violation "source artifact identity already exists")
  refuse_if (not (text_eq state.artifact_id artifact.id))
      (unique_violation "artifact state must belong to the added artifact")
  stated ← gets (λ s. get_item s.artifact_states state.artifact_id)
  refuse_if (is_some stated) (unique_violation "artifact state already exists")
  modify (λ s. record s {
    artifacts = set_item artifact.id artifact s.artifacts;
    artifacts_by_source_identity =
        set_pair (source_key_of artifact) artifact.id s.artifacts_by_source_identity;
    artifact_states = set_item state.artifact_id state s.artifact_states;
  })

abbrev owned_by_another : Option Text → Text → Bool
owned_by_another none id = false
owned_by_another (some owner) id = not (text_eq owner id)

-- The index after a file that was known under one key is saved under another.
abbrev moved_source : Text × Text → Text × Text → Text → PairDict Text → PairDict Text
moved_source previous_key source_key id d =
    set_pair source_key id
      (if same_pair previous_key source_key then d else drop_pair previous_key d)

unfoldable pub save_over : Option Artifact → Artifact → Exec ControlState (Unit {0})
unfolding get_pair set_pair
save_over none artifact = raise not_found
save_over (some previous) artifact = do
  refuse_if (not (text_eq previous.source_workspace_id artifact.source_workspace_id))
      (unique_violation "an artifact cannot move between source workspaces")
  owner ← gets (λ s. get_pair s.artifacts_by_source_identity (source_key_of artifact))
  refuse_if (owned_by_another owner artifact.id)
      (unique_violation "source artifact identity already exists")
  modify (λ s. record s {
    artifacts = set_item artifact.id artifact s.artifacts;
    artifacts_by_source_identity =
        moved_source (source_key_of previous) (source_key_of artifact) artifact.id
          s.artifacts_by_source_identity;
  })

unfoldable pub save : Artifact → Exec ControlState (Unit {0})
unfolding save_over
save artifact = do
  previous ← gets (λ s. get_item s.artifacts artifact.id)
  save_over previous artifact

unfoldable pub get_state : ControlState → Text → Option ArtifactState
get_state s artifact_id = get_item s.artifact_states artifact_id

unfoldable pub save_state : ArtifactState → Exec ControlState (Unit {0})
save_state state = do
  artifact ← gets (λ s. get_item s.artifacts state.artifact_id)
  refuse_if (is_none artifact) not_found
  previous ← gets (λ s. get_item s.artifact_states state.artifact_id)
  refuse_if (is_none previous) not_found
  modify (λ s. record s { artifact_states = set_item state.artifact_id state s.artifact_states })

unfoldable pub list_for_workspace : ControlState → Text → List Artifact
list_for_workspace s risk_workspace_id =
    sorted (λ a b. text_leb a.id b.id)
      (keep (λ a. text_eq a.risk_workspace_id risk_workspace_id) (values s.artifacts))
