-- ===== src/Repositories/Risks.antt =====
-- `InMemoryRiskRepository` of application/repositories/in_memory.py.
pub mod Consistency
use ip_risk_agent_v.Base.{
  ℕ, ◌+◌, ltb, ◌==◌, Bool, true, false, not, ◌&&◌, ◌||◌, is_some, is_none, if◌then◌else◌, Option,
  none, some, List, [], ◌∷◌, keep, map, any, all, Text, text_eq, same_text, text_leb, stamped_leb,
  sorted, Dict, get_item, set_item, values, Error, not_found, unique_violation,
}
use ip_risk_agent_v.Exec.{Exec, pure, raise, gets, modify, refuse_if, ◌>>=◌, ◌>>◌}
use ip_risk_agent_v.Contracts.{AnalysisType, same_analysis}
use ip_risk_agent_v.Risk.{Risk, RiskLifecycleState}
use ip_risk_agent_v.Risk.Transitions.{same_state, same_disposition}
use ip_risk_agent_v.Risk.Events.{RiskEvent}
use ip_risk_agent_v.Risk.Evidence.{RiskEvidence}
use ip_risk_agent_v.Repositories.{ControlState}

unfoldable pub get : ControlState → Text → Option Risk
get s risk_id = get_item s.risks risk_id

abbrev risk_of : ControlState → Option Text → Option Risk
risk_of s none = none
risk_of s (some risk_id) = get_item s.risks risk_id

unfoldable pub get_by_key : ControlState → Text → Option Risk
get_by_key s risk_key = risk_of s (get_item s.risks_by_key risk_key)

-- The two assignments that end `add` and `save`.
abbrev pub put : Risk → ControlState → ControlState
put risk s = record s {
  risks = set_item risk.id risk s.risks;
  risks_by_key = set_item risk.risk_key risk.id s.risks_by_key;
}

unfoldable pub add : Risk → Exec ControlState (Unit {0})
add risk = do
  known ← gets (λ s. get_item s.risks risk.id)
  refuse_if (is_some known) (unique_violation "risk already exists")
  owner ← gets (λ s. get_item s.risks_by_key risk.risk_key)
  refuse_if (is_some owner) (unique_violation "risk key already exists")
  modify (put risk)

-- The fields of a risk that may not change.
abbrev pub same_canonical_identity : Risk → Risk → Bool
same_canonical_identity previous risk =
    text_eq previous.risk_key risk.risk_key
    && text_eq previous.risk_workspace_id risk.risk_workspace_id
    && text_eq previous.artifact_id risk.artifact_id
    && same_analysis previous.analysis_type risk.analysis_type
    && previous.first_seen_at == risk.first_seen_at

-- The review version stays with the disposition, and goes up by one with a change of it.
abbrev pub next_review_version : Risk → Risk → Bool
next_review_version previous risk = not (
    ltb risk.review_version previous.review_version
    || ltb (previous.review_version + 1) risk.review_version
    || (same_disposition risk.review_disposition previous.review_disposition
        && not (risk.review_version == previous.review_version))
    || (not (same_disposition risk.review_disposition previous.review_disposition)
        && not (risk.review_version == previous.review_version + 1)))

abbrev pub owned_by_other : Option Text → Text → Bool
owned_by_other none risk_id = false
owned_by_other (some owner) risk_id = not (text_eq owner risk_id)

unfoldable pub save_over : Option Risk → Risk → Exec ControlState (Unit {0})
save_over none risk = raise not_found
save_over (some previous) risk = do
  refuse_if (not (same_canonical_identity previous risk))
      (unique_violation "risk canonical identity is immutable")
  refuse_if (not (next_review_version previous risk))
      (unique_violation "risk review disposition requires one review version increment")
  owner ← gets (λ s. get_item s.risks_by_key risk.risk_key)
  refuse_if (owned_by_other owner risk.id) (unique_violation "risk key already exists")
  modify (put risk)

unfoldable pub save : Risk → Exec ControlState (Unit {0})
unfolding save_over
save risk = do previous ← gets (λ s. get_item s.risks risk.id); save_over previous risk

abbrev by_id : Risk → Risk → Bool
by_id a b = text_leb a.id b.id

abbrev in_states : Option (List RiskLifecycleState) → RiskLifecycleState → Bool
in_states none state = true
in_states (some states) state = any (same_state state) states

abbrev pub of_artifact : Text → AnalysisType → Option (List RiskLifecycleState) → Risk → Bool
of_artifact artifact_id analysis_type lifecycle_states risk =
    text_eq risk.artifact_id artifact_id
    && same_analysis risk.analysis_type analysis_type
    && in_states lifecycle_states risk.lifecycle_state

unfoldable pub list_for_artifact :
    ControlState → Text → AnalysisType → Option (List RiskLifecycleState) → List Risk
list_for_artifact s artifact_id analysis_type lifecycle_states =
    sorted by_id (keep (of_artifact artifact_id analysis_type lifecycle_states) (values s.risks))

unfoldable pub list_for_workspace : ControlState → Text → List Risk
list_for_workspace s risk_workspace_id =
    sorted by_id (keep (λ r. text_eq r.risk_workspace_id risk_workspace_id) (values s.risks))

unfoldable pub add_evidence : RiskEvidence → Exec ControlState (Unit {0})
add_evidence evidence = do
  known ← gets (λ s. get_item s.risk_evidence evidence.id)
  refuse_if (is_some known) (unique_violation "risk evidence already exists")
  risk ← gets (λ s. get_item s.risks evidence.risk_id)
  refuse_if (is_none risk) not_found
  modify (λ s. record s { risk_evidence = set_item evidence.id evidence s.risk_evidence })

abbrev pub is_of_run : Text → Text → RiskEvidence → Bool
is_of_run risk_id analysis_job_id e =
    text_eq e.risk_id risk_id && text_eq e.analysis_job_id analysis_job_id

-- Without the number of what was removed, which its caller drops.
unfoldable pub clear_evidence : Text → Text → Exec ControlState (Unit {0})
clear_evidence risk_id analysis_job_id = modify (λ s. record s {
  risk_evidence = keep (λ item. not (is_of_run risk_id analysis_job_id item.1)) s.risk_evidence;
})

abbrev of_job : Option Text → Text → Bool
of_job none analysis_job_id = true
of_job (some wanted) analysis_job_id = text_eq analysis_job_id wanted

unfoldable pub list_evidence : ControlState → Text → Option Text → List RiskEvidence
list_evidence s risk_id analysis_job_id =
    sorted (λ a b. text_leb a.id b.id)
      (keep (λ e. text_eq e.risk_id risk_id && of_job analysis_job_id e.analysis_job_id)
        (values s.risk_evidence))

unfoldable pub append_event : RiskEvent → Exec ControlState (Unit {0})
append_event event = do
  known ← gets (λ s. get_item s.risk_events event.id)
  refuse_if (is_some known) (unique_violation "risk event already exists")
  risk ← gets (λ s. get_item s.risks event.risk_id)
  refuse_if (is_none risk) not_found
  modify (λ s. record s { risk_events = set_item event.id event s.risk_events })

unfoldable pub list_events : ControlState → Text → List RiskEvent
list_events s risk_id =
    sorted (λ a b. stamped_leb a.occurred_at a.id b.occurred_at b.id)
      (keep (λ e. text_eq e.risk_id risk_id) (values s.risk_events))
