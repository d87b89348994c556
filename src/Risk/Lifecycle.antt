-- ===== src/Risk/Lifecycle.antt =====
-- How the machine lifecycle of a risk moves: core/risk/transitions.py, `decide_lifecycle`.
use ip_risk_agent_v.Base.{
  ◌≡◌, refl, ◌⊎◌, Bool, true, false, Option, some, List, [], ◌∷◌, ◌≢◌, arith, All,
}
use ip_risk_agent_v.Contracts.{AnalysisStatus, AnalysisCoverage}
use ip_risk_agent_v.Risk.{RiskLifecycleState}
use ip_risk_agent_v.Risk.Transitions.{
  LifecycleDecision, analysis_is_authoritative, decide_lifecycle,
}

-- One analysis of the artifact, as the lifecycle sees it.
pub record Observation : Type 0 where
  pub candidate_present : Bool
  pub status : AnalysisStatus
  pub coverage : AnalysisCoverage

abbrev pub decide : Option RiskLifecycleState → Observation → LifecycleDecision
decide s o = decide_lifecycle s o.candidate_present o.status o.coverage

-- The state that a history of analyses leaves.
unfoldable pub run : Option RiskLifecycleState → List Observation → Option RiskLifecycleState
run s [] = s
run s (o ∷ os) = run (decide s o).next_state os

abbrev pub IsActive : Option RiskLifecycleState → Type 0
IsActive s = (s ≡ some RiskLifecycleState.new) ⊎ (s ≡ some RiskLifecycleState.existing)

-- An analysis that may not claim absence.
abbrev pub IsPartial : Observation → Type 0
IsPartial o = analysis_is_authoritative o.status o.coverage ≡ false

partial_keeps_IsActive :
    (s : Option RiskLifecycleState) (o : Observation)
    → IsActive s
    → IsPartial o
    → IsActive (decide s o).next_state
unfolding decide_lifecycle
partial_keeps_IsActive s o a p = ground arith

-- However many analyses that failed or did not see all of the file follow one another, with or
-- without candidates, an active risk stays active.
pub run_partial_IsActive :
    (s : Option RiskLifecycleState) (os : List Observation)
    → IsActive s
    → All IsPartial os
    → IsActive (run s os)
unfolding run
run_partial_IsActive s [] a p = a
run_partial_IsActive s (o ∷ os) a p =
    run_partial_IsActive (decide s o).next_state os (partial_keeps_IsActive s o a p.0) p.1

-- What was seen is recorded: a successful analysis with a candidate leaves an active risk unless it
-- covered nothing, whatever the state before.
pub seen_IsActive :
    (s : Option RiskLifecycleState) (coverage : AnalysisCoverage)
    → coverage ≢ AnalysisCoverage.none
    → IsActive (decide_lifecycle s true AnalysisStatus.succeeded coverage).next_state
unfolding decide_lifecycle
seen_IsActive s AnalysisCoverage.none h = absurd (h refl)
seen_IsActive s _ h = ground arith
