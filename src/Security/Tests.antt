-- ===== src/Security/Tests.antt =====
-- Runs of minimization, and the properties at a concrete file.
use ip_risk_agent_v.Base.{
  ◌≡◌, ◌≢◌, refl, arith, ◌≤◌, none, List, [], ◌∷◌, any, length, take, All, Text, codes,
}
use ip_risk_agent_v.Contracts.{ArtifactKind, ContentScope, SegmentKind}
use ip_risk_agent_v.Security.Minimization.{
  TextSegment, SecurityGatePolicy, byte_size, budget_of, segment_budget, select, minimize_segments,
  is_changed,
}
use ip_risk_agent_v.Security.Minimization.Bounds.{total_bytes, CutFrom, minimize_segments-within}
use ip_risk_agent_v.Security.Minimization.Honesty.{unminimized_complete}

abbrev segment : SegmentKind → Text → TextSegment
segment kind text = record {
  segment_id = codes "s";
  text = text;
  line_start = none;
  line_end = none;
  segment_kind = kind;
}

abbrev small_policy : SecurityGatePolicy
small_policy = record {
  max_output_bytes = 5;
  max_segments = 2;
  max_segment_bytes = 4;
  dependency_output_bytes = 9;
  document_full_text_bytes = 100;
}

abbrev file : List TextSegment
file = segment SegmentKind.context (codes "abc") ∷ segment SegmentKind.changed (codes "hello") ∷ []

-- The change comes first and is cut; the context gets the byte that is left.
file_cut : minimize_segments ArtifactKind.source_code ContentScope.full_text file 8 small_policy ≡ (
  segment SegmentKind.changed (codes "hell") ∷ segment SegmentKind.context (codes "a") ∷ [],
  ContentScope.changeset_with_context,
)
unfolding minimize_segments
file_cut = refl

minimize_segments-within_example :
    let output =
      (minimize_segments ArtifactKind.source_code ContentScope.full_text file 8 small_policy).0 in
    (total_bytes output ≤ budget_of ArtifactKind.source_code small_policy)
    × All (λ s. byte_size s.text ≤ segment_budget ArtifactKind.source_code small_policy) output
    × (length output ≤ small_policy.max_segments)
    × CutFrom output
        (take small_policy.max_segments (select ArtifactKind.source_code file 8 small_policy))
minimize_segments-within_example =
    minimize_segments-within ArtifactKind.source_code ContentScope.full_text file 8 small_policy

abbrev short_file : List TextSegment
short_file =
    segment SegmentKind.context (codes "ab") ∷ segment SegmentKind.changed (codes "cd") ∷ []

short_file_whole :
    (minimize_segments ArtifactKind.source_code ContentScope.full_text short_file 4 small_policy).1
    ≢ ContentScope.changeset_with_context
unfolding minimize_segments
short_file_whole e = ground (arith, e)

unminimized_complete_example :
    let output =
      (minimize_segments ArtifactKind.source_code ContentScope.full_text short_file 4
        small_policy).0 in
    (output ≡ select ArtifactKind.source_code short_file 4 small_policy)
    × (any is_changed output ≡ any is_changed short_file)
unminimized_complete_example =
    unminimized_complete ArtifactKind.source_code ContentScope.full_text short_file 4 small_policy
      is_changed short_file_whole
