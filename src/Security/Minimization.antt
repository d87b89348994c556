-- ===== src/Security/Minimization.antt =====
-- application/security_gate/minimization.py: the segments of a file that are sent on, within a budget
-- of bytes. A text has no surrogates, so that it can be encoded.
pub mod Bounds
pub mod Honesty
use ip_risk_agent_v.Base.{
  ℕ, ◌+◌, ◌-◌, ◌≤◌, min, Bool, true, false, ◌&&◌, ◌||◌, not, leb, ltb, ◌==◌, if◌then◌else◌, Option,
  none, some, List, [], ◌∷◌, ◌++◌, keep, length, take, Text,
}
use ip_risk_agent_v.Contracts.{ArtifactKind, ContentScope, SegmentKind}

pub record TextSegment : Type 0 where
  pub segment_id : Text
  pub text : Text
  pub line_start : Option ℕ
  pub line_end : Option ℕ
  pub segment_kind : SegmentKind

-- The fields of `SecurityGatePolicy` that minimization reads.
pub record SecurityGatePolicy : Type 0 where
  pub max_output_bytes : ℕ
  pub max_segments : ℕ
  pub max_segment_bytes : ℕ
  pub dependency_output_bytes : ℕ
  pub document_full_text_bytes : ℕ

-- The bytes of a code point in UTF-8, and `len(text.encode("utf-8"))`.
abbrev pub byte_width : ℕ → ℕ
byte_width c = if ltb c 128 then 1 else if ltb c 2048 then 2 else if ltb c 65536 then 3 else 4

abbrev pub byte_size : Text → ℕ
byte_size [] = 0
byte_size (c ∷ s) = byte_width c + byte_size s

-- The longest part at the front whose bytes fit: what is left of the first bytes of an encoding when
-- bytes are dropped from their end until they decode.
unfoldable pub fit : ℕ → Text → Text
fit limit [] = []
fit limit (c ∷ s) =
    let rest = fit (limit - byte_width c) s in if leb (byte_width c) limit then c ∷ rest else []

unfoldable pub truncate_utf8 : Text → ℕ → Text × Bool
unfolding fit
truncate_utf8 value byte_limit =
    if leb (byte_size value) byte_limit then (value, false) else (fit byte_limit value, true)

abbrev pub is_changed : TextSegment → Bool
is_changed s = changed_kind s.segment_kind
  where
    changed_kind : SegmentKind → Bool
    changed_kind SegmentKind.changed = true
    changed_kind _ = false

abbrev pub is_context : TextSegment → Bool
is_context s = context_kind s.segment_kind
  where
    context_kind : SegmentKind → Bool
    context_kind SegmentKind.context = true
    context_kind _ = false

abbrev pub is_nil {ℓ} : {A : Type ℓ} → List A → Bool
is_nil [] = true
is_nil (x ∷ xs) = false

-- `changed + context`, if there are any.
abbrev pub changes_first : List TextSegment → List TextSegment
changes_first segments =
    let changes = keep is_changed segments ++ keep is_context segments in
    if is_nil changes then segments else changes

unfoldable pub select : ArtifactKind → List TextSegment → ℕ → SecurityGatePolicy → List TextSegment
select ArtifactKind.source_code segments size policy = changes_first segments
select ArtifactKind.document_text segments size policy =
    if ltb policy.document_full_text_bytes size then changes_first segments else segments
select ArtifactKind.text segments size policy =
    if ltb policy.document_full_text_bytes size then changes_first segments else segments
select _ segments size policy = segments

-- `artifact_kind in DEPENDENCY_KINDS`
abbrev is_dependency : ArtifactKind → Bool
is_dependency ArtifactKind.manifest = true
is_dependency ArtifactKind.lockfile = true
is_dependency _ = false

abbrev pub budget_of : ArtifactKind → SecurityGatePolicy → ℕ
budget_of kind policy =
    if is_dependency kind then policy.dependency_output_bytes else policy.max_output_bytes

abbrev pub segment_budget : ArtifactKind → SecurityGatePolicy → ℕ
segment_budget kind policy =
    if is_dependency kind then policy.dependency_output_bytes else policy.max_segment_bytes

-- One turn of the loop: the segment as it is cut, the output if it is dropped and if it is kept.
abbrev add_segment :
    TextSegment
    → Text × Bool
    → List TextSegment × Bool
    → List TextSegment × Bool
    → List TextSegment × Bool
add_segment segment cut dropped kept =
    if is_nil cut.0 && not (is_nil segment.text)
    then (dropped.0, true)
    else (record segment { text = cut.0 } ∷ kept.0, cut.1 || kept.1)

-- The loop: the output, and whether anything was left out.
unfoldable pub fill : ℕ → ℕ → List TextSegment → List TextSegment × Bool
unfolding truncate_utf8
fill per_segment remaining [] = ([], false)
fill per_segment remaining (segment ∷ segments) =
    let limit = min per_segment remaining in
    let cut = truncate_utf8 segment.text limit in
    let dropped = fill per_segment remaining segments in
    let kept = fill per_segment (remaining - byte_size cut.0) segments in
    if ltb limit 1 then ([], true) else add_segment segment cut dropped kept

abbrev scope_of : Bool → ContentScope → ContentScope
scope_of true content_scope = ContentScope.changeset_with_context
scope_of false content_scope = content_scope

-- Whether anything of the file is left out.
unfoldable pub is_minimized :
    ArtifactKind → List TextSegment → List TextSegment → SecurityGatePolicy → Bool
unfolding fill
is_minimized kind segments selected policy =
    not (length selected == length segments)
    || (fill (segment_budget kind policy) (budget_of kind policy)
        (take policy.max_segments selected)).1
    || ltb policy.max_segments (length selected)

unfoldable pub minimize_segments :
    ArtifactKind
    → ContentScope
    → List TextSegment
    → ℕ
    → SecurityGatePolicy
    → List TextSegment × ContentScope
unfolding select fill is_minimized
minimize_segments kind content_scope segments size policy =
    let selected = select kind segments size policy in
    let filled =
      fill (segment_budget kind policy) (budget_of kind policy)
        (take policy.max_segments selected) in
    (filled.0, scope_of (is_minimized kind segments selected policy) content_scope)
