-- ===== src/Security/Minimization/Bounds.antt =====
-- What minimization sends on is within the budget, and comes from the file.
use ip_risk_agent_v.Base.{
  ◌≡◌, refl, arith, ap, ℕ, ◌+◌, ◌-◌, ◌≤◌, min, not, ◌&&◌, leb, ltb, List, [], ◌∷◌, ◌++◌, append-nil,
  length, take, length-take, All, Text, Bool-cases, inl, inr,
}
use ip_risk_agent_v.Contracts.{ArtifactKind, ContentScope}
use ip_risk_agent_v.Security.Minimization.{
  TextSegment, SecurityGatePolicy, byte_width, byte_size, fit, truncate_utf8, is_nil, select,
  budget_of, segment_budget, fill, minimize_segments,
}

fit-size : (limit : ℕ) (s : Text) → byte_size (fit limit s) ≤ limit
unfolding fit
fit-size limit [] = omega arith
fit-size limit (c ∷ s) = elim (Bool-cases (leb (byte_width c) limit)) [
  | inl e ↦ rw e (ground (arith, fit-size (limit - byte_width c) s))
  | inr e ↦ rw e (omega arith)
]

fit-prefix : (limit : ℕ) (s : Text) → (rest : Text) × (fit limit s ++ rest ≡ s)
unfolding fit
fit-prefix limit [] = ([], refl)
fit-prefix limit (c ∷ s) = elim (Bool-cases (leb (byte_width c) limit)) [
  | inl e ↦ let (rest, h) = fit-prefix (limit - byte_width c) s in rw e (rest, ap (λ r. c ∷ r) h)
  | inr e ↦ rw e (c ∷ s, refl)
]

truncate_utf8-size : (s : Text) (limit : ℕ) → byte_size (truncate_utf8 s limit).0 ≤ limit
unfolding truncate_utf8
truncate_utf8-size s limit = elim (Bool-cases (leb (byte_size s) limit)) [
  | inl e ↦ rw e (ground arith)
  | inr e ↦ rw e (fit-size limit s)
]

truncate_utf8-prefix :
    (s : Text) (limit : ℕ) → (rest : Text) × ((truncate_utf8 s limit).0 ++ rest ≡ s)
unfolding truncate_utf8
truncate_utf8-prefix s limit = elim (Bool-cases (leb (byte_size s) limit)) [
  | inl e ↦ rw e ([], append-nil s)
  | inr e ↦ rw e (fit-prefix limit s)
]

-- Segments in the order of others, some left out and some cut at their end.
pub data CutFrom : List TextSegment → List TextSegment → Type 0 where
  nothing : {ss : List TextSegment} → CutFrom [] ss
  left_out : {os ss : List TextSegment} (s : TextSegment) → CutFrom os ss → CutFrom os (s ∷ ss)
  cut :
      {os ss : List TextSegment} (s : TextSegment) (text rest : Text)
      → text ++ rest ≡ s.text
      → CutFrom os ss
      → CutFrom (record s { text = text } ∷ os) (s ∷ ss)

abbrev pub total_bytes : List TextSegment → ℕ
total_bytes [] = 0
total_bytes (s ∷ ss) = byte_size s.text + total_bytes ss

record Within (per remaining : ℕ) (output segments : List TextSegment) : Type 0 where
  pub total : total_bytes output ≤ remaining
  pub each : All (λ s. byte_size s.text ≤ per) output
  pub count : length output ≤ length segments
  pub from : CutFrom output segments

fill-Within :
    (per remaining : ℕ) (ss : List TextSegment) → Within per remaining (fill per remaining ss).0 ss
unfolding fill
fill-Within per remaining [] = record {
  total = omega arith;
  each = tt;
  count = omega arith;
  from = nothing;
}
fill-Within per remaining (s ∷ ss) =
    let limit = min per remaining in
    let text = (truncate_utf8 s.text limit).0 in
    elim (Bool-cases (ltb limit 1)) [
      | inl e ↦ rw e record { total = omega arith; each = tt; count = omega arith; from = nothing }
      | inr e ↦ elim (Bool-cases (is_nil text && not (is_nil s.text))) [
        | inl d ↦
            let w = fill-Within per remaining ss in
            rw e (
              rw d record {
                total = w.total;
                each = w.each;
                count = omega (arith, w.count);
                from = left_out s w.from;
              })
        | inr d ↦
            let w = fill-Within per (remaining - byte_size text) ss in
            let b : byte_size text ≤ limit = truncate_utf8-size s.text limit in
            let (rest, p) = truncate_utf8-prefix s.text limit in
            rw e (
              rw d record {
                total = omega (arith, w.total, b);
                each = (omega (arith, b), w.each);
                count = omega (arith, w.count);
                from = cut s text rest p w.from;
              })
      ]
    ]

-- Minimization keeps the bytes of all that is sent on within the budget for the kind of file, those
-- of each segment within the limit for a segment, and the segments within their number; and it sends
-- on nothing but segments that were selected, in their order, each whole or cut at its end.
pub minimize_segments-within :
    (kind : ArtifactKind) (scope : ContentScope) (segments : List TextSegment) (size : ℕ)
    (policy : SecurityGatePolicy)
    → let output = (minimize_segments kind scope segments size policy).0 in
      (total_bytes output ≤ budget_of kind policy)
      × All (λ s. byte_size s.text ≤ segment_budget kind policy) output
      × (length output ≤ policy.max_segments)
      × CutFrom output (take policy.max_segments (select kind segments size policy))
unfolding minimize_segments
minimize_segments-within kind scope segments size policy =
    let selected = select kind segments size policy in
    let w =
      fill-Within (segment_budget kind policy) (budget_of kind policy)
        (take policy.max_segments selected) in
    (w.total, w.each, omega (arith, w.count, length-take policy.max_segments selected), w.from)
