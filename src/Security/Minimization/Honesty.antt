-- ===== src/Security/Minimization/Honesty.antt =====
-- What minimization claims about completeness.
use ip_risk_agent_v.Base.{
  ◌≡◌, ◌≢◌, refl, arith, ap, sym, ◌∙◌, ℕ, zero, suc, ◌+◌, ◌-◌, ◌≤◌, min, Bool, true, false, not,
  ◌&&◌, ◌||◌, ==_iff, ltb, if◌then◌else◌, List, [], ◌∷◌, ◌++◌, any, keep, length, length-append,
  take, Text, Bool-cases, inl, inr,
}
use ip_risk_agent_v.Contracts.{ArtifactKind, ContentScope}
use ip_risk_agent_v.Security.Minimization.{
  TextSegment, SecurityGatePolicy, byte_size, truncate_utf8, is_nil, select, changes_first,
  is_changed, is_context, budget_of, segment_budget, fill, is_minimized, minimize_segments,
}

truncate_utf8-whole :
    (s : Text) (limit : ℕ) → (truncate_utf8 s limit).1 ≡ false → (truncate_utf8 s limit).0 ≡ s
unfolding truncate_utf8
truncate_utf8-whole s limit h = ground arith

fill-whole :
    (per remaining : ℕ) (ss : List TextSegment)
    → (fill per remaining ss).1 ≡ false
    → (fill per remaining ss).0 ≡ ss
unfolding fill
fill-whole per remaining [] h = refl
fill-whole per remaining (s ∷ ss) h =
    let limit = min per remaining in
    let text = (truncate_utf8 s.text limit).0 in
    elim (Bool-cases (ltb limit 1)) [
      | inl e ↦ absurd (ground (arith, rw e at h))
      | inr e ↦ elim (Bool-cases (is_nil text && not (is_nil s.text))) [
        | inl d ↦ absurd (ground (arith, rw (e, d) at h))
        | inr d ↦
            let k : ((truncate_utf8 s.text limit).1 || (fill per (remaining - byte_size text) ss).1)
                ≡ false =
              rw (e, d) at h in
            let whole = truncate_utf8-whole s.text limit (ground (arith, k)) in
            let rest = fill-whole per (remaining - byte_size text) ss (ground (arith, k)) in
            rw e (
              rw d (
                ap (λ t. record s { text = t } ∷ (fill per (remaining - byte_size text) ss).0) whole
                ∙ ap (λ r. s ∷ r) rest))
      ]
    ]

take-all : (n : ℕ) (ss : List TextSegment) → length ss ≤ n → take n ss ≡ ss
take-all zero [] h = refl
take-all zero (s ∷ ss) h = absurd (omega (arith, h))
take-all (suc n) [] h = refl
take-all (suc n) (s ∷ ss) h = ap (λ r. s ∷ r) (take-all n ss (omega (arith, h)))

any-append :
    (test : TextSegment → Bool) (xs ys : List TextSegment)
    → any test (xs ++ ys) ≡ (any test xs || any test ys)
any-append test [] ys = refl
any-append test (x ∷ xs) ys = ground (arith, any-append test xs ys)

-- The changed and the context segments are at most all of them, and all of them if as many.
keep-length :
    (ss : List TextSegment) → length (keep is_changed ss) + length (keep is_context ss) ≤ length ss
keep-length [] = omega arith
keep-length (s ∷ ss) = ground (arith, keep-length ss)

keep-any :
    (test : TextSegment → Bool) (ss : List TextSegment)
    → length (keep is_changed ss) + length (keep is_context ss) ≡ length ss
    → (any test (keep is_changed ss) || any test (keep is_context ss)) ≡ any test ss
keep-any test [] h = refl
keep-any test (s ∷ ss) h = ground (arith, keep-any test ss, keep-length ss)

changes_first-any :
    (test : TextSegment → Bool) (ss : List TextSegment)
    → length (changes_first ss) ≡ length ss
    → any test (changes_first ss) ≡ any test ss
changes_first-any test ss h =
    let cs = keep is_changed ss in
    let bs = keep is_context ss in
    elim (Bool-cases (is_nil (cs ++ bs))) [
      | inl e ↦ rw e refl
      | inr e ↦
          let k : length (cs ++ bs) ≡ length ss = rw e at h in
          rw e (any-append test cs bs ∙ keep-any test ss (sym (length-append cs bs) ∙ k))
    ]

large_first-any :
    (test : TextSegment → Bool) (large : Bool) (ss : List TextSegment)
    → length (if large then changes_first ss else ss) ≡ length ss
    → any test (if large then changes_first ss else ss) ≡ any test ss
large_first-any test true ss h = changes_first-any test ss h
large_first-any test false ss h = refl

select-any :
    (test : TextSegment → Bool) (kind : ArtifactKind) (ss : List TextSegment) (size : ℕ)
    (policy : SecurityGatePolicy)
    → length (select kind ss size policy) ≡ length ss
    → any test (select kind ss size policy) ≡ any test ss
unfolding select
select-any test ArtifactKind.source_code ss size policy h = changes_first-any test ss h
select-any test ArtifactKind.document_text ss size policy h =
    large_first-any test (ltb policy.document_full_text_bytes size) ss h
select-any test ArtifactKind.text ss size policy h =
    large_first-any test (ltb policy.document_full_text_bytes size) ss h
select-any test ArtifactKind.manifest ss size policy h = refl
select-any test ArtifactKind.lockfile ss size policy h = refl
select-any test ArtifactKind.unknown ss size policy h = refl

not_minimized :
    (kind : ArtifactKind) (scope : ContentScope) (ss : List TextSegment) (size : ℕ)
    (policy : SecurityGatePolicy)
    → (minimize_segments kind scope ss size policy).1 ≢ ContentScope.changeset_with_context
    → is_minimized kind ss (select kind ss size policy) policy ≡ false
unfolding minimize_segments
not_minimized kind scope ss size policy h =
    elim (Bool-cases (is_minimized kind ss (select kind ss size policy) policy)) [
      | inl e ↦ absurd (h (rw e refl))
      | inr e ↦ e
    ]

parts :
    (kind : ArtifactKind) (ss selected : List TextSegment) (policy : SecurityGatePolicy)
    → is_minimized kind ss selected policy ≡ false
    → (length selected ≡ length ss)
      × ((fill
            (segment_budget kind policy)
            (budget_of kind policy)
            (take policy.max_segments selected)).1
          ≡ false)
      × (length selected ≤ policy.max_segments)
unfolding is_minimized
parts kind ss selected policy h = ground (arith, ==_iff (length selected) (length ss))

filled :
    (kind : ArtifactKind) (scope : ContentScope) (ss : List TextSegment) (size : ℕ)
    (policy : SecurityGatePolicy)
    → let selected = select kind ss size policy in
      (fill
          (segment_budget kind policy)
          (budget_of kind policy)
          (take policy.max_segments selected)).1
        ≡ false
      → take policy.max_segments selected ≡ selected
      → (minimize_segments kind scope ss size policy).0 ≡ selected
unfolding minimize_segments
filled kind scope ss size policy w e =
    fill-whole (segment_budget kind policy) (budget_of kind policy)
      (take policy.max_segments (select kind ss size policy)) w
    ∙ e

-- The scope tells the truth: if the scope that goes with the output is not the one of an excerpt,
-- then the output is all that was selected, uncut, and every segment of the file is in it (a test
-- finds a segment in the output exactly when it finds one in the file).
pub unminimized_complete :
    (kind : ArtifactKind) (scope : ContentScope) (ss : List TextSegment) (size : ℕ)
    (policy : SecurityGatePolicy) (test : TextSegment → Bool)
    → (minimize_segments kind scope ss size policy).1 ≢ ContentScope.changeset_with_context
    → let output = (minimize_segments kind scope ss size policy).0 in
      (output ≡ select kind ss size policy) × (any test output ≡ any test ss)
unminimized_complete kind scope ss size policy test h =
    let selected = select kind ss size policy in
    let (l, w, m) = parts kind ss selected policy (not_minimized kind scope ss size policy h) in
    let q : (minimize_segments kind scope ss size policy).0 ≡ selected =
      filled kind scope ss size policy w (take-all policy.max_segments selected m) in
    (q, ap (any test) q ∙ select-any test kind ss size policy l)
