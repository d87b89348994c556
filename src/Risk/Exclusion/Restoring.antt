-- ===== src/Risk/Exclusion/Restoring.antt =====
-- Excluding a risk and bringing it back: application/risk_exclusion.py.
use ip_risk_agent_v.Base.{
  ap, ◌≡◌, ◌≢◌, refl, arith, ◌+◌, true, false, Option, none, some, List, [], ◌∷◌, ◌++◌, Text,
  Instant, ok, text_eq_refl, text_eq, reverse, reverse-append, append_assoc, ◌∙◌, All, All-append,
}
use ip_risk_agent_v.Risk.{Risk, ReviewDisposition}
use ip_risk_agent_v.Risk.Validity.{IsValid}
use ip_risk_agent_v.Risk.Transitions.{decide_exclusion}
use ip_risk_agent_v.Risk.Events.{RiskEvent, SafeValue, disposition_value, get, disposition_of}
use ip_risk_agent_v.Base.{same_text_refl, eq_of_same_text}
use ip_risk_agent_v.Risk.Exclusion.{
  exclude_risk, excluded_risk, exclusion_event, revive_risk, disposition_before_exclusion,
  or_unreviewed, is_exclusion_event, restore_from, restored_value, last_exclusion,
}
use ip_risk_agent_v.Risk.Exclusion.Updates.{
  exclude_risk_lem, Revived, Revived-after_exclusion, excluded_pair,
}

-- No event of the list records an exclusion.
abbrev pub NoExclusion : List RiskEvent → Type 0
NoExclusion = All (λ e. is_exclusion_event e ≡ false)

last_exclusion-skip :
    (later es : List RiskEvent) (revision : Text)
    → NoExclusion later
    → last_exclusion (later ++ es) revision ≡ last_exclusion es revision
unfolding last_exclusion
last_exclusion-skip [] es revision h = refl
last_exclusion-skip (e ∷ later) es revision h = rw h.0 (last_exclusion-skip later es revision h.1)

NoExclusion-reverse : (es : List RiskEvent) → NoExclusion es → NoExclusion (reverse es)
NoExclusion-reverse [] h = tt
NoExclusion-reverse (e ∷ es) h = rw (reverse-append (e ∷ []) es) (
    All-append (λ x. is_exclusion_event x ≡ false) (reverse es) (e ∷ [])
      (NoExclusion-reverse es h.1) (h.0, tt))

-- The latest exclusion in a history is the one after which no other comes.
last_exclusion-latest :
    (earlier later : List RiskEvent) (x : RiskEvent) (revision : Text)
    → is_exclusion_event x ≡ true
    → NoExclusion later
    → last_exclusion (reverse (earlier ++ (x ∷ later))) revision ≡ restore_from x revision
unfolding last_exclusion
last_exclusion-latest earlier later x revision hit h =
    rw (reverse-append earlier (x ∷ later), reverse-append (x ∷ []) later, append_assoc)
      (last_exclusion-skip (reverse later) (x ∷ reverse earlier) revision
          (NoExclusion-reverse later h)
        ∙ rw hit)

restored_value-live :
    (d : ReviewDisposition)
    → d ≢ ReviewDisposition.excluded
    → restored_value (some (SafeValue.text (disposition_value d))) ≡ some d
unfolding disposition_of text_eq
restored_value-live ReviewDisposition.unreviewed h = refl
restored_value-live ReviewDisposition.monitoring h = refl
restored_value-live ReviewDisposition.accepted_risk h = refl
restored_value-live ReviewDisposition.excluded h = absurd (h refl)

before-same_revision :
    (events : List RiskEvent) (s : Risk) (revision : Text)
    → s.latest_evidence_revision ≡ some revision
    → disposition_before_exclusion events s (some revision)
      ≡ last_exclusion (reverse events) revision
unfolding disposition_before_exclusion
before-same_revision events s revision e = rw e (rw (same_text_refl (some revision)))

before-other_revision :
    (events : List RiskEvent) (s : Risk) (revision : Option Text)
    → s.latest_evidence_revision ≢ revision
    → disposition_before_exclusion events s revision ≡ none
unfolding disposition_before_exclusion
before-other_revision events s none h = refl
before-other_revision events s (some revision) h =
    ground (arith, eq_of_same_text s.latest_evidence_revision (some revision))

module _ (r : Risk) (t : Instant) (reason id : Text) where
  exclusion_event-is : is_exclusion_event (excluded_pair r t reason id).1 ≡ true
  unfolding exclusion_event is_exclusion_event get excluded_risk decide_exclusion text_eq
  exclusion_event-is = refl

  restore_from-exclusion :
      (revision : Text)
      → r.review_disposition ≢ ReviewDisposition.excluded
      → r.latest_evidence_revision ≡ some revision
      → restore_from (excluded_pair r t reason id).1 revision ≡ some r.review_disposition
  unfolding exclusion_event restore_from get excluded_risk decide_exclusion text_eq disposition_of
  restore_from-exclusion revision live e =
      rw e (rw (text_eq_refl revision) (restored_value-live r.review_disposition live))

  before-exclusion :
      (earlier later : List RiskEvent) (revision : Text)
      → r.review_disposition ≢ ReviewDisposition.excluded
      → r.latest_evidence_revision ≡ some revision
      → NoExclusion later
      → let (s, x) = excluded_pair r t reason id in
        disposition_before_exclusion (earlier ++ (x ∷ later)) s (some revision)
        ≡ some r.review_disposition
  unfolding excluded_risk
  before-exclusion earlier later revision live e h =
      let (s, x) = excluded_pair r t reason id in
      before-same_revision (earlier ++ (x ∷ later)) s revision e
      ∙ last_exclusion-latest earlier later x revision exclusion_event-is h
      ∙ restore_from-exclusion revision live e

module _ (r : Risk) (v : IsValid r) (live : r.review_disposition ≢ ReviewDisposition.excluded)
    (t t' : Instant) (reason id reason' id' : Text) (earlier later : List RiskEvent) where
  -- A risk is excluded, and its file comes back at the revision that the risk was last seen at,
  -- with no other exclusion recorded in between: both calls succeed, the risk exists again under
  -- the disposition that the reviewer had given it, and its review version has grown by two.
  pub revive-exclude :
      (revision : Text)
      → r.latest_evidence_revision ≡ some revision
      → NoExclusion later
      → let (s, x) = excluded_pair r t reason id in
        (exclude_risk r t reason id ≡ ok (some (s, x)))
        × Revived
            (revive_risk (earlier ++ (x ∷ later)) s s.artifact_id (some revision) t' reason' id')
            r.review_disposition
            (r.review_version + 2)
  revive-exclude revision e h =
      let (s, x) = excluded_pair r t reason id in
      (
        exclude_risk_lem r t reason id v live,
        Revived-after_exclusion (earlier ++ (x ∷ later)) r v t t' (some revision) reason' id'
            (ap or_unreviewed (before-exclusion r t reason id earlier later revision live e h)),
      )

  -- If the file comes back at another revision, or at none, the risk exists again, unreviewed.
  pub revive-exclude_changed :
      (revision : Option Text)
      → r.latest_evidence_revision ≢ revision
      → let (s, x) = excluded_pair r t reason id in
        (exclude_risk r t reason id ≡ ok (some (s, x)))
        × Revived
            (revive_risk (earlier ++ (x ∷ later)) s s.artifact_id revision t' reason' id')
            ReviewDisposition.unreviewed
            (r.review_version + 2)
  revive-exclude_changed revision e =
      let (s, x) = excluded_pair r t reason id in
      (
        exclude_risk_lem r t reason id v live,
        Revived-after_exclusion (earlier ++ (x ∷ later)) r v t t' revision reason' id' (
            ap or_unreviewed (
              before-other_revision (earlier ++ (x ∷ later)) s revision
                (unfold excluded_risk in e))),
      )
