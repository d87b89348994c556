-- ===== src/Execution/ChangeEvents/Validity.antt =====
-- What `ChangeEvent.__post_init__` asks for, and that the transitions keep it.
use ip_risk_agent_v.Base.{
  ◌↔◌, subst, ◌∙◌, require_non_empty-cases, Outcome-cases, Error, raised, ◌⊎◌, inl, inr, ◌≡◌, refl,
  arith, ◌≤◌, ℕ, true, Option, none, some, Text, String, Instant, IsNormal, ok,
}
use ip_risk_agent_v.Execution.ChangeEvents.{
  ChangeEvent, ChangeEventStatus, same_identity, optional_non_empty, check_status, name_fields,
  check_fields, post_init,
}

abbrev pub NormalOrAbsent : Option Text → String → Type 0
NormalOrAbsent none name = Unit
NormalOrAbsent (some s) name = IsNormal s name

-- What each status asks of the attempts, the failure and the lease.
abbrev pub StatusFits : ChangeEventStatus → ℕ → Option Text → Option Instant → Type 0
StatusFits ChangeEventStatus.pending attempts none none = Unit
StatusFits ChangeEventStatus.processing attempts none (some lease) = 1 ≤ attempts
StatusFits ChangeEventStatus.failed attempts (some failure) none = 1 ≤ attempts
StatusFits ChangeEventStatus.done attempts none none = Unit
StatusFits _ _ _ _ = ⊥

pub record IsValid (e : ChangeEvent) : Type 0 where
  pub id : IsNormal e.id "change_event.id"
  pub event_fingerprint : IsNormal e.event_fingerprint "change_event.event_fingerprint"
  pub risk_workspace_id : IsNormal e.risk_workspace_id "change_event.risk_workspace_id"
  pub mount_id : IsNormal e.mount_id "change_event.mount_id"
  pub source_workspace_id : IsNormal e.source_workspace_id "change_event.source_workspace_id"
  pub source_artifact_id : IsNormal e.source_artifact_id "change_event.source_artifact_id"
  pub chronological : e.created_at ≤ e.updated_at
  pub identity : same_identity e e.source_change ≡ true
  pub failure : NormalOrAbsent e.last_error_safe "change_event.last_error_safe"
  pub fits : StatusFits e.status e.attempts e.last_error_safe e.lease_expires_at

check_status-accepts :
    (e : ChangeEvent) (s : ChangeEventStatus) (n : ℕ) (f : Option Text) (l : Option Instant)
    → StatusFits s n f l
    → check_status e s n f l ≡ ok e
unfolding check_status
check_status-accepts e ChangeEventStatus.pending n none none h = refl
check_status-accepts e ChangeEventStatus.processing n none (some l) h = ground arith
check_status-accepts e ChangeEventStatus.failed n (some f) none h = ground arith
check_status-accepts e ChangeEventStatus.done n none none h = refl
check_status-accepts e ChangeEventStatus.pending n none (some l) h = absurd h
check_status-accepts e ChangeEventStatus.pending n (some f) l h = absurd h
check_status-accepts e ChangeEventStatus.processing n none none h = absurd h
check_status-accepts e ChangeEventStatus.processing n (some f) l h = absurd h
check_status-accepts e ChangeEventStatus.failed n none l h = absurd h
check_status-accepts e ChangeEventStatus.failed n (some f) (some l) h = absurd h
check_status-accepts e ChangeEventStatus.done n none (some l) h = absurd h
check_status-accepts e ChangeEventStatus.done n (some f) l h = absurd h

pub optional_non_empty-accepts :
    (f : Option Text) (name : String) → NormalOrAbsent f name → optional_non_empty f name ≡ ok f
optional_non_empty-accepts none name h = refl
optional_non_empty-accepts (some s) name h = rw h

-- A valid event passes the constructor's checks unchanged.
pub post_init-accepts : (e : ChangeEvent) → IsValid e → post_init e ≡ ok e
unfolding post_init
post_init-accepts e v = ground (
  arith,
  optional_non_empty-accepts e.last_error_safe "change_event.last_error_safe" v.failure,
  check_status-accepts e e.status e.attempts e.last_error_safe e.lease_expires_at v.fits,
)

check_status-fits :
    (e e' : ChangeEvent) (s : ChangeEventStatus) (n : ℕ) (f : Option Text) (l : Option Instant)
    → check_status e s n f l ≡ ok e'
    → (e ≡ e') × StatusFits s n f l
unfolding check_status
check_status-fits e e' ChangeEventStatus.pending n f l h = ground arith
check_status-fits e e' ChangeEventStatus.processing n f l h = ground arith
check_status-fits e e' ChangeEventStatus.failed n f l h = ground arith
check_status-fits e e' ChangeEventStatus.done n f l h = ground arith

pub optional_non_empty-cases :
    (s : Option Text) (name : String)
    → ((t : Option Text) × (optional_non_empty s name ≡ ok t) × NormalOrAbsent t name)
      ⊎ ((e : Error) × (optional_non_empty s name ≡ raised e))
optional_non_empty-cases none name = inl (none, refl, tt)
optional_non_empty-cases (some s) name = elim (require_non_empty-cases s name) [
  | inl (t, e, n) ↦ inl (some t, rw e, n)
  | inr (x, e) ↦ inr (x, rw e)
]

pub record IsNamed (e : ChangeEvent) : Type 0 where
  pub id : IsNormal e.id "change_event.id"
  pub event_fingerprint : IsNormal e.event_fingerprint "change_event.event_fingerprint"
  pub risk_workspace_id : IsNormal e.risk_workspace_id "change_event.risk_workspace_id"
  pub mount_id : IsNormal e.mount_id "change_event.mount_id"
  pub source_workspace_id : IsNormal e.source_workspace_id "change_event.source_workspace_id"
  pub source_artifact_id : IsNormal e.source_artifact_id "change_event.source_artifact_id"

-- The fields that no check touches.
abbrev pub SameState : ChangeEvent → ChangeEvent → Type 0
SameState c e = (e.status ≡ c.status) × (e.attempts ≡ c.attempts)

name_fields-SameState : (c e : ChangeEvent) → name_fields c ≡ ok e → SameState c e
unfolding name_fields
name_fields-SameState c e h = ground arith

name_fields-IsNamed : (c e : ChangeEvent) → name_fields c ≡ ok e → IsNamed e
unfolding name_fields
name_fields-IsNamed c e h = ground (
  arith,
  require_non_empty-cases c.id "change_event.id",
  require_non_empty-cases c.event_fingerprint "change_event.event_fingerprint",
  require_non_empty-cases c.risk_workspace_id "change_event.risk_workspace_id",
  require_non_empty-cases c.mount_id "change_event.mount_id",
  require_non_empty-cases c.source_workspace_id "change_event.source_workspace_id",
  require_non_empty-cases c.source_artifact_id "change_event.source_artifact_id",
)

-- What `check_fields` has checked of `c`, where `e` is what it returns.
record IsChecked (c e : ChangeEvent) (f : Option Text) : Type 0 where
  pub chronological : c.created_at ≤ c.updated_at
  pub identity : same_identity (record c { last_error_safe = f }) c.source_change ≡ true
  pub failure : NormalOrAbsent f "change_event.last_error_safe"
  pub status :
      check_status (record c { last_error_safe = f }) c.status c.attempts f c.lease_expires_at
      ≡ ok e

check_fields-IsChecked :
    (c e : ChangeEvent) → check_fields c ≡ ok e → (f : Option Text) × IsChecked c e f
unfolding check_fields same_identity
check_fields-IsChecked c e h =
    ground (arith, optional_non_empty-cases c.last_error_safe "change_event.last_error_safe")

check_fields-IsValid :
    (c e : ChangeEvent) → IsNamed c → check_fields c ≡ ok e → IsValid e × SameState c e
check_fields-IsValid c e n h =
    let (f, k) = check_fields-IsChecked c e h in
    let d : ChangeEvent = record c { last_error_safe = f } in
    let (q, fits) = check_status-fits d e c.status c.attempts f c.lease_expires_at k.status in
    let v : IsValid d = record {
      id = n.id;
      event_fingerprint = n.event_fingerprint;
      risk_workspace_id = n.risk_workspace_id;
      mount_id = n.mount_id;
      source_workspace_id = n.source_workspace_id;
      source_artifact_id = n.source_artifact_id;
      chronological = k.chronological;
      identity = k.identity;
      failure = k.failure;
      fits = fits;
    } in
    (subst IsValid q v, subst (SameState c) q (refl, refl))

-- What the constructor returns is valid, whatever it is given.
pub post_init-IsValid : (c e : ChangeEvent) → post_init c ≡ ok e → IsValid e × SameState c e
unfolding post_init
post_init-IsValid c e h = elim (Outcome-cases (name_fields c)) [
  | inl (d, q) ↦
      let (v, same) = check_fields-IsValid d e (name_fields-IsNamed c d q) (rw q at h) in
      let before = name_fields-SameState c d q in (v, (same.0 ∙ before.0, same.1 ∙ before.1))
  | inr (x, q) ↦ absurd (ground arith)
]

-- The constructor lets a change event through as it is exactly when the change event is valid.
pub change_event_fixed_iff : (c : ChangeEvent) → (post_init c ≡ ok c) ↔ IsValid c
change_event_fixed_iff c = (λ h. (post_init-IsValid c c h).0, post_init-accepts c)
