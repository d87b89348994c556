-- ===== src/Workspaces/Administration/Tests.antt =====
-- Runs of the plans for a workspace, and the properties at a concrete one.
use ip_risk_agent_v.Base.{
  ◌≡◌, ◌≢◌, refl, arith, none, some, [], ◌∷◌, codes, text_eq, aware, ok, raised, denied,
  require_non_empty, strip, strip_of, lstrip, rstrip, same_text,
}
use ip_risk_agent_v.Memberships.{Membership, MembershipRole, MembershipStatus}
use ip_risk_agent_v.Memberships
use ip_risk_agent_v.Memberships.Validity.{post_init-IsValid as member_post_init-IsValid}
use ip_risk_agent_v.Memberships.Authorization.{
  authorize_vws_action, decide_member, require_authorized,
}
use ip_risk_agent_v.Audit.{AuditEvent, AuditEventType}
use ip_risk_agent_v.Audit
use ip_risk_agent_v.Risk.Events.{ActorType, SafeValue}
use ip_risk_agent_v.Workspaces.Models.{RiskWorkspace, RiskWorkspaceStatus, has_nul, exceeds_limit}
use ip_risk_agent_v.Workspaces.Models
use ip_risk_agent_v.Workspaces.Models.Validity.{IsValid, post_init-IsValid}
use ip_risk_agent_v.Workspaces.Ownership.{
  WorkspaceCreationPlan, WorkspaceDeletionPlan, first_workspace, first_membership,
  plan_workspace_creation, plan_workspace_deletion, plan_ownership_transfer, check_transfer,
  transfer,
}
use ip_risk_agent_v.Workspaces.Ownership.Deletion.{marked, deletion_repeats}
use ip_risk_agent_v.Workspaces.Administration.{Held, get_member, transfer_ownership}
use ip_risk_agent_v.Workspaces.Administration.Owners.{HasOneOwner, transfer_ownership-HasOneOwner}
use ip_risk_agent_v.Workspaces.Administration.Reachable.{Reached, Reached-HasOneOwner}

abbrev acme : RiskWorkspace
acme = first_workspace (codes "rws") (codes "ann") (codes "Acme") (codes "s1") (codes "r1") 5 none

abbrev ann : Membership
ann = first_membership (codes "m1") (codes "rws") (codes "ann") 5

abbrev bob : Membership
bob = record {
  id = codes "m2";
  risk_workspace_id = codes "rws";
  user_id = codes "bob";
  role = MembershipRole.viewer;
  status = MembershipStatus.active;
  invited_by = codes "ann";
  created_at = 6;
  updated_at = 6;
}

abbrev acme_held : Held
acme_held = record { workspace = acme; members = ann ∷ bob ∷ [] }

-- Ann hands over to Bob.
abbrev handed_over : Held
handed_over = record {
  workspace = record acme { owner_user_id = codes "bob"; updated_at = 9 };
  members =
      record ann { role = MembershipRole.source_manager; updated_at = 9 }
      ∷ record bob { role = MembershipRole.owner; updated_at = 9 }
      ∷ [];
}

ann_hands_over :
    transfer_ownership acme_held (codes "ann") (codes "bob") (aware 9) (codes "a1") ≡ ok handed_over
unfolding transfer_ownership get_member plan_ownership_transfer check_transfer transfer
    authorize_vws_action decide_member require_authorized text_eq same_text Models.post_init has_nul
    exceeds_limit Memberships.post_init Audit.post_init require_non_empty strip strip_of lstrip
    rstrip
ann_hands_over = refl

-- Bob does not take the workspace himself.
bob_cannot_take :
    transfer_ownership acme_held (codes "bob") (codes "ann") (aware 9) (codes "a1") ≡ raised denied
unfolding transfer_ownership get_member plan_ownership_transfer authorize_vws_action decide_member
    require_authorized text_eq same_text require_non_empty strip strip_of lstrip rstrip
bob_cannot_take = refl

acme_held-HasOneOwner : HasOneOwner acme_held
unfolding get_member text_eq Memberships.post_init require_non_empty strip strip_of lstrip rstrip
acme_held-HasOneOwner = record {
  agree = (
    record { valid = member_post_init-IsValid ann ann refl; owns = (λ _. refl, λ _. refl) },
    (
      record {
        valid = member_post_init-IsValid bob bob refl;
        owns = (λ e. absurd (ground (arith, e)), λ e. absurd (ground (arith, e)));
      },
      tt,
    ),
  );
  owner = ann;
  held = refl;
  active = refl;
}

acme_keeps_owner :
    HasOneOwner handed_over × (codes "bob" ≡ codes "bob") × (codes "bob" ≢ codes "ann")
acme_keeps_owner =
    transfer_ownership-HasOneOwner acme_held (codes "ann") (codes "bob") (aware 9) (codes "a1")
      handed_over acme_held-HasOneOwner ann_hands_over

abbrev creation : WorkspaceCreationPlan
creation = record {
  workspace = acme;
  owner_membership = ann;
  audit_event = record {
    id = codes "a0";
    risk_workspace_id = codes "rws";
    event_type = AuditEventType.workspace_created;
    actor_type = ActorType.user;
    occurred_at = 5;
    actor_user_id = some (codes "ann");
    metadata_safe = (codes "workspace_name", SafeValue.text (codes "Acme")) ∷ [];
  };
}

acme_created :
    plan_workspace_creation
      (codes "m1")
      (codes " rws ")
      (codes "ann")
      (codes "Acme")
      (codes "s1")
      (codes "r1")
      (aware 5)
      (codes "a0")
      none
    ≡ ok creation
unfolding plan_workspace_creation text_eq Models.post_init has_nul exceeds_limit
    Memberships.post_init Audit.post_init require_non_empty strip strip_of lstrip rstrip
acme_created = refl

abbrev deletion : WorkspaceDeletionPlan
deletion = record {
  workspace = marked acme 7;
  audit_event = record {
    id = codes "a2";
    risk_workspace_id = codes "rws";
    event_type = AuditEventType.workspace_deletion_requested;
    actor_type = ActorType.user;
    occurred_at = 7;
    actor_user_id = some (codes "ann");
    metadata_safe = [];
  };
}

acme_deleting : plan_workspace_deletion (codes "ann") ann acme (aware 7) (codes "a2") ≡ ok deletion
unfolding plan_workspace_deletion authorize_vws_action decide_member require_authorized text_eq
    same_text Models.post_init has_nul exceeds_limit Audit.post_init require_non_empty strip
    strip_of lstrip rstrip
acme_deleting = refl

acme_is_headed : HasOneOwner (record { workspace = marked acme 7; members = ann ∷ [] })
acme_is_headed = Reached-HasOneOwner (
    Reached.deleting {x = record { workspace = acme; members = ann ∷ [] }} (codes "ann")
      (codes "a2") ann (aware 7) deletion
      (Reached.created (codes "m1") (codes " rws ") (codes "ann") (codes "Acme") (codes "s1")
        (codes "r1") (codes "a0") (aware 5) none creation acme_created)
      acme_deleting)

acme-IsValid : IsValid acme
unfolding Models.post_init has_nul exceeds_limit require_non_empty strip strip_of lstrip rstrip
acme-IsValid = post_init-IsValid acme acme refl

acme_deleted_again :
    (q : WorkspaceDeletionPlan) × (plan_workspace_deletion
        (codes "ann")
        ann
        (marked acme 7)
        (aware 8)
        (codes "a2")
      ≡ ok q)
    × (q.workspace ≡ marked acme 8)
acme_deleted_again =
    deletion_repeats (codes "ann") ann acme 7 (codes "a2") deletion acme-IsValid acme_deleting 8
      (omega arith)
