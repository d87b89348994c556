-- ===== src/Workspaces/Service/Tests.antt =====
-- Runs of the workspace service, and its properties at concrete ones.
use ip_risk_agent_v.Base.{
  Error, ◌≡◌, ◌≢◌, refl, ap, Bool, true, Option, none, some, List, [], ◌∷◌, ◌++◌, map, Text, codes,
  get_item, set_item, aware, ok, Outcome, Error,
}
use ip_risk_agent_v.Identity.{key_of}
use ip_risk_agent_v.Memberships.{Membership, MembershipRole, MembershipStatus}
use ip_risk_agent_v.Workspaces.Models.{RiskWorkspace, RiskWorkspaceStatus}
use ip_risk_agent_v.Workspaces.Tests.{sha}
use ip_risk_agent_v.Repositories.{ControlState, MembershipRecord, empty_state}
use ip_risk_agent_v.Repositories.Workspaces as WorkspaceTable
use ip_risk_agent_v.Repositories.Memberships.{get_invitation}
use ip_risk_agent_v.Memberships.Invitations.{MembershipInvitation, InvitationStatus}
use ip_risk_agent_v.Audit.{AuditEventType}
use ip_risk_agent_v.Risk.Events.{ActorType, SafeValue}
use ip_risk_agent_v.Workspaces.Members.{MemberRemovalPlan}
use ip_risk_agent_v.Workspaces.Invitations.{InvitationAcceptancePlan}
use ip_risk_agent_v.Workspaces.Service.{remove_member, accept_invitation}
use ip_risk_agent_v.Workspaces.Service.Owned.{Owned}
use ip_risk_agent_v.Memberships.Authorization.{VwsAction}
use ip_risk_agent_v.Workspaces.Service.Callers.{MayCall}
use ip_risk_agent_v.Workspaces.Service.Permits.{perform_permitted}
use ip_risk_agent_v.Workspaces.Service.Runs.{
  perform, Operation, run, HasSoleOwner, run-HasSoleOwner,
}

abbrev same_case : Text → Text
same_case s = s

abbrev anyone : Text → Bool
anyone _ = true

abbrev create_acme : (Text → Bool) × Operation
create_acme = (
  anyone,
  Operation.create (codes "rws") (codes "ann") (codes "Acme") (codes "s1") (codes "r1") (aware 5)
      (codes "a1") none,
)

abbrev invite_bob : (Text → Bool) × Operation
invite_bob = (
  anyone,
  Operation.invite (codes "rws") (codes "ann") (codes "b@x") MembershipRole.viewer none (aware 6)
      (codes "a2"),
)

abbrev join_bob : (Text → Bool) × Operation
join_bob = (
  anyone,
  Operation.accept (key_of sha (codes "membership-invitation") (codes "rws" ∷ codes "b@x" ∷ []))
      (codes "bob") (codes "b@x") (aware 7) (codes "a3"),
)

abbrev hand_over : (Text → Bool) × Operation
hand_over =
    (anyone, Operation.hand_over (codes "rws") (codes "ann") (codes "bob") (aware 8) (codes "a4"))

abbrev story : List ((Text → Bool) × Operation)
story = create_acme ∷ invite_bob ∷ join_bob ∷ hand_over ∷ []

abbrev acme : RiskWorkspace
acme = record {
  id = codes "rws";
  name = codes "Acme";
  owner_user_id = codes "bob";
  security_policy_version = codes "s1";
  retention_policy_version = codes "r1";
  created_at = 5;
  updated_at = 8;
  description = none;
  status = RiskWorkspaceStatus.active;
  global_ignore_text = [];
  license_profile = none;
}

acme_handed_over :
    WorkspaceTable.get (run same_case sha story empty_state) (codes "rws") ≡ some acme
unfolding WorkspaceTable.get get_item run ip_risk_agent_v.Exec.◌>>=◌
    ip_risk_agent_v.Workspaces.Service.transfer_ownership
    ip_risk_agent_v.Workspaces.Service.require_workspace
    ip_risk_agent_v.Workspaces.Service.accept_invitation
    ip_risk_agent_v.Workspaces.Service.require_invitation
    ip_risk_agent_v.Repositories.Memberships.get_invitation
    ip_risk_agent_v.Workspaces.Service.invite_member
    ip_risk_agent_v.Workspaces.Service.require_membership
    ip_risk_agent_v.Repositories.Memberships.get ip_risk_agent_v.Identity.membership_id_for
    ip_risk_agent_v.Identity.stable_key ip_risk_agent_v.Base.require_non_empty
    ip_risk_agent_v.Workspaces.Service.create_workspace
    ip_risk_agent_v.Workspaces.Ownership.plan_workspace_creation
    ip_risk_agent_v.Workspaces.Models.post_init ip_risk_agent_v.Workspaces.Models.has_nul
    ip_risk_agent_v.Workspaces.Models.exceeds_limit ip_risk_agent_v.Memberships.post_init
    ip_risk_agent_v.Identity.Json.dumps ip_risk_agent_v.Identity.Json.write_string
    ip_risk_agent_v.Identity.Json.write_char ip_risk_agent_v.Identity.Json.write_strings
    ip_risk_agent_v.Audit.post_init WorkspaceTable.add ip_risk_agent_v.Repositories.Memberships.add
    ip_risk_agent_v.Repositories.Audit.append set_item ip_risk_agent_v.Base.text_eq
    ip_risk_agent_v.Workspaces.Invitations.plan_membership_invitation
    ip_risk_agent_v.Memberships.Authorization.authorize_vws_action
    ip_risk_agent_v.Memberships.Authorization.require_authorized
    ip_risk_agent_v.Memberships.Invitations.normalize_invitation_email
    ip_risk_agent_v.Memberships.Invitations.invitation_id_for
    ip_risk_agent_v.Memberships.Invitations.post_init
    ip_risk_agent_v.Repositories.Memberships.add_invitation
    ip_risk_agent_v.Workspaces.Invitations.plan_invitation_acceptance
    ip_risk_agent_v.Workspaces.Invitations.accept
    ip_risk_agent_v.Repositories.Memberships.save_invitation
    ip_risk_agent_v.Workspaces.Ownership.plan_ownership_transfer
    ip_risk_agent_v.Workspaces.Ownership.check_transfer
    ip_risk_agent_v.Workspaces.Ownership.transfer WorkspaceTable.save
    ip_risk_agent_v.Repositories.Memberships.save
acme_handed_over = refl

run-HasSoleOwner_example : HasSoleOwner (run same_case sha story empty_state) (codes "rws") acme
run-HasSoleOwner_example = run-HasSoleOwner same_case sha story (codes "rws") acme acme_handed_over

-- Bob joins.
abbrev before : ControlState
before = run same_case sha (create_acme ∷ invite_bob ∷ join_bob ∷ []) empty_state

abbrev removal : MemberRemovalPlan
removal = record {
  membership = record {
    id = key_of sha (codes "membership") (codes "rws" ∷ codes "bob" ∷ []);
    risk_workspace_id = codes "rws";
    user_id = codes "bob";
    role = MembershipRole.viewer;
    status = MembershipStatus.removed;
    invited_by = codes "ann";
    created_at = 7;
    updated_at = 9;
  };
  mounts = [];
  notification = none;
  audit_event = record {
    id = codes "a6";
    risk_workspace_id = codes "rws";
    event_type = AuditEventType.member_removed;
    actor_type = ActorType.user;
    actor_user_id = some (codes "ann");
    occurred_at = 9;
    metadata_safe =
        (codes "target_user_id", SafeValue.text (codes "bob"))
        ∷ (codes "affected_mount_ids", SafeValue.texts [])
        ∷ [];
  };
}

abbrev after : ControlState
after = record before {
  memberships =
      set_item removal.membership.id (MembershipRecord.member removal.membership)
        before.memberships;
  audit_events = set_item removal.audit_event.id removal.audit_event before.audit_events;
}

-- Bob is invited again after he was removed.
abbrev invite_bob_late : (Text → Bool) × Operation
invite_bob_late = (
  anyone,
  Operation.invite (codes "rws") (codes "ann") (codes "b@a") MembershipRole.viewer none (aware 10)
      (codes "a8"),
)

abbrev late_key : Text
late_key = key_of sha (codes "membership-invitation") (codes "rws" ∷ codes "b@a" ∷ [])

abbrev late_invitation : MembershipInvitation
late_invitation = record {
  id = late_key;
  risk_workspace_id = codes "rws";
  email = codes "b@a";
  role = MembershipRole.viewer;
  status = InvitationStatus.pending;
  invited_by = codes "ann";
  created_at = 10;
  updated_at = 10;
  expires_at = none;
}

abbrev removal_of_bob : Operation
removal_of_bob =
    Operation.remove (codes "rws") (codes "ann") (codes "bob") (aware 9) (codes "a6") (codes "n1")

removal_performed : perform same_case sha anyone removal_of_bob before ≡ ok (tt, after)
unfolding perform ip_risk_agent_v.Exec.◌>>=◌ remove_member
    ip_risk_agent_v.Workspaces.Service.require_membership
    ip_risk_agent_v.Repositories.Memberships.get ip_risk_agent_v.Identity.membership_id_for
    ip_risk_agent_v.Identity.stable_key ip_risk_agent_v.Base.require_non_empty get_item run
    ip_risk_agent_v.Workspaces.Service.invite_member accept_invitation
    ip_risk_agent_v.Workspaces.Service.require_invitation get_invitation
    ip_risk_agent_v.Workspaces.Service.create_workspace
    ip_risk_agent_v.Workspaces.Ownership.plan_workspace_creation
    ip_risk_agent_v.Workspaces.Models.post_init ip_risk_agent_v.Workspaces.Models.has_nul
    ip_risk_agent_v.Workspaces.Models.exceeds_limit ip_risk_agent_v.Memberships.post_init
    ip_risk_agent_v.Identity.Json.dumps ip_risk_agent_v.Identity.Json.write_string
    ip_risk_agent_v.Identity.Json.write_char ip_risk_agent_v.Identity.Json.write_strings
    ip_risk_agent_v.Audit.post_init WorkspaceTable.add ip_risk_agent_v.Repositories.Memberships.add
    ip_risk_agent_v.Repositories.Audit.append set_item ip_risk_agent_v.Base.text_eq
    ip_risk_agent_v.Workspaces.Invitations.plan_membership_invitation
    ip_risk_agent_v.Memberships.Authorization.authorize_vws_action
    ip_risk_agent_v.Memberships.Authorization.require_authorized
    ip_risk_agent_v.Memberships.Invitations.normalize_invitation_email
    ip_risk_agent_v.Memberships.Invitations.invitation_id_for
    ip_risk_agent_v.Memberships.Invitations.post_init
    ip_risk_agent_v.Repositories.Memberships.add_invitation
    ip_risk_agent_v.Workspaces.Invitations.plan_invitation_acceptance
    ip_risk_agent_v.Workspaces.Invitations.accept
    ip_risk_agent_v.Repositories.Memberships.save_invitation
    ip_risk_agent_v.Workspaces.Service.require_workspace WorkspaceTable.get
    ip_risk_agent_v.Workspaces.Members.plan_member_removal
    ip_risk_agent_v.Repositories.Mounts.list_by_custodian ip_risk_agent_v.Base.sorted
    ip_risk_agent_v.Workspaces.Members.manager_action_mounts
    ip_risk_agent_v.Repositories.Memberships.save ip_risk_agent_v.Workspaces.Service.save_mounts
removal_performed = refl

perform_permitted_example :
    MayCall sha before (codes "rws") (codes "ann") VwsAction.member_manage none
perform_permitted_example =
    perform_permitted same_case sha anyone before removal_of_bob after removal_performed
