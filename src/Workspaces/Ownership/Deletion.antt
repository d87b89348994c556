-- ===== src/Workspaces/Ownership/Deletion.antt =====
-- Who may delete a workspace, and that a deletion can be asked for again: core/workspaces/services.py.
use ip_risk_agent_v.Base.{◌≡◌, ◌≢◌, refl, arith, ◌≤◌, Text, text_eq_iff, aware, Instant, ok}
use ip_risk_agent_v.Audit
use ip_risk_agent_v.Memberships.{Membership}
use ip_risk_agent_v.Workspaces.Models.{RiskWorkspace, RiskWorkspaceStatus}
use ip_risk_agent_v.Workspaces.Models
use ip_risk_agent_v.Workspaces.Models.Validity.{IsValid, post_init-accepts}
use ip_risk_agent_v.Workspaces.Ownership.{WorkspaceDeletionPlan, plan_workspace_deletion}

abbrev pub marked : RiskWorkspace → Instant → RiskWorkspace
marked w t = record w { status = RiskWorkspaceStatus.deleting; updated_at = t }

marked-IsValid :
    (w : RiskWorkspace) (t : Instant) → IsValid w → w.created_at ≤ t → IsValid (marked w t)
marked-IsValid w t v h = record {
  id = v.id;
  name = v.name;
  owner_user_id = v.owner_user_id;
  security = v.security;
  retention = v.retention;
  updated = h;
  no_nul = v.no_nul;
  in_limit = v.in_limit;
}

pub plan_workspace_deletion-made :
    (actor : Text) (m : Membership) (w : RiskWorkspace) (t : Instant) (id : Text)
    (p : WorkspaceDeletionPlan)
    → plan_workspace_deletion actor m w (aware t) id ≡ ok p
    → (w.owner_user_id ≡ actor)
      × (w.status ≢ RiskWorkspaceStatus.deleted)
      × (Models.post_init (marked w t) ≡ ok p.workspace)
unfolding plan_workspace_deletion
plan_workspace_deletion-made actor m w t id p h = ground (arith, text_eq_iff w.owner_user_id actor)

post_init-created :
    (w x : RiskWorkspace) → Models.post_init w ≡ ok x → (w.created_at ≤ w.updated_at)
unfolding Models.post_init
post_init-created w x h = ground arith

-- The same request at a marked workspace.
deletion_again :
    (actor : Text) (m : Membership) (w : RiskWorkspace) (t : Instant) (id : Text)
    (p : WorkspaceDeletionPlan)
    → plan_workspace_deletion actor m w (aware t) id ≡ ok p
    → (later : Instant) → Models.post_init (marked w later) ≡ ok (marked w later)
    → plan_workspace_deletion actor m (marked w t) (aware later) id
      ≡ ok record {
        workspace = marked w later;
        audit_event = record p.audit_event { occurred_at = later };
      }
unfolding plan_workspace_deletion Audit.post_init
deletion_again actor m w t id p h later k = ground arith

-- The owner may ask for the deletion of a workspace again and again: after a request that succeeded
-- at a valid workspace, the same request at any time that is no earlier than its creation succeeds.
pub deletion_repeats :
    (actor : Text) (m : Membership) (w : RiskWorkspace) (t : Instant) (id : Text)
    (p : WorkspaceDeletionPlan)
    → IsValid w
    → plan_workspace_deletion actor m w (aware t) id ≡ ok p
    → (later : Instant) → w.created_at ≤ later
    → (q : WorkspaceDeletionPlan) × (plan_workspace_deletion actor m p.workspace (aware later) id
        ≡ ok q)
      × (q.workspace ≡ marked w later)
deletion_repeats actor m w t id p v h later le =
    let (o, s, k) = plan_workspace_deletion-made actor m w t id p h in
    let c = post_init-created (marked w t) p.workspace k in
    let first = post_init-accepts (marked w t) (marked-IsValid w t v c) in
    let e : p.workspace ≡ marked w t = ground (arith, first, k) in
    let again = post_init-accepts (marked w later) (marked-IsValid w later v le) in
    (
      record {
        workspace = marked w later;
        audit_event = record p.audit_event { occurred_at = later };
      },
      rw e (deletion_again actor m w t id p h later again),
      refl,
    )
