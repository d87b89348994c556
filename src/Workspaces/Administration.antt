-- ===== src/Workspaces/Administration.antt =====
-- application/workspace_admin/service.py: a transfer of ownership on what the repositories hold of
-- one workspace, the workspace and its memberships.
pub mod Owners
pub mod Reachable
mod Tests
use ip_risk_agent_v.Base.{
  Bool, if◌then◌else◌, Option, none, some, List, [], ◌∷◌, map, Text, text_eq, Datetime, Outcome, ok,
  raised, ◌>>=◌, Error, not_found,
}
use ip_risk_agent_v.Memberships.{Membership, MembershipRole}
use ip_risk_agent_v.Workspaces.Models.{RiskWorkspace}
use ip_risk_agent_v.Workspaces.Ownership.{OwnershipTransferPlan, plan_ownership_transfer}

pub record Held : Type 0 where
  pub workspace : RiskWorkspace
  pub members : List Membership

-- `memberships.get`
unfoldable pub get_member : List Membership → Text → Option Membership
get_member [] user_id = none
get_member (m ∷ ms) user_id = if text_eq m.user_id user_id then some m else get_member ms user_id

abbrev pub replaced : Membership → Membership → Membership
replaced x m = if text_eq m.user_id x.user_id then x else m

-- `memberships.save`, for a membership that was read from the repository.
abbrev pub save_member : Membership → List Membership → List Membership
save_member x ms = map (replaced x) ms

abbrev pub found_or : Option Membership → Outcome Error Membership
found_or none = raised not_found
found_or (some m) = ok m

-- `_require_membership`
abbrev pub require_membership : List Membership → Text → Outcome Error Membership
require_membership ms user_id = found_or (get_member ms user_id)

abbrev pub save_transfer : Held → OwnershipTransferPlan → Held
save_transfer x plan = record {
  workspace = plan.workspace;
  members =
      save_member plan.new_owner_membership (save_member plan.previous_owner_membership x.members);
}

unfoldable pub transfer_ownership : Held → Text → Text → Datetime → Text → Outcome Error Held
transfer_ownership x actor_user_id new_owner_user_id clock audit_event_id = do
  previous_owner ← require_membership x.members actor_user_id
  new_owner ← require_membership x.members new_owner_user_id
  plan ←
      plan_ownership_transfer actor_user_id x.workspace previous_owner new_owner
        MembershipRole.source_manager clock audit_event_id
  ok (save_transfer x plan)
