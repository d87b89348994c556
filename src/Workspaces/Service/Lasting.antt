-- ===== src/Workspaces/Service/Lasting.antt =====
-- Nothing takes a membership away: application/workspace_admin/service.py writes memberships over
-- memberships and invitations over invitations.
use ip_risk_agent_v.Base.{
  ◌∙◌, inl, inr, sym, subst, arith, Bool-cases, text_eq, text_eq_iff, Text, Dict, set_item,
  get_item-set_item_same, get_item-set_item_other,
}
use ip_risk_agent_v.Memberships.{Membership}
use ip_risk_agent_v.Memberships.Invitations.{MembershipInvitation}
use ip_risk_agent_v.Repositories.{MembershipRecord}
use ip_risk_agent_v.Workspaces.Service.Owned.{IsAt}

-- Some membership stands at the id.
abbrev pub HasMember : Dict MembershipRecord → Text → Type 0
HasMember ms id = (m : Membership) × IsAt ms id m

-- Where there was a membership, there is one.
pub record Stays (ms ms' : Dict MembershipRecord) : Type 0 where
  pub at : (id : Text) → HasMember ms id → HasMember ms' id

pub Stays-refl : (ms : Dict MembershipRecord) → Stays ms ms
Stays-refl ms = record { at = λ id m. m }

pub Stays-trans : {a b c : Dict MembershipRecord} → Stays a b → Stays b c → Stays a c
Stays-trans p q = record { at = λ id m. q.at id (p.at id m) }

pub put_member-Stays :
    (ms : Dict MembershipRecord) (k : Text) (n : Membership)
    → Stays ms (set_item k (MembershipRecord.member n) ms)
put_member-Stays ms k n = record {
  at = λ id (m, a). elim (Bool-cases (text_eq k id)) [
    | inl t ↦ (
      n,
      subst (λ z. IsAt (set_item k (MembershipRecord.member n) ms) z n) ((text_eq_iff k id).0 t)
          (get_item-set_item_same k (MembershipRecord.member n) ms),
    )
    | inr f ↦ (
      m,
      get_item-set_item_other k id (MembershipRecord.member n) ms
            (λ e. ground (arith, f, e, text_eq_iff k id))
          ∙ a,
    )
  ];
}

pub put_invitation-Stays :
    (ms : Dict MembershipRecord) (k : Text) (i : MembershipInvitation)
    → ((m : Membership) → IsAt ms k m → ⊥)
    → Stays ms (set_item k (MembershipRecord.invitation i) ms)
put_invitation-Stays ms k i apart = record {
  at = λ id (m, a). (
    m,
    get_item-set_item_other k id (MembershipRecord.invitation i) ms
          (λ e. apart m (subst (λ z. IsAt ms z m) (sym e) a))
        ∙ a,
  );
}
