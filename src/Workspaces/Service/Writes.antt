-- ===== src/Workspaces/Service/Writes.antt =====
-- The writes that keep one owner in every workspace:
-- application/workspace_admin/service.py.
use ip_risk_agent_v.Base.{
  ◌≡◌, ◌≢◌, inl, inr, refl, sym, ◌∙◌, ap, subst, arith, Bool-cases, text_eq, text_eq_iff, none,
  some, Text, Dict, get_item, set_item, get_item-set_item_same, get_item-set_item_other,
  set_item-cases, IsNormal, ok,
}
use ip_risk_agent_v.Workspaces.LicenseProfile.{Sha256}
use ip_risk_agent_v.Identity.{membership_id_for}
use ip_risk_agent_v.Memberships.{Membership, MembershipRole}
use ip_risk_agent_v.Memberships.Validity.{IsValid}
use ip_risk_agent_v.Memberships.Invitations.{MembershipInvitation}
use ip_risk_agent_v.Workspaces.Models.{RiskWorkspace}
use ip_risk_agent_v.Repositories.{MembershipRecord}
use ip_risk_agent_v.Workspaces.Service.Owned.{
  IsAt, IsMember, IsInvited, set_item-IsInvited, Headed, IsOwned, member_unique, headed-role,
}

module _ (sha : Sha256) (ws : Dict RiskWorkspace) (ms : Dict MembershipRecord)
    (h : IsOwned sha ws ms) where
  -- What is found where a record that is no membership was written.
  heads_kept :
      (id : Text) (r : MembershipRecord)
      → ((m : Membership) → IsAt ms id m → ⊥)
      → (k : Text) (w : RiskWorkspace) → get_item ws k ≡ some w
      → Headed (set_item id r ms) k w
  heads_kept id r free k w e =
      let (j, m, a, b, c, d) = h.headed k w e in
      let apart : id ≢ j = λ q. free m (subst (λ z. IsAt ms z m) (sym q) a) in
      (j, m, get_item-set_item_other id j r ms apart ∙ a, b, c, d)

  -- An invitation is written where no membership is.
  pub put_invitation-IsOwned :
      (id : Text) (i : MembershipInvitation)
      → IsInvited ws id i
      → ((m : Membership) → IsAt ms id m → ⊥)
      → IsOwned sha ws (set_item id (MembershipRecord.invitation i) ms)
  put_invitation-IsOwned id i v free = record {
    named = h.named;
    member = λ j m e.
        elim (set_item-cases id j (MembershipRecord.invitation i) (MembershipRecord.member m) ms
          e) [ inl (_, q) ↦ absurd (member_unique i m q) | inr (_, a) ↦ h.member j m a ];
    invitation = λ j x e.
        elim (set_item-cases id j (MembershipRecord.invitation i) (MembershipRecord.invitation x) ms
          e) [
            | inl (p, q) ↦
                let same : i ≡ x = ground (arith, q) in
                subst (λ z. IsInvited ws z x) p (subst (IsInvited ws id) same v)
            | inr (_, a) ↦ h.invitation j x a
          ];
    headed = heads_kept id (MembershipRecord.invitation i) free;
  }

  -- A membership that is not the owner's is written where nothing is.
  pub add_member-IsOwned :
      (id : Text) (m : Membership) (w : RiskWorkspace)
      → get_item ms id ≡ none
      → IsValid m
      → m.id ≡ id
      → membership_id_for sha m.risk_workspace_id m.user_id ≡ ok id
      → m.role ≢ MembershipRole.owner
      → get_item ws m.risk_workspace_id ≡ some w
      → IsOwned sha ws (set_item id (MembershipRecord.member m) ms)
  add_member-IsOwned id m w fresh v key identity role known =
      let free : (n : Membership) → IsAt ms id n → ⊥ = λ n a. ground (arith, fresh, a) in
      let other : m.user_id ≢ w.owner_user_id = λ u.
        let (j, o, a, b, c, d) = h.headed m.risk_workspace_id w known in
        let q : membership_id_for sha m.risk_workspace_id m.user_id ≡ ok j =
          rw (← b, u, ← c) (h.member j o a).identity in
        free o (subst (λ z. IsAt ms z o) (ground (arith, q, identity)) a) in
      record {
        named = h.named;
        member = λ j n e.
            elim (set_item-cases id j (MembershipRecord.member m) (MembershipRecord.member n) ms
              e) [
                | inl (p, q) ↦
                    let same : m ≡ n = ground (arith, q) in
                    subst (λ z. IsMember sha ws z n) p
                      (subst (IsMember sha ws id) same (record {
                        valid = v;
                        key = key;
                        identity = identity;
                        workspace = w;
                        known = known;
                        owns = ((λ r. absurd (role r)), (λ u. absurd (other u)));
                      }))
                | inr (_, a) ↦ h.member j n a
              ];
        invitation = λ j x e.
            elim (set_item-cases id j (MembershipRecord.member m) (MembershipRecord.invitation x) ms
              e) [
                | inl (_, q) ↦ absurd (member_unique x m (sym q))
                | inr (_, a) ↦ h.invitation j x a
              ];
        headed = heads_kept id (MembershipRecord.member m) free;
      }

  -- A membership that is not the owner's is replaced by another of the same user in the same workspace.
  pub put_member-IsOwned :
      (id : Text) (old m : Membership)
      → IsAt ms id old
      → IsValid m
      → m.id ≡ old.id
      → m.risk_workspace_id ≡ old.risk_workspace_id
      → m.user_id ≡ old.user_id
      → old.role ≢ MembershipRole.owner
      → m.role ≢ MembershipRole.owner
      → IsOwned sha ws (set_item id (MembershipRecord.member m) ms)
  put_member-IsOwned id old m a v key scope user old_role role =
      let o = h.member id old a in
      record {
        named = h.named;
        member = λ j n e.
            elim (set_item-cases id j (MembershipRecord.member m) (MembershipRecord.member n) ms
              e) [
                | inl (p, q) ↦
                    let same : m ≡ n = ground (arith, q) in
                    subst (λ z. IsMember sha ws z n) p
                      (subst (IsMember sha ws id) same (record {
                        valid = v;
                        key = key ∙ o.key;
                        identity = rw (scope, user) o.identity;
                        workspace = o.workspace;
                        known = rw scope o.known;
                        owns = (
                          (λ r. absurd (role r)),
                          (λ u. absurd (old_role (o.owns.1 (sym user ∙ u)))),
                        );
                      }))
                | inr (_, b) ↦ h.member j n b
              ];
        invitation = λ j x e.
            elim (set_item-cases id j (MembershipRecord.member m) (MembershipRecord.invitation x) ms
              e) [
                | inl (_, q) ↦ absurd (member_unique x m (sym q))
                | inr (_, b) ↦ h.invitation j x b
              ];
        headed = λ k w e.
            let (j, n, b, c, d, f) = h.headed k w e in
            let apart : id ≢ j = λ q.
              let same : old ≡ n = ground (arith, a, subst (λ z. IsAt ms z n) (sym q) b) in
              old_role (ap (λ z. z.role) same ∙ headed-role sha ws ms h j k n w b c d e) in
            (j, n, get_item-set_item_other id j (MembershipRecord.member m) ms apart ∙ b, c, d, f);
      }

  -- Where a workspace was, one with the same owner is after the write.
  kept_owner :
      (k : Text) (w x : RiskWorkspace)
      → get_item ws k ≡ some w
      → x.owner_user_id ≡ w.owner_user_id
      → (j : Text) (v : RiskWorkspace) → get_item ws j ≡ some v
      → (y : RiskWorkspace) × (get_item (set_item k x ws) j ≡ some y)
        × (v.owner_user_id ≡ y.owner_user_id)
  kept_owner k w x e o j v g = elim (Bool-cases (text_eq k j)) [
    | inl t ↦
        let p : k ≡ j = (text_eq_iff k j).0 t in
        let same : w ≡ v = ground (arith, e, g, p) in
        (
          x,
          subst (λ z. get_item (set_item k x ws) z ≡ some x) p (get_item-set_item_same k x ws),
          sym (o ∙ ap (λ z. z.owner_user_id) same),
        )
    | inr f ↦
        (v, get_item-set_item_other k j x ws (λ p. ground (arith, f, p, text_eq_iff k j)) ∙ g, refl)
  ]

  -- A workspace is replaced by one with the same id and the same owner.
  pub put_workspace-IsOwned :
      (k : Text) (w x : RiskWorkspace)
      → get_item ws k ≡ some w
      → x.id ≡ w.id
      → x.owner_user_id ≡ w.owner_user_id
      → IsOwned sha (set_item k x ws) ms
  put_workspace-IsOwned k w x e i o = record {
    named = λ j v g. elim (set_item-cases k j x v ws g) [
      | inl (p, q) ↦
          let (a, b) = h.named k w e in
          let same : v.id ≡ w.id = ap (λ z. z.id) (sym q) ∙ i in
          (same ∙ (a ∙ p), subst (λ z. IsNormal z "risk_workspace.id") (sym same) b)
      | inr (_, a) ↦ h.named j v a
    ];
    member = λ j m a.
        let b = h.member j m a in
        let (y, g, q) = kept_owner k w x e o m.risk_workspace_id b.workspace b.known in
        record {
          valid = b.valid;
          key = b.key;
          identity = b.identity;
          workspace = y;
          known = g;
          owns = ((λ r. b.owns.0 r ∙ q), (λ u. b.owns.1 (u ∙ sym q)));
        };
    invitation = λ j v a. set_item-IsInvited ws k x j v (h.invitation j v a);
    headed = λ j v g. elim (set_item-cases k j x v ws g) [
      | inl (p, q) ↦
          let (id, m, a, b, c, d) = h.headed k w e in
          (id, m, a, b ∙ p, c ∙ (sym o ∙ ap (λ z. z.owner_user_id) q), d)
      | inr (_, a) ↦ h.headed j v a
    ];
  }
