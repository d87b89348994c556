-- ===== src/Workspaces/Service/Handover.antt =====
-- The tables after a workspace is handed over, and after one is created:
-- application/workspace_admin/service.py.
use ip_risk_agent_v.Base.{
  ◌≡◌, ◌≢◌, inl, inr, refl, sym, ◌∙◌, ap, subst, arith, Bool-cases, none, some, Text, text_eq,
  text_eq_iff, Dict, get_item, set_item, get_item-set_item_same, get_item-set_item_other,
  set_item-cases, IsNormal, ok,
}
use ip_risk_agent_v.Workspaces.LicenseProfile.{Sha256}
use ip_risk_agent_v.Identity.{membership_id_for}
use ip_risk_agent_v.Memberships.{Membership, MembershipRole, MembershipStatus}
use ip_risk_agent_v.Memberships.Validity.{IsValid}
use ip_risk_agent_v.Memberships.Invitations.{MembershipInvitation}
use ip_risk_agent_v.Workspaces.Models.{RiskWorkspace}
use ip_risk_agent_v.Repositories.{MembershipRecord}
use ip_risk_agent_v.Workspaces.Service.Owned.{
  IsAt, IsMember, IsOwned, same_member, member_unique, set_item-IsInvited,
}

-- The membership is of the same user in the same workspace as before.
pub record IsSame (m n : Membership) : Type 0 where
  pub valid : IsValid n
  pub id : n.id ≡ m.id
  pub scope : n.risk_workspace_id ≡ m.risk_workspace_id
  pub user : n.user_id ≡ m.user_id

module _ (sha : Sha256) (ws : Dict RiskWorkspace) (ms : Dict MembershipRecord)
    (h : IsOwned sha ws ms) (k : Text) (w x : RiskWorkspace) (there : get_item ws k ≡ some w)
    (same_id : x.id ≡ w.id) (p q : Text) (m n m' n' : Membership) (mp : IsAt ms p m)
    (nq : IsAt ms q n) (em : IsSame m m') (en : IsSame n n') (mk : m.risk_workspace_id ≡ k)
    (nk : n.risk_workspace_id ≡ k) (mo : m.user_id ≡ w.owner_user_id)
    (no : n.user_id ≢ w.owner_user_id) (xo : x.owner_user_id ≡ n.user_id)
    (m_role : m'.role ≢ MembershipRole.owner) (n_role : n'.role ≡ MembershipRole.owner)
    (n_status : n'.status ≡ MembershipStatus.active) where
  abbrev after_ws : Dict RiskWorkspace
  after_ws = set_item k x ws

  abbrev after_ms : Dict MembershipRecord
  after_ms = set_item q (MembershipRecord.member n') (set_item p (MembershipRecord.member m') ms)

  at_k : get_item after_ws k ≡ some x
  at_k = get_item-set_item_same k x ws

  next-IsMember : IsMember sha after_ws q n'
  next-IsMember =
      let o = h.member q n nq in
      record {
        valid = en.valid;
        key = en.id ∙ o.key;
        identity = rw (en.scope, en.user) o.identity;
        workspace = x;
        known = rw (en.scope, nk) at_k;
        owns = ((λ _. en.user ∙ sym xo), (λ _. n_role));
      }

  previous-IsMember : IsMember sha after_ws p m'
  previous-IsMember =
      let o = h.member p m mp in
      record {
        valid = em.valid;
        key = em.id ∙ o.key;
        identity = rw (em.scope, em.user) o.identity;
        workspace = x;
        known = rw (em.scope, mk) at_k;
        owns = ((λ r. absurd (m_role r)), (λ u. absurd (no (sym xo ∙ (sym u ∙ (em.user ∙ mo))))));
      }

  other-IsMember :
      (j : Text) (v : Membership) → q ≢ j → p ≢ j → IsAt ms j v → IsMember sha after_ws j v
  other-IsMember j v nj pj a =
      let o = h.member j v a in
      elim (Bool-cases (text_eq k v.risk_workspace_id)) [
        | inl t ↦
            let e : k ≡ v.risk_workspace_id = (text_eq_iff k v.risk_workspace_id).0 t in
            let old : w ≡ o.workspace = ground (arith, there, e, o.known) in
            record {
              valid = o.valid;
              key = o.key;
              identity = o.identity;
              workspace = x;
              known = rw (← e) at_k;
              owns = (
                (λ r. absurd (
                    pj (
                      same_member sha ws ms h p j m v mp a (mk ∙ e)
                        (mo ∙ (ap (λ z. z.owner_user_id) old ∙ sym (o.owns.0 r)))))),
                (λ u. absurd (nj (same_member sha ws ms h q j n v nq a (nk ∙ e) (sym xo ∙ sym u)))),
              );
            }
        | inr f ↦ record {
          valid = o.valid;
          key = o.key;
          identity = o.identity;
          workspace = o.workspace;
          known =
              get_item-set_item_other k v.risk_workspace_id x ws
                (λ e. ground (arith, f, e, text_eq_iff k v.risk_workspace_id))
              ∙ o.known;
          owns = o.owns;
        }
      ]

  after-member : (j : Text) (v : Membership) → IsAt after_ms j v → IsMember sha after_ws j v
  after-member j v a =
      elim (set_item-cases q j (MembershipRecord.member n') (MembershipRecord.member v)
        (set_item p (MembershipRecord.member m') ms) a) [
          | inl (e, s) ↦
              let same : n' ≡ v = ground (arith, s) in
              subst (λ z. IsMember sha after_ws z v) e
                (subst (IsMember sha after_ws q) same next-IsMember)
          | inr (nj, b) ↦
              elim (set_item-cases p j (MembershipRecord.member m') (MembershipRecord.member v) ms
                b) [
                  | inl (e, s) ↦
                      let same : m' ≡ v = ground (arith, s) in
                      subst (λ z. IsMember sha after_ws z v) e
                        (subst (IsMember sha after_ws p) same previous-IsMember)
                  | inr (pj, c) ↦ other-IsMember j v nj pj c
                ]
        ]

  -- A membership of another workspace is where it was.
  elsewhere :
      (j : Text) (v : Membership) → IsAt ms j v → k ≢ v.risk_workspace_id → IsAt after_ms j v
  elsewhere j v a d =
      let nj : q ≢ j = λ e. d (sym nk ∙ ap (λ z. z.risk_workspace_id) (at_one q j n v e nq a)) in
      let pj : p ≢ j = λ e. d (sym mk ∙ ap (λ z. z.risk_workspace_id) (at_one p j m v e mp a)) in
      get_item-set_item_other q j (MembershipRecord.member n')
        (set_item p (MembershipRecord.member m') ms) nj
      ∙ (get_item-set_item_other p j (MembershipRecord.member m') ms pj ∙ a)
    where
      at_one : (i j : Text) (u v : Membership) → i ≡ j → IsAt ms i u → IsAt ms j v → u ≡ v
      at_one i j u v e a b = ground (arith, a, subst (λ z. IsAt ms z v) (sym e) b)

  -- An invitation that is found was there.
  unwritten :
      (j : Text) (i : MembershipInvitation)
      → get_item after_ms j ≡ some (MembershipRecord.invitation i)
      → get_item ms j ≡ some (MembershipRecord.invitation i)
  unwritten j i a =
      elim (set_item-cases q j (MembershipRecord.member n') (MembershipRecord.invitation i)
        (set_item p (MembershipRecord.member m') ms) a) [
          | inl (_, s) ↦ absurd (member_unique i n' (sym s))
          | inr (_, b) ↦
              elim (set_item-cases p j (MembershipRecord.member m') (MembershipRecord.invitation i)
                ms b) [ inl (_, s) ↦ absurd (member_unique i m' (sym s)) | inr (_, c) ↦ c ]
        ]

  pub handover-IsOwned : IsOwned sha after_ws after_ms
  handover-IsOwned = record {
    named = λ j v g. elim (set_item-cases k j x v ws g) [
      | inl (e, s) ↦
          let (a, b) = h.named k w there in
          let same : v.id ≡ w.id = ap (λ z. z.id) (sym s) ∙ same_id in
          (same ∙ (a ∙ e), subst (λ z. IsNormal z "risk_workspace.id") (sym same) b)
      | inr (_, a) ↦ h.named j v a
    ];
    member = after-member;
    invitation = λ j v a. set_item-IsInvited ws k x j v (h.invitation j v (unwritten j v a));
    headed = λ j v g. elim (set_item-cases k j x v ws g) [
      | inl (e, s) ↦ (
        q,
        n',
        get_item-set_item_same q (MembershipRecord.member n')
            (set_item p (MembershipRecord.member m') ms),
        en.scope ∙ (nk ∙ e),
        en.user ∙ (sym xo ∙ ap (λ z. z.owner_user_id) s),
        n_status,
      )
      | inr (d, a) ↦
          let (i, u, b, c, f, g') = h.headed j v a in
          (i, u, elsewhere i u b (λ e. d (e ∙ c)), c, f, g')
    ];
  }

-- A workspace that is new, with the membership of its owner, is added to the tables.
module _ (sha : Sha256) (ws : Dict RiskWorkspace) (ms : Dict MembershipRecord)
    (h : IsOwned sha ws ms) (w : RiskWorkspace) (m : Membership) (new : get_item ws w.id ≡ none)
    (fresh : get_item ms m.id ≡ none) (named : IsNormal w.id "risk_workspace.id") (v : IsValid m)
    (identity : membership_id_for sha m.risk_workspace_id m.user_id ≡ ok m.id)
    (scope : m.risk_workspace_id ≡ w.id) (user : m.user_id ≡ w.owner_user_id)
    (role : m.role ≡ MembershipRole.owner) (status : m.status ≡ MembershipStatus.active) where
  -- A workspace that was there is another one, and is still there.
  still :
      (j : Text) (y : RiskWorkspace)
      → get_item ws j ≡ some y
      → get_item (set_item w.id w ws) j ≡ some y
  still j y e =
      get_item-set_item_other w.id j w ws
        (λ p. ground (arith, new, subst (λ z. get_item ws z ≡ some y) (sym p) e))
      ∙ e

  added-IsMember : IsMember sha (set_item w.id w ws) m.id m
  added-IsMember = record {
    valid = v;
    key = refl;
    identity = identity;
    workspace = w;
    known = rw scope (get_item-set_item_same w.id w ws);
    owns = ((λ _. user), (λ _. role));
  }

  kept-IsMember :
      (j : Text) (n : Membership) → IsMember sha ws j n → IsMember sha (set_item w.id w ws) j n
  kept-IsMember j n b = record {
    valid = b.valid;
    key = b.key;
    identity = b.identity;
    workspace = b.workspace;
    known = still n.risk_workspace_id b.workspace b.known;
    owns = b.owns;
  }

  pub create-IsOwned :
      IsOwned sha (set_item w.id w ws) (set_item m.id (MembershipRecord.member m) ms)
  create-IsOwned = record {
    named = λ j y g. elim (set_item-cases w.id j w y ws g) [
      | inl (p, q) ↦
          (ap (λ z. z.id) (sym q) ∙ p, subst (λ z. IsNormal z.id "risk_workspace.id") q named)
      | inr (_, a) ↦ h.named j y a
    ];
    member = λ j n a.
        elim (set_item-cases m.id j (MembershipRecord.member m) (MembershipRecord.member n) ms a) [
          | inl (p, q) ↦
              let same : m ≡ n = ground (arith, q) in
              subst (λ z. IsMember sha (set_item w.id w ws) z n) p
                (subst (IsMember sha (set_item w.id w ws) m.id) same added-IsMember)
          | inr (_, b) ↦ kept-IsMember j n (h.member j n b)
        ];
    invitation = λ j i a.
        elim (set_item-cases m.id j (MembershipRecord.member m) (MembershipRecord.invitation i) ms
          a) [
            | inl (_, q) ↦ absurd (member_unique i m (sym q))
            | inr (_, b) ↦ set_item-IsInvited ws w.id w j i (h.invitation j i b)
          ];
    headed = λ j y g. elim (set_item-cases w.id j w y ws g) [
      | inl (p, q) ↦ (
        m.id,
        m,
        get_item-set_item_same m.id (MembershipRecord.member m) ms,
        scope ∙ p,
        user ∙ ap (λ z. z.owner_user_id) q,
        status,
      )
      | inr (_, a) ↦
          let (id, n, b, c, d, f) = h.headed j y a in
          (
            id,
            n,
            get_item-set_item_other m.id id (MembershipRecord.member m) ms
                  (λ p. ground (arith, fresh, subst (λ z. IsAt ms z n) (sym p) b))
                ∙ b,
            c,
            d,
            f,
          )
    ];
  }
