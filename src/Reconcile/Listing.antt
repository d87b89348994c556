-- ===== src/Reconcile/Listing.antt =====
-- The risks that the repository lists for a file, by their key.
use ip_risk_agent_v.Base.{
  ◌≡◌, inl, inr, sym, ◌∙◌, ap, subst, arith, Bool, true, false, if◌then◌else◌, Bool-cases,
  Option-cases, none, some, List, [], ◌∷◌, All, All-mono, keep, Text, text_eq, text_eq_iff, Dict,
  get_item, set_item, get_item-set_item, set_item-IsDict, values, IsDict, IsDict-All, All-get_item,
  All-values, All-sorted, sorted-All,
}
use ip_risk_agent_v.Contracts.{AnalysisType}
use ip_risk_agent_v.Risk.{Risk}
use ip_risk_agent_v.Repositories.{ControlState}
use ip_risk_agent_v.Repositories.Risks.{get_by_key, list_for_artifact, of_artifact}
use ip_risk_agent_v.Repositories.Risks.Consistency.{IsConsistent, get_by_key-of_id, get_by_key-key}
use ip_risk_agent_v.Reconcile.Loop.{by_key}

keep-All :
    (q : Risk → Bool) (P : Risk → Type 0) (rs : List Risk)
    → All P rs
    → All (λ r. P r × (q r ≡ true)) (keep q rs)
keep-All q P [] h = tt
keep-All q P (r ∷ rs) h =
    let rest = keep-All q P rs h.1 in
    elim (Bool-cases (q r)) [
      | inl t ↦
          subst (λ b. All (λ x. P x × (q x ≡ true)) (if b then r ∷ keep q rs else keep q rs))
            (sym t) ((h.0, t), rest)
      | inr n ↦
          subst (λ b. All (λ x. P x × (q x ≡ true)) (if b then r ∷ keep q rs else keep q rs))
            (sym n) rest
    ]

All-keep :
    (q : Risk → Bool) (P : Risk → Type 0) (rs : List Risk)
    → All P (keep q rs)
    → All (λ r. q r ≡ true → P r) rs
All-keep q P [] h = tt
All-keep q P (r ∷ rs) h = elim (Bool-cases (q r)) [
  | inl t ↦
      let k = subst (λ b. All P (if b then r ∷ keep q rs else keep q rs)) t h in
      ((λ _. k.0), All-keep q P rs k.1)
  | inr n ↦
      let k = subst (λ b. All P (if b then r ∷ keep q rs else keep q rs)) n h in
      ((λ t. absurd (ground (arith, n, t))), All-keep q P rs k)
]

-- Every risk stands under its own key, and has the property.
abbrev Keyed : (Risk → Type 0) → Dict Risk → Type 0
Keyed P d = (k : Text) (r : Risk) → get_item d k ≡ some r → (r.risk_key ≡ k) × P r

set_item-Keyed :
    (P : Risk → Type 0) (r : Risk) (d : Dict Risk)
    → P r
    → Keyed P d
    → Keyed P (set_item r.risk_key r d)
set_item-Keyed P r d p h k q e = elim (Bool-cases (text_eq r.risk_key k)) [
  | inl t ↦
      let same : r ≡ q = ground (arith, e, t, get_item-set_item r.risk_key k r d) in
      (ap (λ x. x.risk_key) (sym same) ∙ (text_eq_iff r.risk_key k).0 t, subst P same p)
  | inr n ↦ h k q (ground (arith, e, n, get_item-set_item r.risk_key k r d))
]

by_key-Keyed :
    (P : Risk → Type 0) (rs : List Risk) (d : Dict Risk)
    → All P rs
    → Keyed P d
    → Keyed P (by_key rs d)
unfolding by_key
by_key-Keyed P [] d h k = k
by_key-Keyed P (r ∷ rs) d h k =
    by_key-Keyed P rs (set_item r.risk_key r d) h.1 (set_item-Keyed P r d h.0 k)

pub by_key-IsDict : (rs : List Risk) (d : Dict Risk) → IsDict d → IsDict (by_key rs d)
unfolding by_key
by_key-IsDict [] d h = h
by_key-IsDict (r ∷ rs) d h =
    by_key-IsDict rs (set_item r.risk_key r d) (set_item-IsDict r.risk_key r d h)

by_key-none :
    (rs : List Risk) (d : Dict Risk) (k : Text)
    → get_item (by_key rs d) k ≡ none
    → (get_item d k ≡ none) × All (λ r. text_eq r.risk_key k ≡ false) rs
unfolding by_key
by_key-none [] d k h = (h, tt)
by_key-none (r ∷ rs) d k h =
    let (a, b) = by_key-none rs (set_item r.risk_key r d) k h in
    (
      ground (arith, a, get_item-set_item r.risk_key k r d),
      (ground (arith, a, get_item-set_item r.risk_key k r d), b),
    )

module _ (s : ControlState) (c : IsConsistent s) (artifact_id : Text) (t : AnalysisType) where
  -- Found under its key, and one of the file's.
  abbrev pub IsListed : Risk → Type 0
  IsListed r = (get_by_key s r.risk_key ≡ some r) × (of_artifact artifact_id t none r ≡ true)

  list-IsListed : All IsListed (list_for_artifact s artifact_id t none)
  unfolding list_for_artifact
  list-IsListed = All-sorted _ IsListed (keep (of_artifact artifact_id t none) (values s.risks)) (
      keep-All (of_artifact artifact_id t none) (λ r. get_by_key s r.risk_key ≡ some r)
        (values s.risks)
        (All-values (λ r. get_by_key s r.risk_key ≡ some r) s.risks
          (All-mono (λ item. get_item s.risks item.0 ≡ some item.1)
            (λ item. get_by_key s item.1.risk_key ≡ some item.1)
            (λ item e. get_by_key-of_id s item.0 item.1 c e) s.risks (IsDict-All s.risks c.dict))))

  abbrev pub existing : Dict Risk
  existing = by_key (list_for_artifact s artifact_id t none) []

  pub existing-Keyed :
      (k : Text) (r : Risk) → get_item existing k ≡ some r → (r.risk_key ≡ k) × IsListed r
  unfolding get_item
  existing-Keyed =
      by_key-Keyed IsListed (list_for_artifact s artifact_id t none) [] list-IsListed
        (λ k r e. absurd (ground (arith, e)))

  -- No risk of the file is missing.
  pub existing_complete :
      (k : Text) (r : Risk)
      → get_by_key s k ≡ some r
      → of_artifact artifact_id t none r ≡ true
      → get_item existing k ≡ some r
  unfolding list_for_artifact
  existing_complete k r e o = elim (Option-cases (get_item existing k)) [
    | inl z ↦
        let (key, there) = get_by_key-key s k r c e in
        let (_, others) = by_key-none (list_for_artifact s artifact_id t none) [] k z in
        let unlisted =
          All-keep (of_artifact artifact_id t none) (λ q. text_eq q.risk_key k ≡ false)
            (values s.risks)
            (sorted-All _ (λ q. text_eq q.risk_key k ≡ false)
              (keep (of_artifact artifact_id t none) (values s.risks)) others) in
        let off =
          All-get_item (λ q. of_artifact artifact_id t none q ≡ true → text_eq q.risk_key k ≡ false)
            s.risks r.id r unlisted there o in
        absurd (ground (arith, off, key, text_eq_iff r.risk_key k))
    | inr (q, z) ↦ let (key, (found, _)) = existing-Keyed k q z in ground (arith, z, e, key, found)
  ]
