-- ===== src/Repositories/Risks/Consistency.antt =====
-- The two tables of risks agree, and what a write does to the risk of a key.
use ip_risk_agent_v.Base.{
  ◌≡◌, inl, inr, Bool-cases, Option-cases, arith, true, false, if◌then◌else◌, none, some, Text,
  text_eq, text_eq_iff, get_item, set_item, get_item-set_item, IsDict, set_item-IsDict, ok,
}
use ip_risk_agent_v.Exec.{◌>>=◌}
use ip_risk_agent_v.Risk.{Risk}
use ip_risk_agent_v.Repositories.{ControlState}
use ip_risk_agent_v.Repositories.Risks.{
  get_by_key, put, add, same_canonical_identity, next_review_version, owned_by_other, save,
}

-- Every key in the index leads to a risk of that key, and every risk is found by its own id and key.
pub record IsConsistent (s : ControlState) : Type 0 where
  pub by_key :
      (k i : Text)
      → get_item s.risks_by_key k ≡ some i
      → (r : Risk) × (get_item s.risks i ≡ some r) × (r.risk_key ≡ k)
  pub by_id :
      (i : Text) (r : Risk)
      → get_item s.risks i ≡ some r
      → (r.id ≡ i) × (get_item s.risks_by_key r.risk_key ≡ some i)
  pub dict : IsDict s.risks

-- A write that `add` and `save` let through: no other risk has its key, and the risk of its id, if
-- there is one, has the same key.
pub record IsFree (risk : Risk) (s : ControlState) : Type 0 where
  pub owner : (i : Text) → get_item s.risks_by_key risk.risk_key ≡ some i → i ≡ risk.id
  pub same : (p : Risk) → get_item s.risks risk.id ≡ some p → p.risk_key ≡ risk.risk_key

module _ (risk : Risk) (s : ControlState) (c : IsConsistent s) (f : IsFree risk s) where
  put-by_id :
      (i : Text) (r : Risk)
      → get_item (set_item risk.id risk s.risks) i ≡ some r
      → (r.id ≡ i) × (get_item (set_item risk.risk_key risk.id s.risks_by_key) r.risk_key ≡ some i)
  put-by_id i r h = ground (
    arith,
    get_item-set_item risk.id i risk s.risks,
    get_item-set_item risk.risk_key r.risk_key risk.id s.risks_by_key,
    text_eq_iff risk.id i,
    text_eq_iff risk.risk_key r.risk_key,
    c.by_id i r,
    f.owner i,
  )

  -- The risk of another key is not overwritten.
  kept_elsewhere :
      (k i : Text) (r : Risk)
      → text_eq risk.risk_key k ≡ false
      → get_item s.risks i ≡ some r
      → r.risk_key ≡ k
      → get_item (set_item risk.id risk s.risks) i ≡ some r
  kept_elsewhere k i r n e q = ground (
    arith,
    n,
    e,
    q,
    get_item-set_item risk.id i risk s.risks,
    text_eq_iff risk.id i,
    text_eq_iff risk.risk_key k,
    f.same r,
  )

  put-by_key :
      (k i : Text)
      → get_item (set_item risk.risk_key risk.id s.risks_by_key) k ≡ some i
      → (r : Risk) × (get_item (set_item risk.id risk s.risks) i ≡ some r) × (r.risk_key ≡ k)
  put-by_key k i h = elim (Bool-cases (text_eq risk.risk_key k)) [
    | inl t ↦
        let e : risk.id ≡ i =
          ground (arith, t, get_item-set_item risk.risk_key k risk.id s.risks_by_key) in
        (
          risk,
          ground (arith, e, text_eq_iff risk.id i, get_item-set_item risk.id i risk s.risks),
          (text_eq_iff risk.risk_key k).0 t,
        )
    | inr n ↦
        let g : get_item s.risks_by_key k ≡ some i =
          ground (arith, n, get_item-set_item risk.risk_key k risk.id s.risks_by_key) in
        let (r, e, q) = c.by_key k i g in (r, kept_elsewhere k i r n e q, q)
  ]

  pub put-IsConsistent : IsConsistent (put risk s)
  put-IsConsistent = record {
    by_key = put-by_key;
    by_id = put-by_id;
    dict = set_item-IsDict risk.id risk s.risks c.dict;
  }

  pub get_by_key-put :
      (k : Text)
      → get_by_key (put risk s) k ≡ (if text_eq risk.risk_key k then some risk else get_by_key s k)
  unfolding get_by_key
  get_by_key-put k = elim (Bool-cases (text_eq risk.risk_key k)) [
    | inl t ↦ ground (
      arith,
      t,
      text_eq_iff risk.id risk.id,
      get_item-set_item risk.risk_key k risk.id s.risks_by_key,
      get_item-set_item risk.id risk.id risk s.risks,
    )
    | inr n ↦ elim (Option-cases (get_item s.risks_by_key k)) [
      | inl z ↦ ground (arith, n, z, get_item-set_item risk.risk_key k risk.id s.risks_by_key)
      | inr (i, z) ↦
          let (r, e, q) = c.by_key k i z in
          ground (
            arith,
            n,
            z,
            e,
            kept_elsewhere k i r n e q,
            get_item-set_item risk.risk_key k risk.id s.risks_by_key,
          )
    ]
  ]

pub add-ok :
    (risk : Risk) (s s' : ControlState)
    → add risk s ≡ ok (tt, s')
    → (s' ≡ put risk s)
      × (get_item s.risks risk.id ≡ none)
      × (get_item s.risks_by_key risk.risk_key ≡ none)
unfolding add ◌>>=◌
add-ok risk s s' h = ground (arith, h)

pub save-ok :
    (risk : Risk) (s s' : ControlState)
    → save risk s ≡ ok (tt, s')
    → (p : Risk) × (get_item s.risks risk.id ≡ some p)
      × (same_canonical_identity p risk ≡ true)
      × (next_review_version p risk ≡ true)
      × (owned_by_other (get_item s.risks_by_key risk.risk_key) risk.id ≡ false)
      × (s' ≡ put risk s)
unfolding save ◌>>=◌
save-ok risk s s' h = ground (arith, h)

pub add-IsFree : (risk : Risk) (s s' : ControlState) → add risk s ≡ ok (tt, s') → IsFree risk s
add-IsFree risk s s' h =
    let (e, a, b) = add-ok risk s s' h in
    record { owner = λ i k. ground (arith, b, k); same = λ p k. ground (arith, a, k) }

pub save-IsFree : (risk : Risk) (s s' : ControlState) → save risk s ≡ ok (tt, s') → IsFree risk s
save-IsFree risk s s' h =
    let (p, e, i, v, o, q) = save-ok risk s s' h in
    record {
      owner = λ i' k. ground (arith, o, k, text_eq_iff i' risk.id);
      same = λ p' k. ground (arith, e, i, k, text_eq_iff p.risk_key risk.risk_key);
    }

-- A risk that a repository returned is the one of its key.
pub get_by_key-of_id :
    (s : ControlState) (i : Text) (r : Risk)
    → IsConsistent s
    → get_item s.risks i ≡ some r
    → get_by_key s r.risk_key ≡ some r
unfolding get_by_key
get_by_key-of_id s i r c e = let (q, k) = c.by_id i r e in ground (arith, k, e)

pub get_by_key-key :
    (s : ControlState) (k : Text) (r : Risk)
    → IsConsistent s
    → get_by_key s k ≡ some r
    → (r.risk_key ≡ k) × (get_item s.risks r.id ≡ some r)
unfolding get_by_key
get_by_key-key s k r c e = elim (Option-cases (get_item s.risks_by_key k)) [
  | inl z ↦ absurd (ground (arith, z, e))
  | inr (i, z) ↦ let (r', e', q) = c.by_key k i z in ground (arith, z, e, e', q, c.by_id i r)
]
