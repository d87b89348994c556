-- ===== src/Identity/Distinct.antt =====
-- Keys of one namespace tell their components apart: core/common.py.
use mathlib.Core.List.{append_cancel_left}
use ip_risk_agent_v.Base.{
  ◌≡◌, ◌≢◌, ◌⊎◌, inl, inr, sym, ◌∙◌, ap, arith, Bool-cases, List, ◌∷◌, ◌++◌, Text, codes, text_eq,
  text_eq_iff, require_non_empty, ok,
}
use ip_risk_agent_v.Workspaces.LicenseProfile.{Sha256}
use ip_risk_agent_v.Identity.Json.{dumps, dumps-inj}
use ip_risk_agent_v.Identity.{components, key_of, stable_key}

-- Two different texts with the same digest.
abbrev pub Collision : Sha256 → Type 0
Collision sha = (s : Text) × (t : Text) × (s ≢ t) × (sha.hexdigest s ≡ sha.hexdigest t)

digests_differ :
    (sha : Sha256) (ps qs : List Text)
    → sha.hexdigest (dumps ps) ≡ sha.hexdigest (dumps qs)
    → (ps ≡ qs) ⊎ Collision sha
digests_differ sha ps qs h = elim (Bool-cases (text_eq (dumps ps) (dumps qs))) [
  | inl t ↦ inl (dumps-inj ps qs ((text_eq_iff (dumps ps) (dumps qs)).0 t))
  | inr n ↦
      inr (dumps ps, dumps qs, (λ e. ground (arith, n, e, text_eq_iff (dumps ps) (dumps qs))), h)
]

keys_differ :
    (sha : Sha256) (namespace : Text) (ps qs : List Text)
    → key_of sha namespace ps ≡ key_of sha namespace qs
    → (ps ≡ qs) ⊎ Collision sha
keys_differ sha namespace ps qs h =
    let v = codes "v1" in
    let a = sha.hexdigest (dumps (v ∷ namespace ∷ ps)) in
    let b = sha.hexdigest (dumps (v ∷ namespace ∷ qs)) in
    let k =
      append_cancel_left (codes ":v1:") a b
        (append_cancel_left namespace (codes ":v1:" ++ a) (codes ":v1:" ++ b) h) in
    elim (digests_differ sha (v ∷ namespace ∷ ps) (v ∷ namespace ∷ qs) k) [
      | inl e ↦ inl (ground (arith, e))
      | inr c ↦ inr c
    ]

pub stable_key-parts :
    (sha : Sha256) (namespace : Text) (ps : List Text) (k : Text)
    → stable_key sha namespace ps ≡ ok k
    → (n : Text) × (ps' : List Text) × (require_non_empty namespace "namespace" ≡ ok n)
      × (components ps ≡ ok ps')
      × (key_of sha n ps' ≡ k)
unfolding stable_key
stable_key-parts sha namespace ps k h = ground (arith, h)

-- Two calls with one namespace that give the same key were given components that are the same when
-- they are stripped, or show two different texts with the same SHA-256.
pub stable_key_distinct :
    (sha : Sha256) (namespace : Text) (ps qs : List Text) (k : Text)
    → stable_key sha namespace ps ≡ ok k
    → stable_key sha namespace qs ≡ ok k
    → (components ps ≡ components qs) ⊎ Collision sha
stable_key_distinct sha namespace ps qs k h h' =
    let (n, ps', e, c, q) = stable_key-parts sha namespace ps k h in
    let (n', qs', e', c', q') = stable_key-parts sha namespace qs k h' in
    let same : n' ≡ n = ground (arith, e, e') in
    elim (keys_differ sha n ps' qs' (q ∙ (sym q' ∙ ap (λ x. key_of sha x qs') same))) [
      | inl p ↦ inl (c ∙ (ap ok p ∙ sym c'))
      | inr x ↦ inr x
    ]
