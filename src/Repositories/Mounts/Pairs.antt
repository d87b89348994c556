-- ===== src/Repositories/Mounts/Pairs.antt =====
-- The index of aliases, a dict whose keys are pairs: application/repositories/in_memory.py.
use ip_risk_agent_v.Base.{
  ◌≡◌, ◌≢◌, ◌↔◌, ◌∙◌, refl, arith, true, if◌then◌else◌, Bool-cases, inl, inr, none, some, [], ◌∷◌,
  Text, text_eq_iff,
}
use ip_risk_agent_v.Repositories.{PairDict}
use ip_risk_agent_v.Repositories.Mounts.{moved_alias}
use ip_risk_agent_v.Repositories.Pairs.{same_pair, get_pair, set_pair, drop_pair}

pub same_pair_iff : (p q : Text × Text) → (same_pair p q ≡ true) ↔ (p ≡ q)
same_pair_iff (a, b) (c, d) = ground (arith, text_eq_iff a c, text_eq_iff b d)

pub get_pair-set_pair :
    (k j : Text × Text) (v : Text) (d : PairDict Text)
    → get_pair (set_pair k v d) j ≡ (if same_pair k j then some v else get_pair d j)
unfolding get_pair set_pair
get_pair-set_pair k j v [] = refl
get_pair-set_pair k j v ((p, w) ∷ d) =
    ground
      (arith, same_pair_iff p k, same_pair_iff p j, same_pair_iff k j, get_pair-set_pair k j v d)

pub get_pair-drop_pair :
    (k j : Text × Text) (d : PairDict Text)
    → get_pair (drop_pair k d) j ≡ (if same_pair k j then none else get_pair d j)
unfolding get_pair
get_pair-drop_pair k j [] = ground arith
get_pair-drop_pair k j ((p, w) ∷ d) =
    ground
      (arith, same_pair_iff p k, same_pair_iff p j, same_pair_iff k j, get_pair-drop_pair k j d)

pub get_pair-set_pair_same :
    (k : Text × Text) (v : Text) (d : PairDict Text) → get_pair (set_pair k v d) k ≡ some v
get_pair-set_pair_same k v d = ground (arith, get_pair-set_pair k k v d, same_pair_iff k k)

pub get_pair-set_pair_other :
    (k j : Text × Text) (v : Text) (d : PairDict Text)
    → k ≢ j
    → get_pair (set_pair k v d) j ≡ get_pair d j
get_pair-set_pair_other k j v d n = ground (arith, n, get_pair-set_pair k j v d, same_pair_iff k j)

pub get_pair-drop_pair_other :
    (k j : Text × Text) (d : PairDict Text) → k ≢ j → get_pair (drop_pair k d) j ≡ get_pair d j
get_pair-drop_pair_other k j d n = ground (arith, n, get_pair-drop_pair k j d, same_pair_iff k j)

-- A key that is neither the old nor the new one leads where it did.
pub get_pair-moved_alias :
    (casefold : Text → Text) (old new j : Text × Text) (v : Text) (d : PairDict Text)
    → old ≢ j
    → new ≢ j
    → get_pair (moved_alias casefold old new v d) j ≡ get_pair d j
get_pair-moved_alias casefold old new j v d p q = elim (Bool-cases (same_pair old new)) [
  | inl t ↦ rw t (get_pair-set_pair_other new j v d q)
  | inr f ↦
      rw f
        (get_pair-set_pair_other new j v (drop_pair old d) q ∙ get_pair-drop_pair_other old j d p)
]

pub get_pair-moved_alias_same :
    (casefold : Text → Text) (old new : Text × Text) (v : Text) (d : PairDict Text)
    → get_pair (moved_alias casefold old new v d) new ≡ some v
get_pair-moved_alias_same casefold old new v d =
    get_pair-set_pair_same new v (if same_pair old new then d else drop_pair old d)
