-- ===== src/Base/Dicts.antt =====
-- Python's `dict` with string keys, in the order of insertion.
use mathlib.Core.Path.{◌≡◌, refl, subst}
use mathlib.Core.Logic.{◌≢◌, ◌⊎◌, inl, inr}
use mathlib.Core.Bool.{not}
use mathlib.Core.Option.{Option, none, some}
use mathlib.Core.List.{List, [], ◌∷◌, map}
use native.Mathlib.Omega.{arith}
use ip_risk_agent_v.Base.Tests.{if◌then◌else◌, Bool-cases}
use ip_risk_agent_v.Base.Lists.{All, All-mono, keep}
use ip_risk_agent_v.Base.Texts.{Text, text_eq, text_eq_iff}

abbrev pub Dict {ℓ} : Type ℓ → Type ℓ
Dict V = List (Text × V)

module _ {ℓ} {V : Type ℓ} where
  -- `d.get(key)`
  unfoldable pub get_item : Dict V → Text → Option V
  get_item [] key = none
  get_item ((k, v) ∷ d) key = if text_eq k key then some v else get_item d key

  -- `d[key] = value`
  unfoldable pub set_item : Text → V → Dict V → Dict V
  set_item key value [] = (key, value) ∷ []
  set_item key value ((k, v) ∷ d) =
      if text_eq k key then (k, value) ∷ d else (k, v) ∷ set_item key value d

  -- `list(d.values())`
  abbrev pub values : Dict V → List V
  values d = map (λ item. item.1) d

  -- No key stands twice.
  abbrev pub IsDict : Dict V → Type ℓ
  IsDict [] = Unit
  IsDict ((k, v) ∷ d) = (get_item d k ≡ none) × IsDict d

  pub get_item-set_item :
      (key j : Text) (value : V) (d : Dict V)
      → get_item (set_item key value d) j ≡ (if text_eq key j then some value else get_item d j)
  unfolding get_item set_item
  get_item-set_item key j value [] = refl
  get_item-set_item key j value ((k, v) ∷ d) = ground (
    arith,
    text_eq_iff k key,
    text_eq_iff k j,
    text_eq_iff key j,
    get_item-set_item key j value d,
  )

  pub set_item-IsDict :
      (key : Text) (value : V) (d : Dict V) → IsDict d → IsDict (set_item key value d)
  unfolding get_item set_item
  set_item-IsDict key value [] h = (refl, tt)
  set_item-IsDict key value ((k, v) ∷ d) h = ground (
    arith,
    h,
    text_eq_iff k key,
    text_eq_iff key k,
    get_item-set_item key k value d,
    set_item-IsDict key value d,
  )

  get_item-cons :
      (k : Text) (v : V) (d : Dict V) (j : Text) (w : V)
      → get_item d k ≡ none
      → get_item d j ≡ some w
      → get_item ((k, v) ∷ d) j ≡ some w
  unfolding get_item
  get_item-cons k v d j w h e = ground (arith, h, e, text_eq_iff k j)

  -- What is listed is what is found.
  pub IsDict-All : (d : Dict V) → IsDict d → All (λ item. get_item d item.0 ≡ some item.1) d
  unfolding get_item
  IsDict-All [] h = tt
  IsDict-All ((k, v) ∷ d) h = (
    ground (arith, text_eq_iff k k),
    All-mono (λ item. get_item d item.0 ≡ some item.1)
        (λ item. get_item ((k, v) ∷ d) item.0 ≡ some item.1)
        (λ item e. get_item-cons k v d item.0 item.1 h.0 e) d (IsDict-All d h.1),
  )

  -- `del d[key]`, if it is there.
  abbrev pub without : Text → Dict V → Dict V
  without key d = keep (λ item. not (text_eq item.0 key)) d

  pub get_item-without :
      (key j : Text) (d : Dict V)
      → get_item (without key d) j ≡ (if text_eq key j then none else get_item d j)
  unfolding get_item
  get_item-without key j [] = ground arith
  get_item-without key j ((k, v) ∷ d) =
      ground
        (arith, text_eq_iff k key, text_eq_iff k j, text_eq_iff key j, get_item-without key j d)

  pub without-IsDict : (key : Text) (d : Dict V) → IsDict d → IsDict (without key d)
  without-IsDict key [] h = tt
  without-IsDict key ((k, v) ∷ d) h =
      ground (arith, h, get_item-without key k d, without-IsDict key d)

  -- What holds of every value holds of one that is found.
  pub All-get_item {κ} :
      (P : V → Type κ) (d : Dict V) (key : Text) (v : V)
      → All P (values d)
      → get_item d key ≡ some v
      → P v
  unfolding get_item
  All-get_item P [] key v h e = absurd (ground (arith, e))
  All-get_item P ((k, w) ∷ d) key v h e = elim (Bool-cases (text_eq k key)) [
    | inl t ↦ subst P (ground (arith, e, t)) h.0
    | inr n ↦ All-get_item P d key v h.1 (ground (arith, e, n))
  ]

  pub All-values {κ} : (P : V → Type κ) (d : Dict V) → All (λ item. P item.1) d → All P (values d)
  All-values P [] h = tt
  All-values P ((k, v) ∷ d) h = (h.0, All-values P d h.1)

module _ {ℓ} {V : Type ℓ} where
  pub get_item-set_item_same :
      (key : Text) (value : V) (d : Dict V) → get_item (set_item key value d) key ≡ some value
  get_item-set_item_same key value d =
      ground (arith, get_item-set_item key key value d, text_eq_iff key key)

  pub get_item-set_item_other :
      (key j : Text) (value : V) (d : Dict V)
      → key ≢ j
      → get_item (set_item key value d) j ≡ get_item d j
  get_item-set_item_other key j value d n =
      ground (arith, n, get_item-set_item key j value d, text_eq_iff key j)

  -- What is found after an assignment was assigned, or was there.
  pub set_item-cases :
      (key j : Text) (value v : V) (d : Dict V)
      → get_item (set_item key value d) j ≡ some v
      → ((key ≡ j) × (value ≡ v)) ⊎ (key ≢ j) × (get_item d j ≡ some v)
  set_item-cases key j value v d h =
      ground (arith, h, get_item-set_item key j value d, text_eq_iff key j)
