-- ===== src/Base/Sorting.antt =====
-- Python's `sorted` with a key, and the order of strings by code points.
use Prim.Native.Nat.{ℕ}
use mathlib.Core.Bool.{Bool, true, false, ◌&&◌, ◌||◌}
use mathlib.Core.List.{List, [], ◌∷◌}
use ip_risk_agent_v.Base.Tests.{ltb, ◌==◌, if◌then◌else◌}
use ip_risk_agent_v.Base.Lists.{All}
use ip_risk_agent_v.Base.Texts.{Text}

-- `s <= t`
unfoldable pub text_leb : Text → Text → Bool
text_leb [] t = true
text_leb (c ∷ s) [] = false
text_leb (c ∷ s) (d ∷ t) = ltb c d || (c == d && text_leb s t)

-- `a[0] < b[0] or (a[0] == b[0] and a[1] <= b[1])`, for a pair of a time and an id.
abbrev pub stamped_leb : ℕ → Text → ℕ → Text → Bool
stamped_leb t s u r = ltb t u || (t == u && text_leb s r)

module _ {ℓ} {A : Type ℓ} (le : A → A → Bool) where
  unfoldable pub insert : A → List A → List A
  insert x [] = x ∷ []
  insert x (y ∷ ys) = if le x y then x ∷ y ∷ ys else y ∷ insert x ys

  -- Items that are equal in the order keep their places.
  unfoldable pub sorted : List A → List A
  sorted [] = []
  sorted (x ∷ xs) = insert x (sorted xs)

module _ {ℓ κ} {A : Type ℓ} (le : A → A → Bool) (P : A → Type κ) where
  All-insert : (x : A) (ys : List A) → P x → All P ys → All P (insert le x ys)
  unfolding insert
  All-insert x [] p h = (p, tt)
  All-insert x (y ∷ ys) p h = placed (le x y) (All-insert x ys p h.1)
    where
      placed :
          (b : Bool) → All P (insert le x ys) → All P (if b then x ∷ y ∷ ys else y ∷ insert le x ys)
      placed true r = (p, h)
      placed false r = (h.0, r)

  pub All-sorted : (xs : List A) → All P xs → All P (sorted le xs)
  unfolding sorted
  All-sorted [] h = tt
  All-sorted (x ∷ xs) h = All-insert x (sorted le xs) h.0 (All-sorted xs h.1)

  insert-All : (x : A) (ys : List A) → All P (insert le x ys) → P x × All P ys
  unfolding insert
  insert-All x [] h = h
  insert-All x (y ∷ ys) h = placed (le x y) (insert-All x ys) h
    where
      placed :
          (b : Bool)
          → (All P (insert le x ys) → P x × All P ys)
          → All P (if b then x ∷ y ∷ ys else y ∷ insert le x ys)
          → P x × All P (y ∷ ys)
      placed true r k = (k.0, k.1)
      placed false r k = let (px, rest) = r k.1 in (px, (k.0, rest))

  pub sorted-All : (xs : List A) → All P (sorted le xs) → All P xs
  unfolding sorted
  sorted-All [] h = h
  sorted-All (x ∷ xs) h = let (p, r) = insert-All x (sorted le xs) h in (p, sorted-All xs r)
