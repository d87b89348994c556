-- ===== src/Exec.antt =====
-- Methods that read and write what a unit of work holds, and may raise. A raise leaves the unit of
-- work, which drops what was written, so that no state comes back with it.
pub mod Rules
use ip_risk_agent_v.Base.{◌≡◌, refl, arith, Bool, true, false, Outcome, ok, raised, Error}

abbrev pub Exec : Type 0 → Type 0 → Type 0
Exec S A = S → Outcome Error (A × S)

module _ {S A : Type 0} where
  abbrev pub pure : A → Exec S A
  pure a s = ok (a, s)

  abbrev pub raise : Error → Exec S A
  raise e s = raised e

  abbrev with_state : Outcome Error A → S → Outcome Error (A × S)
  with_state (ok a) s = ok (a, s)
  with_state (raised e) s = raised e

  abbrev pub lift : Outcome Error A → Exec S A
  lift r s = with_state r s

  abbrev pub gets : (S → A) → Exec S A
  gets f s = ok (f s, s)

module _ {S : Type 0} where
  abbrev pub modify : (S → S) → Exec S (Unit {0})
  modify f s = ok (tt, f s)

  -- `if test: raise e`
  abbrev pub refuse_if : Bool → Error → Exec S (Unit {0})
  refuse_if true e s = raised e
  refuse_if false e s = ok (tt, s)

module _ {S A B : Type 0} where
  abbrev continue : Outcome Error (A × S) → (A → Exec S B) → Outcome Error (B × S)
  continue (ok (a, s)) f = f a s
  continue (raised e) f = raised e

  infixl 5 ◌>>=◌ ◌>>◌
  unfoldable pub ◌>>=◌ : Exec S A → (A → Exec S B) → Exec S B
  ◌>>=◌ m f s = continue (m s) f

  abbrev pub ◌>>◌ : Exec S A → Exec S B → Exec S B
  m >> n = m >>= λ _. n

  -- The two steps of a block that returned.
  pub >>=-eq-ok :
      (m : Exec S A) (f : A → Exec S B) (s : S) (b : B) (s'' : S)
      → (m >>= f) s ≡ ok (b, s'')
      → (a : A) × (s' : S) × (m s ≡ ok (a, s')) × (f a s' ≡ ok (b, s''))
  unfolding ◌>>=◌
  >>=-eq-ok m f s b s'' h = returned (m s) refl h
    where
      returned :
          (r : Outcome Error (A × S))
          → m s ≡ r
          → continue r f ≡ ok (b, s'')
          → (a : A) × (s' : S) × (m s ≡ ok (a, s')) × (f a s' ≡ ok (b, s''))
      returned (ok (a, s')) e k = (a, s', e, k)
      returned (raised x) e k = absurd (ground arith)

-- What follows the reading of a state returns what the two return.
pub gets_then :
    {S A B : Type 0} (g : S → A) (f : A → Exec S B) (s : S) (b : B) (s' : S)
    → (gets g >>= f) s ≡ ok (b, s')
    → f (g s) s ≡ ok (b, s')
unfolding ◌>>=◌
gets_then g f s b s' h = h

pub lift-eq-ok :
    {S A : Type 0} (r : Outcome Error A) (s s' : S) (a : A)
    → lift r s ≡ ok (a, s')
    → (r ≡ ok a) × (s' ≡ s)
lift-eq-ok (ok b) s s' a h = (ground (arith, h), ground (arith, h))
lift-eq-ok (raised e) s s' a h = absurd (ground (arith, h))
