-- ===== src/Exec/Rules.antt =====
-- What a method establishes when it returns, one rule for each way to build a method.
use ip_risk_agent_v.Base.{
  ◌≡◌, refl, sym, subst, arith, Bool, true, false, if◌then◌else◌, Outcome, ok, raised, Error,
}
use ip_risk_agent_v.Exec.{
  Exec, pure, raise, lift, gets, modify, refuse_if, ◌>>=◌, >>=-eq-ok, lift-eq-ok,
}

-- From a state with `P`, if the method returns, its value and the state have `Q`.
pub record Ensures {S : Type 0} {A : Type 0} (P : S → Type 0) (m : Exec S A) (Q : A → S → Type 0)
    : Type 0 where
  pub at : (s : S) (a : A) (s' : S) → P s → m s ≡ ok (a, s') → Q a s'

-- The method keeps `P`.
abbrev pub Keeps : {S A : Type 0} → (S → Type 0) → Exec S A → Type 0
Keeps P m = Ensures P m (λ _. P)

module _ {S A B : Type 0} {P : S → Type 0} where
  pub Ensures-bind :
      (m : Exec S A) (f : A → Exec S B) (R : A → S → Type 0) (Q : B → S → Type 0)
      → Ensures P m R
      → ((a : A) → Ensures (R a) (f a) Q)
      → Ensures P (m >>= f) Q
  Ensures-bind m f R Q km kf = record {
    at = λ s b s'' h e.
        let (a, s', e', k) = >>=-eq-ok m f s b s'' e in (kf a).at s' b s'' (km.at s a s' h e') k;
  }

  pub Keeps-bind :
      (m : Exec S A) (f : A → Exec S B) → Keeps P m → ((a : A) → Keeps P (f a)) → Keeps P (m >>= f)
  Keeps-bind m f km kf = Ensures-bind m f (λ _. P) (λ _. P) km kf

  -- The rest of a block may use what the first step read.
  pub Keeps-gets-bind :
      (g : S → A) (f : A → Exec S B) → ((s : S) → P s → Keeps P (f (g s))) → Keeps P (gets g >>= f)
  unfolding ◌>>=◌
  Keeps-gets-bind g f k = record { at = λ s b s' h e. (k s h).at s b s' h e }

  -- The rest of a block may use that a step did not raise.
  pub Keeps-lift-bind :
      (r : Outcome Error A) (f : A → Exec S B)
      → ((a : A) → r ≡ ok a → Keeps P (f a))
      → Keeps P (lift r >>= f)
  unfolding ◌>>=◌
  Keeps-lift-bind (ok a) f k = record { at = λ s b s' h e. (k a refl).at s b s' h e }
  Keeps-lift-bind (raised x) f k = record { at = λ s b s' h e. absurd (ground (arith, e)) }

module _ {S A : Type 0} {P : S → Type 0} where
  pub Keeps-pure : (a : A) → Keeps P (pure a)
  Keeps-pure a = record { at = λ s b s' h e. ground (arith, e) }

  pub Keeps-raise : (x : Error) → Keeps P (raise {A = A} x)
  Keeps-raise x = record { at = λ s b s' h e. absurd (ground (arith, e)) }

  pub Keeps-lift : (r : Outcome Error A) → Keeps P (lift r)
  Keeps-lift (ok a) = Keeps-pure a
  Keeps-lift (raised x) = Keeps-raise x

  pub Keeps-gets : (f : S → A) → Keeps P (gets f)
  Keeps-gets f = record { at = λ s b s' h e. ground (arith, e) }

module _ {S A : Type 0} {P : S → Type 0} {Q : A → S → Type 0} where
  -- One of two methods, each of which may use the outcome of the test.
  pub Ensures-branch :
      (test : Bool) (left : Exec S A) (right : Exec S A)
      → (test ≡ true → Ensures P left Q)
      → (test ≡ false → Ensures P right Q)
      → Ensures P (if test then left else right) Q
  Ensures-branch true left right y n = y refl
  Ensures-branch false left right y n = n refl

module _ {S : Type 0} {P : S → Type 0} where
  pub Keeps-modify : (f : S → S) → ((s : S) → P s → P (f s)) → Keeps P (modify f)
  Keeps-modify f k = record {
    at = λ s b s' h e. let q : f s ≡ s' = ground (arith, e) in subst P q (k s h);
  }

  pub Keeps-refuse_if : (b : Bool) (x : Error) → Keeps P (refuse_if b x)
  Keeps-refuse_if true x = record { at = λ s b s' h e. absurd (ground (arith, e)) }
  Keeps-refuse_if false x = record { at = λ s b s' h e. ground (arith, e) }

-- What a method establishes whatever state it starts from, one step of its block after the other.
abbrev Anywhere : {S : Type 0} → S → Type 0
Anywhere _ = Unit

abbrev pub Gives : {S A : Type 0} → Exec S A → (A → S → Type 0) → Type 0
Gives m Q = Ensures Anywhere m Q

module _ {S A B : Type 0} {P : S → Type 0} {Q : B → S → Type 0} where
  -- The step does not matter.
  pub Ensures-skip :
      (m : Exec S A) (f : A → Exec S B) → ((a : A) → Gives (f a) Q) → Ensures P (m >>= f) Q
  Ensures-skip m f k = record {
    at = λ s b s'' _ h. let (a, s', _, e) = >>=-eq-ok m f s b s'' h in (k a).at s' b s'' tt e;
  }

module _ {S A B : Type 0} {Q : B → S → Type 0} where
  pub Gives-after :
      (m : Exec S A) (f : A → Exec S B) → ((a : A) → Gives (f a) Q) → Gives (m >>= f) Q
  Gives-after m f k = Ensures-skip m f k

module _ {S A B : Type 0} {P : S → Type 0} {Q : B → S → Type 0} where
  -- The step is a call that returned `a`.
  pub Ensures-lift :
      (r : Outcome Error A) (f : A → Exec S B)
      → ((a : A) → r ≡ ok a → Ensures P (f a) Q)
      → Ensures P (lift r >>= f) Q
  Ensures-lift r f k = record {
    at = λ s b s'' p h.
        let (a, s', l, e) = >>=-eq-ok (lift r) f s b s'' h in
        let (q, same) = lift-eq-ok r s s' a l in (k a q).at s' b s'' (subst P (sym same) p) e;
  }

  -- The step keeps what is known.
  pub Ensures-after :
      (m : Exec S A) (f : A → Exec S B)
      → Keeps P m
      → ((a : A) → Ensures P (f a) Q)
      → Ensures P (m >>= f) Q
  Ensures-after m f keep k = Ensures-bind m f (λ _. P) Q keep k

-- The method reads: `P` holds as before, and what it returned has `R`.
abbrev pub Reads : {S A : Type 0} → (S → Type 0) → Exec S A → (A → Type 0) → Type 0
Reads P m R = Ensures P m (λ a s. P s × R a)

module _ {S A B : Type 0} {P : S → Type 0} {Q : B → S → Type 0} where
  -- The rest of the block may use what was read, or found before it was written.
  pub Reads-bind :
      {P' : S → Type 0} (m : Exec S A) (f : A → Exec S B) (R : A → Type 0)
      → Ensures P m (λ a s. P' s × R a)
      → ((a : A) → R a → Ensures P' (f a) Q)
      → Ensures P (m >>= f) Q
  Reads-bind m f R km kf = record {
    at = λ s b s'' p h.
        let (a, s', l, e) = >>=-eq-ok m f s b s'' h in
        let (p', r) = km.at s a s' p l in (kf a r).at s' b s'' p' e;
  }

module _ {S B : Type 0} {P : S → Type 0} {Q : B → S → Type 0} where
  -- What holds of every state after it.
  pub Ensures-so :
      (m : Exec S B) (P' : S → Type 0)
      → Ensures P m (λ _. P')
      → ((b : B) (s : S) → P' s → Q b s)
      → Ensures P m Q
  Ensures-so m P' k f = record { at = λ s b s' p h. f b s' (k.at s b s' p h) }

module _ {S B : Type 0} {P : S → Type 0} {C : Type 0} where
  -- What holds anyway.
  pub Ensures-fact : (m : Exec S B) → C → Ensures P m (λ _ _. C)
  Ensures-fact m c = record { at = λ s b s' p h. c }

module _ {S B : Type 0} {P P' : S → Type 0} {Q : B → S → Type 0} where
  -- From states with more.
  pub Ensures-from : (m : Exec S B) → ((s : S) → P s → P' s) → Ensures P' m Q → Ensures P m Q
  Ensures-from m f k = record { at = λ s b s' p h. k.at s b s' (f s p) h }

module _ {S : Type 0} {P : S → Type 0} where
  -- The test was not passed.
  pub refuse_if-Ensures :
      (b : Bool) (x : Error) → Ensures P (refuse_if b x) (λ _ s. P s × (b ≡ false))
  refuse_if-Ensures true x = record { at = λ s b s' p h. absurd (ground (arith, h)) }
  refuse_if-Ensures false x = record { at = λ s b s' p h. ground (arith, h, p) }

pub ruleset keeps_rules =
    (Ensures-branch, Keeps-bind, Keeps-gets, Keeps-refuse_if, Keeps-lift, Keeps-raise, Keeps-pure)
