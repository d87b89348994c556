-- ===== src/Repositories/UnitOfWork/Serial.antt =====
-- Units of work that run at once on one store: application/repositories/in_memory.py.
use ip_risk_agent_v.Base.{
  ◌==◌, ℕ, ◌+◌, ◌≤◌, true, false, if◌then◌else◌, Bool-cases, inl, inr, some, List, [], ◌∷◌, ◌++◌,
  ◌≡◌, refl, arith, ap, subst, Outcome, Outcome-cases, ok, ◌>>=◌, Error,
}
use ip_risk_agent_v.Repositories.UnitOfWork.{
  Store, UnitOfWork, fresh, enter, call, commit, leave, rollback,
}

abbrev pub Method : Type 0 → Type 0
Method S = S → Outcome Error S

module _ {S : Type 0} where
  -- Methods that are called one after the other.
  unfoldable pub run : List (Method S) → S → Outcome Error S
  run [] s = ok s
  run (m ∷ ms) s = m s >>= run ms

  -- Bodies of transactions that run one after the other, with nothing in between.
  unfoldable pub serially : List (List (Method S)) → S → Outcome Error S
  serially [] s = ok s
  serially (b ∷ bs) s = run b s >>= serially bs

  run-snoc :
      (ms : List (Method S)) (m : Method S) (s t u : S)
      → run ms s ≡ ok t
      → m t ≡ ok u
      → run (ms ++ m ∷ []) s ≡ ok u
  unfolding run
  run-snoc [] m s t u h k = ground (arith, h, k)
  run-snoc (n ∷ ms) m s t u h k = elim (Outcome-cases (n s)) [
    | inl (s', e) ↦ rw e (run-snoc ms m s' t u (ground (arith, e, h)) k)
    | inr (x, e) ↦ absurd (ground (arith, e, h))
  ]

  serially-snoc :
      (bs : List (List (Method S))) (b : List (Method S)) (s t u : S)
      → serially bs s ≡ ok t
      → run b t ≡ ok u
      → serially (bs ++ b ∷ []) s ≡ ok u
  unfolding serially
  serially-snoc [] b s t u h k = ground (arith, h, k)
  serially-snoc (c ∷ bs) b s t u h k = elim (Outcome-cases (run c s)) [
    | inl (s', e) ↦ rw e (serially-snoc bs b s' t u (ground (arith, e, h)) k)
    | inr (x, e) ↦ absurd (ground (arith, e, h))
  ]

-- The store and its units of work, by number; with each the methods that it called since it was
-- entered, and all the bodies that were committed, in their order.
pub record System (S : Type 0) : Type 0 where
  pub store : Store S
  pub units : ℕ → UnitOfWork S
  pub bodies : ℕ → List (Method S)
  pub committed : List (List (Method S))

abbrev pub update {ℓ} : {A : Type ℓ} → (ℕ → A) → ℕ → A → ℕ → A
update f i x j = if j == i then x else f j

abbrev pub initial : {S : Type 0} → S → System S
initial s = record {
  store = record { state = s; revision = 0 };
  units = λ _. fresh;
  bodies = λ _. [];
  committed = [];
}

-- What one unit of work does next, in any order with the others: a call that returned.
pub data Step {S : Type 0} (x : System S) : System S → Type 0 where
  entered :
      (i : ℕ) (u : UnitOfWork S)
      → enter x.store (x.units i) ≡ ok u
      → Step x (record x { units = update x.units i u; bodies = update x.bodies i [] })
  called :
      (i : ℕ) (m : Method S) (u : UnitOfWork S)
      → call m (x.units i) ≡ ok u
      → Step x (record x {
        units = update x.units i u;
        bodies = update x.bodies i (x.bodies i ++ m ∷ []);
      })
  committed :
      (i : ℕ) (store : Store S) (u : UnitOfWork S)
      → commit x.store (x.units i) ≡ ok (store, u)
      → Step x (record x {
        store = store;
        units = update x.units i u;
        committed = x.committed ++ x.bodies i ∷ [];
      })
  left :
      (i : ℕ) (u : UnitOfWork S)
      → leave (x.units i) ≡ ok u
      → Step x (record x { units = update x.units i u })

pub data Steps {S : Type 0} (x : System S) : System S → Type 0 where
  here : Steps x x
  next : {y z : System S} → Steps x y → Step y z → Steps x z

-- An open unit of work is no newer than the store, and while no other was committed its state is what
-- its methods make of the store's.
pub record IsSnapshot {S : Type 0} (store : Store S) (u : UnitOfWork S) (body : List (Method S))
    : Type 0 where
  pub current :
      (s : S) (b : ℕ)
      → u.closed ≡ false
      → u.state ≡ some s
      → u.base_revision ≡ some b
      → (b ≤ store.revision) × (b ≡ store.revision → run body store.state ≡ ok s)

pub record IsSerial {S : Type 0} (s : S) (x : System S) : Type 0 where
  pub replayed : serially x.committed s ≡ ok x.store.state
  pub snapshots : (i : ℕ) → IsSnapshot x.store (x.units i) (x.bodies i)

module _ {S : Type 0} (store : Store S) (units : ℕ → UnitOfWork S) (bodies : ℕ → List (Method S))
    (i : ℕ) (u : UnitOfWork S) where
  snapshots-update :
      (b : List (Method S))
      → IsSnapshot store u b
      → ((j : ℕ) → IsSnapshot store (units j) (bodies j))
      → (j : ℕ) → IsSnapshot store (update units i u j) (update bodies i b j)
  snapshots-update b h k j = elim (Bool-cases (j == i)) [ inl t ↦ rw t h | inr n ↦ rw n (k j) ]

  -- A closed unit of work is a snapshot of nothing.
  snapshots-close :
      u.closed ≡ true
      → ((j : ℕ) → IsSnapshot store (units j) (bodies j))
      → (j : ℕ) → IsSnapshot store (update units i u j) (bodies j)
  snapshots-close h k j = elim (Bool-cases (j == i)) [
    | inl t ↦ rw t (record { current = λ s b c. absurd (ground (arith, h, c)) })
    | inr n ↦ rw n (k j)
  ]

module _ {S : Type 0} where
  entered-IsSnapshot :
      (store : Store S) (u v : UnitOfWork S) → enter store u ≡ ok v → IsSnapshot store v []
  unfolding enter run
  entered-IsSnapshot store u v h = record { current = λ s b c e k. ground (arith, h, c, e, k) }

  called-parts :
      (m : Method S) (u v : UnitOfWork S)
      → call m u ≡ ok v
      → (s : S) × (t : S) × (u.closed ≡ false)
        × (u.state ≡ some s)
        × (m s ≡ ok t)
        × (v ≡ record u { state = some t })
  unfolding call
  called-parts m u v h = ground (arith, h)

  called-IsSnapshot :
      (store : Store S) (u v : UnitOfWork S) (m : Method S) (ms : List (Method S))
      → IsSnapshot store u ms
      → call m u ≡ ok v
      → IsSnapshot store v (ms ++ m ∷ [])
  called-IsSnapshot store u v m ms h e =
      let (s, t, c, k, r, q) = called-parts m u v e in
      record {
        current = λ s' b c' k' b'.
            let (le, same) = h.current s b c k (ground (arith, q, b')) in
            (
              le,
              λ now.
                  let p : t ≡ s' = ground (arith, q, k') in
                  subst (λ x. run (ms ++ m ∷ []) store.state ≡ ok x) p
                    (run-snoc ms m store.state s t (same now) r),
            );
      }

  commit-parts :
      (store store' : Store S) (u v : UnitOfWork S)
      → commit store u ≡ ok (store', v)
      → (s : S) × (u.closed ≡ false)
        × (u.state ≡ some s)
        × (u.base_revision ≡ some store.revision)
        × (store' ≡ record { state = s; revision = store.revision + 1 })
        × (v.closed ≡ true)
  unfolding commit
  commit-parts store store' u v h = ground (arith, h)

  -- A commit leaves every other open unit of work behind.
  older-IsSnapshot :
      (store store' : Store S) (u : UnitOfWork S) (ms : List (Method S))
      → store'.revision ≡ store.revision + 1
      → IsSnapshot store u ms
      → IsSnapshot store' u ms
  older-IsSnapshot store store' u ms e h = record {
    current = λ s b c k b'.
        let (le, same) = h.current s b c k b' in
        (omega (arith, le, e), λ now. absurd (omega (arith, le, e, now)));
  }

  left-closed : (u v : UnitOfWork S) → leave u ≡ ok v → v.closed ≡ true
  unfolding leave rollback
  left-closed u v h = ground (arith, h)

  Step-IsSerial : (s : S) {x y : System S} → Step x y → IsSerial s x → IsSerial s y
  Step-IsSerial s {x} (entered i u h) v = record {
    replayed = v.replayed;
    snapshots =
        snapshots-update x.store x.units x.bodies i u []
          (entered-IsSnapshot x.store (x.units i) u h) v.snapshots;
  }
  Step-IsSerial s {x} (called i m u h) v = record {
    replayed = v.replayed;
    snapshots =
        snapshots-update x.store x.units x.bodies i u (x.bodies i ++ m ∷ [])
          (called-IsSnapshot x.store (x.units i) u m (x.bodies i) (v.snapshots i) h) v.snapshots;
  }
  Step-IsSerial s {x} (committed i store u h) v =
      let (t, c, k, b, q, closed) = commit-parts x.store store (x.units i) u h in
      let (_, same) = (v.snapshots i).current t x.store.revision c k b in
      record {
        replayed =
            rw q (serially-snoc x.committed (x.bodies i) s x.store.state t v.replayed (same refl));
        snapshots = snapshots-close store x.units x.bodies i u closed (λ j.
            older-IsSnapshot x.store store (x.units j) (x.bodies j) (ap (λ r. r.revision) q)
              (v.snapshots j));
      }
  Step-IsSerial s {x} (left i u h) v = record {
    replayed = v.replayed;
    snapshots =
        snapshots-close x.store x.units x.bodies i u (left-closed (x.units i) u h) v.snapshots;
  }

  Steps-IsSerial : (s : S) {x y : System S} → Steps x y → IsSerial s x → IsSerial s y
  Steps-IsSerial s here v = v
  Steps-IsSerial s (next r st) v = Step-IsSerial s st (Steps-IsSerial s r v)

  initial-IsSerial : (s : S) → IsSerial s (initial s)
  unfolding serially
  initial-IsSerial s = record {
    replayed = refl;
    snapshots = λ i. record { current = λ t b c. absurd (ground (arith, c)) };
  }

  -- Units of work that run at once are serializable: whatever they call, and in whatever order they
  -- are entered, call, commit and leave, the store holds what the committed ones make of its first
  -- state when they run one after the other in the order of their commits, and then none of their
  -- calls raises.
  pub commits_serializable :
      (s : S) (x : System S) → Steps (initial s) x → serially x.committed s ≡ ok x.store.state
  commits_serializable s x r = (Steps-IsSerial s r (initial-IsSerial s)).replayed
