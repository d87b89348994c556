-- ===== src/Repositories/Tests.antt =====
-- Two units of work at once on a store that holds a number.
use ip_risk_agent_v.Base.{
  ◌≡◌, refl, ℕ, ◌+◌, false, true, some, [], ◌∷◌, ◌++◌, ok, raised, concurrency_conflict,
}
use ip_risk_agent_v.Repositories.UnitOfWork.{Store, UnitOfWork, enter, call, commit, leave}
use ip_risk_agent_v.Repositories.UnitOfWork.Serial.{
  Method, System, Step, Steps, initial, update, serially, commits_serializable,
}

abbrev counter : ℕ → ℕ → Store ℕ
counter n r = record { state = n; revision = r }

abbrev holding : ℕ → ℕ → UnitOfWork ℕ
holding n r = record { state = some n; base_revision = some r; closed = false }

abbrev add_three : Method ℕ
add_three n = ok (n + 3)

abbrev closed_with : ℕ → ℕ → UnitOfWork ℕ
closed_with n r = record { state = some n; base_revision = some r; closed = true }

abbrev enters : ℕ → UnitOfWork ℕ → System ℕ → System ℕ
enters i u x = record x { units = update x.units i u; bodies = update x.bodies i [] }

abbrev calls : ℕ → Method ℕ → UnitOfWork ℕ → System ℕ → System ℕ
calls i m u x = record x {
  units = update x.units i u;
  bodies = update x.bodies i (x.bodies i ++ m ∷ []);
}

abbrev commits : ℕ → Store ℕ → UnitOfWork ℕ → System ℕ → System ℕ
commits i store u x = record x {
  store = store;
  units = update x.units i u;
  committed = x.committed ++ x.bodies i ∷ [];
}

-- The first unit is entered before the second, and commits after the second has read.
abbrev both_open : System ℕ
both_open = enters 1 (holding 5 0) (enters 0 (holding 5 0) (initial 5))

abbrev both_called : System ℕ
both_called = calls 1 add_three (holding 8 0) (calls 0 add_three (holding 8 0) both_open)

abbrev first_committed : System ℕ
first_committed = commits 0 (counter 8 1) (closed_with 8 0) both_called

-- The second lost, and tries again.
abbrev second_again : System ℕ
second_again =
    enters 1 (holding 8 1)
      (record first_committed { units = update first_committed.units 1 (closed_with 8 0) })

abbrev second_called : System ℕ
second_called = calls 1 add_three (holding 11 1) second_again

abbrev second_committed : System ℕ
second_committed = commits 1 (counter 11 2) (closed_with 11 1) second_called

-- The commit of the second, before it tries again, is refused.
second_refused : commit (counter 8 1) (holding 8 0) ≡ raised concurrency_conflict
unfolding commit
second_refused = refl

interleaved : Steps (initial 5) second_committed
unfolding enter call commit leave
interleaved =
    Steps.next
      (Steps.next
        (Steps.next
          (Steps.next
            (Steps.next
              (Steps.next
                (Steps.next
                  (Steps.next (Steps.next Steps.here (Step.entered 0 (holding 5 0) refl))
                    (Step.entered 1 (holding 5 0) refl))
                  (Step.called 0 add_three (holding 8 0) refl))
                (Step.called 1 add_three (holding 8 0) refl))
              (Step.committed 0 (counter 8 1) (closed_with 8 0) refl))
            (Step.left 1 (closed_with 8 0) refl))
          (Step.entered 1 (holding 8 1) refl))
        (Step.called 1 add_three (holding 11 1) refl))
      (Step.committed 1 (counter 11 2) (closed_with 11 1) refl)

commits_serializable_example : serially ((add_three ∷ []) ∷ (add_three ∷ []) ∷ []) 5 ≡ ok 11
commits_serializable_example = commits_serializable 5 second_committed interleaved
