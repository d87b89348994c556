-- ===== src/Repositories/UnitOfWork.antt =====
-- `InMemoryControlUnitOfWork` and `InMemoryControlStore` of application/repositories/in_memory.py, for
-- any type of state. States are values here, so that `clone` needs no counterpart.
pub mod Serial
use ip_risk_agent_v.Base.{
  ◌==◌, Bool, true, false, not, ◌||◌, is_none, Option, none, some, ℕ, ◌+◌, Outcome, ok, raised,
  ◌>>=◌, ◌>>◌, raise_if, Error, transaction_closed, concurrency_conflict, assertion,
}

pub record Store (S : Type 0) : Type 0 where
  pub state : S
  pub revision : ℕ

pub record UnitOfWork (S : Type 0) : Type 0 where
  pub state : Option S
  pub base_revision : Option ℕ
  pub closed : Bool

module _ {S : Type 0} where
  -- A new unit of work.
  abbrev pub fresh : UnitOfWork S
  fresh = record { state = none; base_revision = none; closed = true }

  -- `__aenter__`
  unfoldable pub enter : Store S → UnitOfWork S → Outcome Error (UnitOfWork S)
  enter store u = do
    raise_if (not u.closed) (transaction_closed "unit of work is already active")
    ok record { state = some store.state; base_revision = some store.revision; closed = false }

  unfoldable pub ensure_open : UnitOfWork S → Outcome Error (Unit {0})
  ensure_open u =
      raise_if (u.closed || is_none u.state || is_none u.base_revision)
        (transaction_closed "unit of work is not active")

  -- What a method of a repository does to the state that the unit of work holds.
  abbrev apply : (S → Outcome Error S) → UnitOfWork S → Option S → Outcome Error (UnitOfWork S)
  apply method u none = raised assertion
  apply method u (some s) = do s' ← method s; ok record u { state = some s' }

  unfoldable pub call : (S → Outcome Error S) → UnitOfWork S → Outcome Error (UnitOfWork S)
  unfolding ensure_open
  call method u = do ensure_open u; apply method u u.state

  abbrev publish :
      Store S → UnitOfWork S → Option S → Option ℕ → Outcome Error (Store S × UnitOfWork S)
  publish store u (some s) (some base) = do
    raise_if (not (store.revision == base)) concurrency_conflict
    ok (record { state = s; revision = store.revision + 1 }, record u { closed = true })
  publish store u _ _ = raised assertion

  unfoldable pub commit : Store S → UnitOfWork S → Outcome Error (Store S × UnitOfWork S)
  unfolding ensure_open
  commit store u = do ensure_open u; publish store u u.state u.base_revision

  unfoldable pub rollback : UnitOfWork S → Outcome Error (UnitOfWork S)
  unfolding ensure_open
  rollback u = do ensure_open u; ok record u { closed = true }

  -- `__aexit__`
  unfoldable pub leave : UnitOfWork S → Outcome Error (UnitOfWork S)
  unfolding rollback
  leave u = let rolled_back = rollback u in elim u.closed [ true ↦ ok u | false ↦ rolled_back ]
