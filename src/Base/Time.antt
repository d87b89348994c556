-- ===== src/Base/Time.antt =====
-- Python's `datetime`, counted in microseconds, and the two checks of core/common.py.
use Prim.Native.Nat.{ℕ}
use Prim.Native.String.{String}
use ip_risk_agent_v.Base.Tests.{ltb}
use ip_risk_agent_v.Base.Outcomes.{Outcome, ok, raised, raise_if}
use ip_risk_agent_v.Base.Errors.{Error, not_aware, precedes}

-- A timestamp as a caller may hand it over: with no timezone, or an instant. Instants are compared
-- and stored in UTC, as microseconds since the least `datetime`.
pub data Datetime : Type 0 where
  naive : ℕ → Datetime
  aware : ℕ → Datetime

abbrev pub Instant : Type 0
Instant = ℕ

abbrev pub normalize_utc : Datetime → String → Outcome Error Instant
normalize_utc (naive t) field_name = raised (not_aware field_name)
normalize_utc (aware t) field_name = ok t

abbrev pub require_chronological : Instant → Instant → String → String → Outcome Error (Unit {0})
require_chronological earlier later earlier_name later_name =
    raise_if (ltb later earlier) (precedes later_name earlier_name)
