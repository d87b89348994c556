-- ===== src/Base/Errors.antt =====
-- The exceptions of the control plane (core/common.py and the services), with the developer's
-- message: a `DomainInvariantError` names the field and the rule that broke.
use Prim.Native.Nat.{ℕ}
use Prim.Native.String.{String}

pub data Error : Type 0 where
  empty_field : String → Error  -- f"{field_name} must not be empty"
  not_aware : String → Error  -- f"{field_name} must be timezone-aware"
  precedes : String → String → Error  -- f"{later_name} cannot precede {earlier_name}"
  invariant : String → Error  -- any other DomainInvariantError
  orchestration : String → Error  -- AnalysisJobOrchestrationError
  not_found : Error  -- RecordNotFoundError
  denied : Error  -- AuthorizationDeniedError
  review_conflict : ℕ → ℕ → Error  -- RiskReviewConflictError(expected, current)
  unique_violation : String → Error  -- UniqueConstraintViolation, without the key of a duplicate
  concurrency_conflict : Error  -- ConcurrencyConflictError
  transaction_closed : String → Error  -- TransactionClosedError
  intake : String → Error  -- AnalysisResultIntakeError
  retention : String → Error  -- EvidenceRetentionError
  key_error : Error  -- KeyError
  superseded : Error  -- SupersededRevisionError
  assertion : Error  -- AssertionError
  type_error : Error  -- Python's TypeError
