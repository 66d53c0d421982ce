-- ===== src/Domain/Errors.antt =====
-- domain/errors.py and persistence/errors.py: the exceptions that the operations of the control
-- plane raise, without their messages, and the `ValueError` of a refused argument.
pub data Error : Type 0 where
  invalid_state_transition invariant_violation : Error
  record_not_found duplicate_record concurrent_modification : Error
  idempotency_conflict operation_in_progress database_busy value_error : Error
