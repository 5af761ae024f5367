-- ===== src/Errors.antt =====
-- The exceptions of exceptions.py, background/exceptions.py and the engine's own signals, as one
-- data type of values, and the `isinstance` tests that the code makes of them.
use django_logic.Prelude.{ℕ, Bool, true, false, List, elem}

-- Why a plain `TransitionNotAllowed` was raised.
pub data Reason : Type 0 where
  state_is_locked not_a_source stranded rejected several_transitions no_transition : Reason

-- `raised k` is an exception of the consumer's class number `k`.
pub data Error : Type 0 where
  transition_not_allowed : Reason → Error
  temporarily_unavailable already_in_progress source_state_changed : Error
  permanent_failure silent_rollback nothing_to_do stop_retry restore_error timeout_error : Error
  type_error kwargs_serialization_error attribute_error import_error : Error
  improperly_configured runtime_error recursion_error : Error
  transaction_management integrity_error operational_error database_error does_not_exist : Error
  raised : ℕ → Error

-- `isinstance(error, TransitionTemporarilyUnavailable)`: the class and its two subclasses.
unfoldable pub is_temporarily_unavailable : Error → Bool
is_temporarily_unavailable temporarily_unavailable = true
is_temporarily_unavailable already_in_progress = true
is_temporarily_unavailable source_state_changed = true
is_temporarily_unavailable _ = false

-- `isinstance(error, PermanentFailure)`
unfoldable pub is_permanent_failure : Error → Bool
is_permanent_failure permanent_failure = true
is_permanent_failure _ = false

-- `isinstance(error, no_retry_on)` for a tuple of the consumer's exception classes.
unfoldable pub is_listed : List ℕ → Error → Bool
is_listed classes (raised k) = elem k classes
is_listed classes _ = false

-- `isinstance(error, ImportError)`
abbrev pub is_import_error : Error → Bool
is_import_error import_error = true
is_import_error _ = false
