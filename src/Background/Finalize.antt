-- ===== src/Background/Finalize.antt =====
-- background/runner.py: the safety nets' two entries, which charge an abandoned attempt and bring a
-- stuck row to its end.
pub mod Abandoned
mod Tests
use django_logic.Prelude.{
  ℕ, ◌+◌, Bool, true, false, not, Option, none, some, ltb, leb, if◌then◌else◌,
}
use django_logic.Errors.{Error, timeout_error, runtime_error}
use django_logic.Exec.{Result, ok, err, pure, gets, ◌>>=◌, ◌>>◌, catch, caught, attempted}
use django_logic.Django.{Django, Message}
use django_logic.World.{M}
use django_logic.Atomic.{with_atomic}
use django_logic.Message.{
  except_operational, seconds, lock_row, mark_as_completed, mark_as_superseded, record_error,
}
use django_logic.Background.Deployment.{Work, Deployment}
use django_logic.Background.Handlers.{park, state_guard_matches, run_failure_callbacks}

-- `started_at + timedelta(seconds=timeout_seconds) < timezone.now()`, where both are known
abbrev pub is_overdue : ℕ → Option ℕ → Option ℕ → Bool
is_overdue now none timeout = false
is_overdue now (some started) none = false
is_overdue now (some started) (some timeout) = ltb (started + seconds timeout) now

-- The row has an error of its current attempt.
abbrev pub is_charged : Option ℕ → Option ℕ → Bool
is_charged none started = false
is_charged (some error) none = false
is_charged (some error) (some started) = leb started error

-- The transition, state and exception that the failure callbacks are given after the commit.
abbrev pub Hooks : Django → Type 0
Hooks d = Option (Work d × Error)

module _ {d : Django} where
  -- What the caller of a safety net runs once its block is left.
  unfoldable pub run_hooks_after : Hooks d → M d Unit
  unfolding run_failure_callbacks
  run_hooks_after none = pure tt
  run_hooks_after (some (work, e)) = run_failure_callbacks work e

  -- The row under its lock; one that is gone, completed or held by a worker is skipped.
  unfoldable pub lock_for_net : ℕ → M d (Option Message)
  unfolding lock_row
  lock_for_net pk = catch (lock_row pk) (except_operational none)

  module _ (deployed : Deployment d) where
    unfoldable pub finalize_restored : Message → Error → Work d → M d (Hooks d)
    unfolding with_atomic state_guard_matches mark_as_superseded park mark_as_completed
    finalize_restored message error work = do
      attempted (with_atomic (deployed.decode message))
      matches ← state_guard_matches work.transition work.state
      if matches
          then (do
            parked ← park work.transition work.state message
            mark_as_completed false true parked
            pure (some (work, error)))
          else (mark_as_superseded message >> pure none)

    -- A row that cannot be restored, for a permanent reason or another, is completed as a failure.
    unfoldable pub finalize_outcome : Message → Error → Result (Work d) → M d (Hooks d)
    unfolding finalize_restored mark_as_completed
    finalize_outcome message error (ok work) = finalize_restored message error work
    finalize_outcome message error (err e) = mark_as_completed false true message >> pure none

    unfoldable pub finalize_terminal_from_watchdog : Message → Error → M d (Hooks d)
    unfolding with_atomic finalize_outcome
    finalize_terminal_from_watchdog message error =
        caught (with_atomic (deployed.restore message)) >>= finalize_outcome message error

    -- The charge of an abandoned attempt, and the end of the row at `MAX_ERRORS`.
    unfoldable pub charge : Message → M d (Bool × Hooks d)
    unfolding record_error finalize_terminal_from_watchdog
    charge message = do
      m ← record_error timeout_error message
      if leb d.settings.max_errors m.errors_count
          then (do hooks ← finalize_terminal_from_watchdog m timeout_error; pure (true, hooks))
          else pure (true, none)

    -- The row that is locked is tested again: the scan only suggests a candidate.
    unfoldable pub charge_if_abandoned : Option Message → M d (Bool × Hooks d)
    unfolding charge
    charge_if_abandoned none = pure (false, none)
    charge_if_abandoned (some m) = do
      now ← gets (λ w. w.now)
      if not (is_overdue now m.started_at m.timeout_seconds)
          then pure (false, none)
          else (if is_charged m.last_error_dt m.started_at then pure (false, none) else charge m)

    -- The block of `abandon_timed_out_attempt`.
    unfoldable pub abandon_block : ℕ → M d (Bool × Hooks d)
    unfolding with_atomic lock_for_net charge_if_abandoned
    abandon_block pk = with_atomic (lock_for_net pk >>= charge_if_abandoned)

    unfoldable pub abandon_timed_out_attempt : ℕ → M d Bool
    unfolding abandon_block run_hooks_after
    abandon_timed_out_attempt pk = do
      (touched, hooks) ← abandon_block pk
      run_hooks_after hooks
      pure touched

    unfoldable pub finalize_if_found : Option Message → M d (Bool × Hooks d)
    unfolding finalize_terminal_from_watchdog
    finalize_if_found none = pure (false, none)
    finalize_if_found (some m) = do
      hooks ← finalize_terminal_from_watchdog m runtime_error
      pure (true, hooks)

    unfoldable pub finalize_stuck_attempt : ℕ → M d Bool
    unfolding with_atomic lock_for_net finalize_if_found run_hooks_after
    finalize_stuck_attempt pk = do
      (touched, hooks) ← with_atomic (lock_for_net pk >>= finalize_if_found)
      run_hooks_after hooks
      pure touched
