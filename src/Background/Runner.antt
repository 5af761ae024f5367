-- ===== src/Background/Runner.antt =====
-- background/runner.py: one attempt at a background transition.
use django_logic.Prelude.{ℕ, true, false, Option, none, some, if◌then◌else◌}
use django_logic.Errors.{Error, nothing_to_do, stop_retry, restore_error}
use django_logic.Exec.{Result, ok, err, pure, raise, ◌>>=◌, ◌>>◌, catch, attempted}
use django_logic.Django.{Django, Message}
use django_logic.World.{M}
use django_logic.Atomic.{with_atomic}
use django_logic.Message.{stamp_attempt_started, mark_as_superseded}
use django_logic.Background.Deployment.{Work, Deployment}
use django_logic.Background.Handlers.{
  Outcome, mark_unrestorable_completed, lock_uncompleted_row, state_guard_matches, execute_attempt,
  handle_restore_failure, handle_success, handle_failure, run_success_hooks, run_failure_callbacks,
}

module _ {d : Django} (deployed : Deployment d) where
  -- `_decode_kwargs`: the exception is handed on, to be counted once the row is restored.
  unfoldable pub decode_kwargs : Message → M d (Option Error)
  unfolding with_atomic
  decode_kwargs message = attempted (with_atomic (deployed.decode message))

  abbrev pub restore_failed : Error → M d (Result (Work d))
  restore_failed restore_error = raise stop_retry
  restore_failed e = pure (err e)

  unfoldable pub restore_for_attempt : Message → M d (Result (Work d))
  unfolding with_atomic
  restore_for_attempt message =
      catch (with_atomic (deployed.restore message) >>= λ work. pure (ok work)) restore_failed

  -- The attempt of a restored row whose instance is where enqueue left it.
  unfoldable pub run_restored : Message → Work d → Option Error → M d (Outcome d)
  unfolding execute_attempt handle_failure handle_success
  run_restored message work (some decode_error) = handle_failure message work decode_error
  run_restored message work none = do
    failed ← attempted (execute_attempt work.transition work.state)
    elim failed [
      | none ↦ handle_success message work
      | some error ↦ handle_failure message work error
    ]

  unfoldable pub run_guarded : Message → Work d → Option Error → M d (Outcome d)
  unfolding state_guard_matches run_restored mark_as_superseded
  run_guarded message work decode_error = do
    matches ← state_guard_matches work.transition work.state
    if matches
        then run_restored message work decode_error
        else (mark_as_superseded message
            >> pure (record { terminal = true; succeeded = false; exception = none; work = none }))

  unfoldable pub run_locked : Message → M d (Outcome d)
  unfolding decode_kwargs restore_for_attempt handle_restore_failure run_guarded
  run_locked message = do
    decode_error ← decode_kwargs message
    restored ← restore_for_attempt message
    elim restored [
      | ok work ↦ run_guarded message work decode_error
      | err error ↦ handle_restore_failure message error
    ]

  unfoldable pub run_atomic : ℕ → M d (Outcome d)
  unfolding with_atomic lock_uncompleted_row run_locked
  run_atomic pk = with_atomic (lock_uncompleted_row pk >>= run_locked)

  -- The best-effort hooks of a terminal outcome; only a restored one has any.
  unfoldable pub run_hooks_of : Outcome d → M d Unit
  unfolding run_success_hooks run_failure_callbacks
  run_hooks_of o = elim o.work [
    | none ↦ pure tt
    | some work ↦
        if o.terminal
        then (if o.succeeded
            then run_success_hooks work
            else elim o.exception [ none ↦ pure tt | some e ↦ run_failure_callbacks work e ])
        else pure tt
  ]

  -- In sync mode the exception of the attempt goes on to the caller.
  unfoldable pub finish : Outcome d → M d Unit
  unfolding run_hooks_of
  finish o = do
    run_hooks_of o
    elim o.exception [ none ↦ pure tt | some e ↦ if d.settings.sync_mode then raise e else pure tt ]

  -- `except _StopRetry`, `except _NothingToDo`, or the outcome of the attempt.
  unfoldable pub conclude : ℕ → Result (Outcome d) → M d Unit
  unfolding mark_unrestorable_completed finish
  conclude pk (ok o) = finish o
  conclude pk (err stop_retry) = mark_unrestorable_completed pk
  conclude pk (err nothing_to_do) = pure tt
  conclude pk (err e) = raise e

  unfoldable pub run_background_transition : ℕ → M d Unit
  unfolding stamp_attempt_started run_atomic conclude
  run_background_transition pk = do
    stamped ← stamp_attempt_started pk
    if stamped then (λ w. let (r, w') = run_atomic pk w in conclude pk r w') else pure tt
