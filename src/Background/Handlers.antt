-- ===== src/Background/Handlers.antt =====
-- background/runner.py: the parts of an attempt: the row lock, the state guard, the savepoint of the
-- side-effects, and the accounting of each outcome on the row.
use django_logic.Prelude.{
  ℕ, Bool, true, false, not, ◌&&◌, ◌||◌, Option, none, some, List, elem, truthy, ltb, ◌==◌,
  if◌then◌else◌,
}
use django_logic.Errors.{Error, nothing_to_do, is_permanent_failure, is_listed}
use django_logic.Exec.{pure, raise, gets, ◌>>=◌, ◌>>◌, catch, attempted}
use django_logic.Django.{Django, Name, State, Message, unrestorable}
use django_logic.World.{M}
use django_logic.State.{get_persisted_state, set_state}
use django_logic.Commands.{
  run_in_savepoint, run_commands, callbacks_execute, next_transition_execute,
}
use django_logic.Message.{
  except_operational, is_uncompleted, lock_row, update_rows, mark_as_completed, record_error,
  record_failure_side_effect_error,
}
use django_logic.Transition.{
  Kind, transition, action, background_transition, background_action, Transition,
  write_in_savepoint, failure_callbacks_of,
}
use django_logic.Background.Deployment.{Work}

-- `_Outcome`
pub record Outcome (d : Django) : Type 0 where
  pub terminal : Bool
  pub succeeded : Bool
  pub exception : Option Error
  pub work : Option (Work d)

-- `isinstance(transition, BackgroundAction)`
abbrev pub is_background_action : Kind → Bool
is_background_action transition = false
is_background_action action = false
is_background_action background_transition = false
is_background_action background_action = true

-- The columns that `_mark_unrestorable_completed` writes.
abbrev pub close_unrestorable : ℕ → Message → Message
close_unrestorable now m = record m {
  is_completed = true;
  ended_in_failure = true;
  completed_at = some now;
  last_error_message = unrestorable;
  last_error_dt = some now;
  modified = now;
}

-- `current == in_progress_state`, or `current in sources` where none is declared
abbrev pub guard_accepts : Name → List Name → Name → Bool
guard_accepts in_progress sources current =
    if truthy in_progress then current == in_progress else elem current sources

module _ {d : Django} where
  -- Either way the call returns; a failed write is logged.
  unfoldable pub mark_unrestorable_completed : ℕ → M d Unit
  unfolding update_rows
  mark_unrestorable_completed pk = do
    now ← gets (λ w. w.now)
    catch (update_rows (is_uncompleted pk) (close_unrestorable now)) (λ e. pure tt)

  unfoldable pub lock_uncompleted_row : ℕ → M d Message
  unfolding lock_row
  lock_uncompleted_row pk = do
    found ← catch (lock_row pk) (except_operational none)
    elim found [ none ↦ raise nothing_to_do | some m ↦ pure m ]

  unfoldable pub failure_is_permanent : Transition d → Error → Bool
  unfolding is_permanent_failure is_listed
  failure_is_permanent t e = is_permanent_failure e || is_listed t.no_retry_on e

  unfoldable pub state_guard_matches : Transition d → State → M d Bool
  unfolding get_persisted_state
  state_guard_matches t s = do
    current ← get_persisted_state s
    pure (guard_accepts t.in_progress_state t.sources current)

  -- `_attempt`: the side-effects, then the target write of a transition that is no action.
  unfoldable pub attempt : Transition d → State → M d Unit
  unfolding run_commands set_state
  attempt t s = do
    run_commands t.side_effects
    if is_background_action t.kind then pure tt else set_state s t.target

  -- All of it in one savepoint, which has to commit.
  unfoldable pub execute_attempt : Transition d → State → M d Unit
  unfolding attempt run_in_savepoint
  execute_attempt t s = run_in_savepoint true (attempt t s)

  unfoldable pub handle_restore_failure : Message → Error → M d (Outcome d)
  unfolding record_error mark_as_completed
  handle_restore_failure message error = do
    m ← record_error error message
    if ltb m.errors_count d.settings.max_errors
        then pure
            (record { terminal = false; succeeded = false; exception = some error; work = none })
        else (mark_as_completed false true m
            >> pure (record {
              terminal = true;
              succeeded = false;
              exception = some error;
              work = none;
            }))

  unfoldable pub handle_success : Message → Work d → M d (Outcome d)
  unfolding mark_as_completed
  handle_success message work = do
    mark_as_completed true false message
    pure (record { terminal = true; succeeded = true; exception = none; work = some work })

  -- The write of `failed_state` in a savepoint; what refuses it is recorded on the row.
  unfoldable pub park : Transition d → State → Message → M d Message
  unfolding write_in_savepoint record_failure_side_effect_error
  park t s m =
      if truthy t.failed_state
      then (do
        refused ← write_in_savepoint s t.failed_state
        elim refused [ none ↦ pure m | some e ↦ record_failure_side_effect_error e m ])
      else pure m

  unfoldable pub handle_failure : Message → Work d → Error → M d (Outcome d)
  unfolding record_error failure_is_permanent park mark_as_completed
  handle_failure message work error = do
    m ← record_error error message
    if ltb m.errors_count d.settings.max_errors && not (failure_is_permanent work.transition error)
        then pure (record {
          terminal = false;
          succeeded = false;
          exception = some error;
          work = some work;
        })
        else (do
          parked ← park work.transition work.state m
          mark_as_completed true true parked
          pure (record {
            terminal = true;
            succeeded = false;
            exception = some error;
            work = some work;
          }))

  unfoldable pub run_success_hooks : Work d → M d Unit
  unfolding callbacks_execute next_transition_execute
  run_success_hooks work = do
    attempted (callbacks_execute work.transition.callbacks)
    attempted (next_transition_execute work.process work.transition.next_transition)
    pure tt

  unfoldable pub run_failure_callbacks : Work d → Error → M d Unit
  unfolding callbacks_execute
  run_failure_callbacks work error = do
    attempted (callbacks_execute (failure_callbacks_of work.transition error))
    pure tt
