-- ===== src/Transition/Action.antt =====
-- transition.py: `class Action`, which writes no state on success and takes the lock only around
-- the write of `failed_state`.
pub mod Yielding
pub mod Raising
mod Tests
use django_logic.Prelude.{Bool, false, Option, none, some, is_some, truthy, not, if◌then◌else◌}
use django_logic.Errors.{Error}
use django_logic.Exec.{pure, raise, ◌>>=◌, ◌>>◌, catch, when}
use django_logic.Django.{Django, State}
use django_logic.World.{M}
use django_logic.State.{lock}
use django_logic.Commands.{side_effects_execute, callbacks_execute}
use django_logic.Transition.{
  Transition, Call, refuse_engine_param_kwargs, background_in_flight, release_lock,
  write_in_savepoint, failure_callbacks_of,
}

module _ {d : Django} where
  unfoldable pub complete_transition : Transition d → M d Unit
  unfolding callbacks_execute
  complete_transition t = callbacks_execute t.callbacks

  -- `none` where the probe itself raised: unknown means do not write.
  unfoldable pub probe : State → M d (Option Bool)
  unfolding background_in_flight
  probe s = catch (background_in_flight s >>= λ found. pure (some found)) (λ e. pure none)

  -- Under the lock: writes `failed_state` unless a background transition owns the state field.
  unfoldable pub write_unless_in_flight : Transition d → State → M d Bool
  unfolding probe write_in_savepoint
  write_unless_in_flight t s = do
    in_flight ← probe s
    elim in_flight [
      | none ↦ pure false
      | some found ↦
          if found
          then pure false
          else (do refused ← write_in_savepoint s t.failed_state; pure (not (is_some refused)))
    ]

  unfoldable pub write_under_lock : Transition d → State → M d Unit
  unfolding lock write_unless_in_flight release_lock
  write_under_lock t s = do
    locked ← lock s
    when locked do
      wrote_state ← catch (write_unless_in_flight t s) (λ e. release_lock s false >> raise e)
      release_lock s wrote_state

  unfoldable pub fail_transition : Transition d → State → Error → M d Unit
  unfolding write_under_lock callbacks_execute
  fail_transition t s error = do
    when (truthy t.failed_state) (write_under_lock t s)
    callbacks_execute (failure_callbacks_of t error)

  unfoldable pub change_state : Transition d → State → Call d → M d Unit
  unfolding refuse_engine_param_kwargs side_effects_execute complete_transition fail_transition
  change_state t s call = do
    refuse_engine_param_kwargs call.kwargs
    side_effects_execute t.side_effects (complete_transition t) (fail_transition t s)
