-- ===== src/Commands.antt =====
-- commands.py: savepoints that keep deferred unlocks, and the bundles of hooks of a transition.
pub mod Savepoint
mod Tests
pub mod Deferred
pub mod Callbacks
use django_logic.Prelude.{
  ℕ, Bool, true, false, not, Option, none, some, List, [], ◌∷◌, ◌++◌, any, take, drop, length, map,
  truthy, if◌then◌else◌,
}
use django_logic.Errors.{Error, silent_rollback}
use django_logic.Exec.{
  ok, err, pure, raise, gets, ◌>>=◌, ◌>>◌, catch, attempted, modify, when, raise_if,
}
use django_logic.Django.{Django, Name, State, OnCommit, unlock, clear_deferred, notify_workers}
use django_logic.World.{M, sees}
use django_logic.State
use django_logic.Atomic.{at_commit, with_atomic}

-- `getattr(item, '_dl_deferred_clear', False)`
abbrev pub is_clear : OnCommit → Bool
is_clear clear_deferred = true
is_clear (unlock _) = false
is_clear notify_workers = false

module _ {d : Django} where
  -- `_in_open_transaction`, on the one connection of the model
  unfoldable pub in_open_transaction : M d Bool
  in_open_transaction = gets (λ w. (sees w).in_atomic_block)

  unfoldable pub note_deferred_unlock : State → M d Unit
  unfolding at_commit
  note_deferred_unlock s = do
    hooks ← gets (λ w. (sees w).hooks)
    when (not (any is_clear hooks)) (at_commit clear_deferred)
    modify λ w. record w { registry = w.registry ++ s ∷ [] }

  -- An `unlock` that raised would be logged and passed over; in the model it does not raise.
  unfoldable pub unlock_each : List State → M d Unit
  unfolding State.unlock
  unlock_each [] = pure tt
  unlock_each (s ∷ ss) = State.unlock s >> unlock_each ss

  -- `dropped = registry[before:]; del registry[before:]`, then each is unlocked
  unfoldable pub release_dropped : ℕ → M d Unit
  unfolding unlock_each
  release_dropped before = do
    dropped ← gets (λ w. drop before w.registry)
    modify λ w. record w { registry = take before w.registry }
    unlock_each dropped

  -- The block of `_run_in_savepoint`, with `bool(conn.needs_rollback)` at its end.
  unfoldable pub savepoint_block : {A : Type 0} → M d A → M d (A × Bool)
  unfolding with_atomic
  savepoint_block fn =
      with_atomic do
        result ← fn
        rolled_back ← gets (λ w. (sees w).needs_rollback)
        pure (result, rolled_back)

  unfoldable pub run_in_savepoint : {A : Type 0} → Bool → M d A → M d A
  unfolding savepoint_block release_dropped
  run_in_savepoint require_commit fn = do
    before ← gets (λ w. length w.registry)
    (result, rolled_back) ← catch (savepoint_block fn) (λ e. release_dropped before >> raise e)
    when rolled_back (release_dropped before >> raise_if require_commit silent_rollback)
    pure result

  -- `Conditions.execute`: `all(command(instance) for command in commands)`
  unfoldable pub all_hold : List (M d Bool) → M d Bool
  all_hold [] = pure true
  all_hold (c ∷ cs) = let rest = all_hold cs in do holds ← c; if holds then rest else pure false

  -- `Permissions.execute`: no user means no restriction
  unfoldable pub permitted : List (ℕ → M d Bool) → Option ℕ → M d Bool
  unfolding all_hold
  permitted commands none = pure true
  permitted commands (some user) = all_hold (map (λ c. c user) commands)

  -- The commands of a bundle in order, up to the first that raises.
  unfoldable pub run_commands : List (M d Unit) → M d Unit
  run_commands [] = pure tt
  run_commands (c ∷ cs) = c >> run_commands cs

  -- `SideEffects.execute`, over the transition's `complete_transition` and `fail_transition`
  unfoldable pub side_effects_execute : List (M d Unit) → M d Unit → (Error → M d Unit) → M d Unit
  unfolding run_commands
  side_effects_execute commands complete fail = do
    failed ← attempted (run_commands commands)
    elim failed [ none ↦ complete | some e ↦ fail e >> raise e ]

  -- One callback: in a savepoint inside a transaction, and its exception goes no further.
  unfoldable pub run_callback : Bool → M d Unit → M d Unit
  unfolding run_in_savepoint
  run_callback in_transaction command =
      catch (if in_transaction then run_in_savepoint false command else command) (λ e. pure tt)

  unfoldable pub run_callbacks : Bool → List (M d Unit) → M d Unit
  unfolding run_callback
  run_callbacks in_transaction [] = pure tt
  run_callbacks in_transaction (c ∷ cs) =
      run_callback in_transaction c >> run_callbacks in_transaction cs

  -- `Callbacks.execute`
  unfoldable pub callbacks_execute : List (M d Unit) → M d Unit
  unfolding in_open_transaction run_callbacks
  callbacks_execute commands = do
    in_transaction ← in_open_transaction
    run_callbacks in_transaction commands

-- The keyword argument that only an enqueue may be given.
abbrev pub request : Name
request = 4

-- A transition that an action name finds now.
pub record Available : Type 0 where
  pub ref : ℕ
  pub is_background : Bool

-- The bound process that `getattr(state.instance, state.process_name)` gives: the transitions
-- that an action name finds now, and the call of that action, with `request` taken out of its
-- keyword arguments or not.
pub record Accessor (d : Django) : Type 0 where
  pub available : Name → M d (List Available)
  pub call : Bool → Name → M d Unit

module _ {d : Django} where
  -- `NextTransition.execute`: runs a follow-up that is available once, without `request` where it
  -- is a background one, and swallows its failure.
  unfoldable pub next_transition_execute : Accessor d → Name → M d Unit
  unfolding in_open_transaction run_callback
  next_transition_execute process name =
      if truthy name
      then (do
        transitions ← process.available name
        elim transitions [
          | [] ↦ pure tt
          | t ∷ rest ↦ elim rest [
            | [] ↦ in_open_transaction >>= λ inside.
                run_callback inside (process.call t.is_background name)
            | _ ∷ _ ↦ pure tt
          ]
        ])
      else pure tt
