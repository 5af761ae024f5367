-- ===== src/Background/Pull.antt =====
-- background/pull.py: a worker claims one row, runs an attempt, and records the death of the process
-- that ran it. `child` is the fork and the wait for it: what the attempt in the child leaves in the
-- database, and its exit code.
pub mod Claim
pub mod Death
pub mod Loop
mod Tests
use django_logic.Prelude.{
  ℕ, ◌+◌, Bool, true, false, not, Option, none, some, List, [], ◌∷◌, find, truthy, ◌==◌,
  if◌then◌else◌,
}
use django_logic.Exec.{pure, gets, ◌>>=◌, ◌>>◌, attempted, when}
use django_logic.Django.{Django, Name, Message, crashed}
use django_logic.World.{M, query}
use django_logic.Atomic.{with_atomic}
use django_logic.Message.{is_uncompleted, update_rows}
use django_logic.Background.Deployment.{Deployment}
use django_logic.Background.Runner.{run_background_transition}
use django_logic.Background.SafetyNets.{
  claimable, watchdog_stale_attempts, detect_stuck_transitions, cleanup_completed_transitions,
}

abbrev pub pk_of : Option Message → Option ℕ
pk_of none = none
pk_of (some m) = some m.pk

-- The columns that a death writes.
abbrev pub charge_death : ℕ → Message → Message
charge_death now m = record m {
  errors_count = m.errors_count + 1;
  last_error_message = crashed;
  last_error_dt = some now;
  modified = now;
}

module _ {d : Django} where
  -- `_claimable(queues).select_for_update(skip_locked=True).first()`
  unfoldable pub first_unlocked : List Name → M d (Option Message)
  unfolding claimable
  first_unlocked queues = do
    now ← gets (λ w. w.now)
    v ← query
    conn ← gets (λ w. w.conn)
    pure (find (λ m. not (d.row_locked m.pk conn)) (claimable d.settings now (some queues) v.rows))

  unfoldable pub claim_next : List Name → M d (Option ℕ)
  claim_next queues = do found ← with_atomic (first_unlocked queues); pure (pk_of found)

  -- One conditional UPDATE: a row that is completed by then keeps its columns.
  unfoldable pub record_child_death : ℕ → M d Unit
  unfolding update_rows
  record_child_death pk = do
    now ← gets (λ w. w.now)
    update_rows (is_uncompleted pk) (charge_death now)

  module _ (deployed : Deployment d) (child : ℕ → M d ℕ) where
    unfoldable pub run_attempt_in_child : ℕ → M d Unit
    unfolding record_child_death
    run_attempt_in_child pk = do
      exit_code ← child pk
      when (truthy exit_code) (record_child_death pk)

    abbrev pub run_claimed : Bool → Option ℕ → M d Bool
    run_claimed isolate none = pure false
    run_claimed isolate (some pk) =
        (if isolate then run_attempt_in_child pk else run_background_transition deployed pk)
        >> pure true

    unfoldable pub run_once : Bool → List Name → M d Bool
    unfolding claim_next run_attempt_in_child run_background_transition
    run_once isolate queues = do pk ← claim_next queues; run_claimed isolate pk

    -- `_run_safety_nets`: a net that raises does not keep the others from running.
    unfoldable pub run_safety_nets : M d Unit
    unfolding watchdog_stale_attempts detect_stuck_transitions cleanup_completed_transitions
    run_safety_nets = do
      attempted (watchdog_stale_attempts deployed >> pure tt)
      attempted (detect_stuck_transitions deployed >> pure tt)
      attempted (cleanup_completed_transitions >> pure tt)
      pure tt
