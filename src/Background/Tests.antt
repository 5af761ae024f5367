-- ===== src/Background/Tests.antt =====
-- The theorems of the background package on a small site.
use django_logic.Prelude.{◌≡◌, refl, true, false, none, some, List, [], ◌∷◌}
use django_logic.Errors.{raised}
use django_logic.Exec.{ok}
use django_logic.Django.{Message}
use django_logic.World.{World, sees}
use django_logic.Atomic.Laws.{IsHealthy}
use django_logic.Message.{count_error, record_error}
use django_logic.Message.Rows.{row_of, rewrite_row}
use django_logic.Transition.Writes.{ParkedOrKept}
use django_logic.Background.Handlers.{execute_attempt, failure_is_permanent}
use django_logic.Background.Runner.{run_restored, run_guarded, run_atomic}
use django_logic.Background.Whole.{attempt_world, run_atomic-retried}
use django_logic.Background.Accounting.{Closed, failed_outcome}
use django_logic.Background.Attempts.{
  execute_attempt-err, run_restored-retried, run_restored-terminal, run_restored-finished,
}
use django_logic.Background.Guard.{Superseded, run_guarded-moved}
use django_logic.Sample.Site.{
  site, sending, sent, invoice, start, succeeds, fails, send_later, queued, tried_twice, work,
  deployed,
}

abbrev running : List Message → World site
running rows = start rows sending false

execute_attempt-err_example :
    sees (execute_attempt (send_later fails) invoice (running (queued ∷ []))).1
    ≡ sees (running (queued ∷ []))
unfolding execute_attempt
execute_attempt-err_example =
    execute_attempt-err (send_later fails) invoice (running (queued ∷ [])) (raised 7) refl refl

run_restored-retried_example :
    let w = running (queued ∷ []) in
    let (res, w') = run_restored (deployed fails) queued (work fails) none w in
    let now = (execute_attempt (send_later fails) invoice w).1.now in
    (res ≡ ok (failed_outcome (work fails) (raised 7) false))
    × ((sees w').rows ≡ rewrite_row 1 (count_error now (raised 7)) (sees w).rows)
    × ((sees w').columns ≡ (sees w).columns)
    × IsHealthy w'
unfolding execute_attempt failure_is_permanent
run_restored-retried_example =
    run_restored-retried (deployed fails) queued (work fails) (running (queued ∷ [])) (raised 7)
      queued refl refl refl refl

run_restored-terminal_example :
    let w = running (tried_twice ∷ []) in
    let (res, w') = run_restored (deployed fails) tried_twice (work fails) none w in
    let w₁ = (execute_attempt (send_later fails) invoice w).1 in
    (res ≡ ok (failed_outcome (work fails) (raised 7) true))
    × Closed tried_twice (sees w').rows 1
    × ParkedOrKept (send_later fails) invoice (record_error (raised 7) tried_twice w₁).1 w w'
unfolding execute_attempt
run_restored-terminal_example =
    run_restored-terminal (deployed fails) tried_twice (work fails) (running (tried_twice ∷ []))
      (raised 7) tried_twice refl refl refl refl

run_restored-finished_example :
    let w = running (queued ∷ []) in
    let (res, w') = run_restored (deployed succeeds) queued (work succeeds) none w in
    (res
      ≡ ok (record {
        terminal = true;
        succeeded = true;
        exception = none;
        work = some (work succeeds);
      }))
    × ((sees w').columns 10 ≡ some sent)
    × (m : Message) × (row_of 1 (sees w').rows ≡ some m)
    × (m.is_completed ≡ true)
    × (m.errors_count ≡ 0)
    × (m.ended_in_failure ≡ false)
unfolding execute_attempt
run_restored-finished_example =
    run_restored-finished (deployed succeeds) queued (work succeeds) (running (queued ∷ [])) queued
      refl refl refl refl

run_guarded-moved_example :
    let w = start (queued ∷ []) sent false in
    let (res, w') = run_guarded (deployed succeeds) queued (work succeeds) none w in
    (res ≡ ok (record { terminal = true; succeeded = false; exception = none; work = none }))
    × ((sees w').columns ≡ (sees w).columns)
    × (w'.memory ≡ w.memory)
    × (m : Message) × (row_of 1 (sees w').rows ≡ some m)
    × Superseded queued m
run_guarded-moved_example =
    run_guarded-moved (deployed succeeds) queued (work succeeds) (start (queued ∷ []) sent false)
      sent refl queued none refl refl refl

run_atomic-retried_example :
    let w = running (queued ∷ []) in
    let (res, w') = run_atomic (deployed fails) 1 w in
    let now =
      (execute_attempt
        (send_later fails)
        invoice
        (attempt_world (deployed fails) queued (work fails) w sending refl)).1.now in
    (res ≡ ok (failed_outcome (work fails) (raised 7) false))
    × ((sees w').rows ≡ rewrite_row 1 (count_error now (raised 7)) (sees w).rows)
    × ((sees w').columns ≡ (sees w).columns)
unfolding execute_attempt failure_is_permanent
run_atomic-retried_example =
    run_atomic-retried (deployed fails) queued (work fails) (running (queued ∷ [])) sending refl
      (raised 7) refl refl refl refl refl refl refl refl refl
