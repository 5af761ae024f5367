-- ===== src/Background/Attempts.antt =====
-- One attempt at a restored row: a failed attempt leaves only its accounting, a finished one its
-- target and a completed row, and an instance that was moved is left alone.
use django_logic.Prelude.{◌≡◌, refl, ◌∙◌, ap, true, false, none, some}
use django_logic.Errors.{Error}
use django_logic.Exec.{Result, ok, err, is_err}
use django_logic.Django.{Django, State, Message}
use django_logic.World.{World, sees}
use django_logic.State.{set_state}
use django_logic.State.Writing.{set_state-target}
use django_logic.Atomic.Laws.{IsHealthy, entered}
use django_logic.Commands.{run_commands}
use django_logic.Commands.Savepoint.{run_in_savepoint-err, run_in_savepoint-data}
use django_logic.Message.{count_error, complete, measured, record_error}
use django_logic.Message.Rows.{
  row_of, rewrite_row, rewritten, sees-rewritten, row_of-rewrite_row, mark_as_completed-eq,
}
use django_logic.Transition.{Transition}
use django_logic.Transition.Writes.{ParkedOrKept}
use django_logic.Background.Deployment.{Work, Deployment}
use django_logic.Background.Handlers.{
  is_background_action, attempt, execute_attempt, handle_failure, handle_success,
}
use django_logic.Background.Accounting.{
  Closed, is_retried, failed_outcome, handle_failure-retried, handle_failure-terminal,
}
use django_logic.Background.Runner.{run_restored}

module _ {d : Django} where
  -- A failed attempt leaves every row and every state column as it found them, whatever its
  -- side-effects wrote before it failed, and whether it raised or was rolled back silently.
  pub execute_attempt-err :
      (t : Transition d) (s : State) (w : World d) (x : Error)
      → IsHealthy w
      → (execute_attempt t s w).0 ≡ err x
      → sees (execute_attempt t s w).1 ≡ sees w
  unfolding execute_attempt
  execute_attempt-err t s w x h e = run_in_savepoint-err (attempt t s) w h e

  attempt-written :
      (t : Transition d) (s : State) (w w₁ : World d)
      → run_commands t.side_effects w ≡ (ok tt, w₁)
      → is_background_action t.kind ≡ false
      → attempt t s w ≡ set_state s t.target w₁
  unfolding attempt
  attempt-written t s w w₁ r b = rw (r, b)

  attempt-raised :
      (t : Transition d) (s : State) (w w₁ : World d) (x : Error)
      → run_commands t.side_effects w ≡ (err x, w₁)
      → attempt t s w ≡ (err x, w₁)
  unfolding attempt
  attempt-raised t s w w₁ x r = rw r

  attempt-target_after :
      (t : Transition d) (s : State) (w : World d)
      → is_err (attempt t s w).0 ≡ false
      → is_background_action t.kind ≡ false
      → (x : Result Unit) (w₁ : World d) → run_commands t.side_effects w ≡ (x, w₁)
      → (sees (attempt t s w).1).columns s.instance_key ≡ some t.target
  attempt-target_after t s w e b (err x) w₁ r = cc (e, attempt-raised t s w w₁ x r)
  attempt-target_after t s w e b (ok _) w₁ r =
      let k = attempt-written t s w w₁ r b in rw k (set_state-target s t.target w₁ (rw k at e))

  -- The target write of an attempt that did not raise.
  attempt-target :
      (t : Transition d) (s : State) (w : World d)
      → is_err (attempt t s w).0 ≡ false
      → is_background_action t.kind ≡ false
      → (sees (attempt t s w).1).columns s.instance_key ≡ some t.target
  attempt-target t s w e b =
      attempt-target_after t s w e b (run_commands t.side_effects w).0
        (run_commands t.side_effects w).1 refl

  -- A finished attempt of a background transition leaves its target in the state column.
  execute_attempt-ok :
      (t : Transition d) (s : State) (w : World d)
      → IsHealthy w
      → (execute_attempt t s w).0 ≡ ok tt
      → is_background_action t.kind ≡ false
      → IsHealthy (execute_attempt t s w).1
        × ((sees (execute_attempt t s w).1).columns s.instance_key ≡ some t.target)
  unfolding execute_attempt
  execute_attempt-ok t s w h e b =
      let x = run_in_savepoint-data (attempt t s) w h e in
      (x.4, ap (λ c. c s.instance_key) x.0 ∙ attempt-target t s (entered w) x.3 b)

  handle_success-eq :
      (message : Message) (work : Work d) (r : Message) (w : World d) (h : IsHealthy w)
      → row_of message.pk (sees w).rows ≡ some r
      → handle_success message work w ≡ (
        ok (record { terminal = true; succeeded = true; exception = none; work = some work }),
        rewritten w h message.pk (complete w.now false (measured true message.started_at w.now)),
      )
  unfolding handle_success
  handle_success-eq message work r w h found =
      rw (mark_as_completed-eq w h message r found true false)

  module _ (deployed : Deployment d) (message : Message) (work : Work d) (w : World d) where
    failing :
        (x : Error) (w₁ : World d)
        → execute_attempt work.transition work.state w ≡ (err x, w₁)
        → run_restored deployed message work none w ≡ handle_failure message work x w₁
    unfolding run_restored
    failing x w₁ e = rw e

    finishing :
        (w₁ : World d)
        → execute_attempt work.transition work.state w ≡ (ok tt, w₁)
        → run_restored deployed message work none w ≡ handle_success message work w₁
    unfolding run_restored
    finishing w₁ e = rw e

    module _ (x : Error) (r : Message) (healthy : IsHealthy w) where
      -- A failed attempt with retries left: the rows are as before it but for the error counted on
      -- its own row, the state columns are as before it, and the row stays for another attempt.
      pub run_restored-retried :
          (execute_attempt work.transition work.state w).0 ≡ err x
          → row_of message.pk (sees w).rows ≡ some r
          → is_retried work x r ≡ true
          → let (res, w') = run_restored deployed message work none w in
            let now = (execute_attempt work.transition work.state w).1.now in
            (res ≡ ok (failed_outcome work x false))
            × ((sees w').rows ≡ rewrite_row message.pk (count_error now x) (sees w).rows)
            × ((sees w').columns ≡ (sees w).columns)
            × IsHealthy w'
      run_restored-retried e found b =
          let w₁ = (execute_attempt work.transition work.state w).1 in
          let v = execute_attempt-err work.transition work.state w x healthy e in
          let h₁ : IsHealthy w₁ = rw v healthy in
          let k = handle_failure-retried message work x r w₁ h₁ (rw v found) b in
          let u = sees-rewritten w₁ h₁ message.pk (count_error w₁.now x) in
          rw (failing x w₁ (λ i. (e i, w₁)), k) (refl, rw (u, v), rw (u, v), rw u h₁)

      -- The last failed attempt: its row is closed as a failure with the error counted, and the state
      -- column holds the failed state, or what it held before the attempt where none is declared or
      -- where its save raises in the savepoint that is opened after the error was counted.
      pub run_restored-terminal :
          (execute_attempt work.transition work.state w).0 ≡ err x
          → row_of message.pk (sees w).rows ≡ some r
          → is_retried work x r ≡ false
          → let (res, w') = run_restored deployed message work none w in
            let w₁ = (execute_attempt work.transition work.state w).1 in
            (res ≡ ok (failed_outcome work x true))
            × Closed r (sees w').rows message.pk
            × ParkedOrKept work.transition work.state (record_error x message w₁).1 w w'
      run_restored-terminal e found b =
          let w₁ = (execute_attempt work.transition work.state w).1 in
          let v = execute_attempt-err work.transition work.state w x healthy e in
          let h₁ : IsHealthy w₁ = rw v healthy in
          let (w', k, closed, column, _) =
            handle_failure-terminal message work x r w₁ h₁ (rw v found) b in
          rw (failing x w₁ (λ i. (e i, w₁)), k) (refl, closed, rw v at column)

    module _ (r : Message) (healthy : IsHealthy w) where
      -- The row of a finished attempt is completed with the attempt's duration, and the other rows
      -- and the columns are those that the attempt left.
      pub run_restored-completed :
          (execute_attempt work.transition work.state w).0 ≡ ok tt
          → is_background_action work.transition.kind ≡ false
          → row_of message.pk (sees (execute_attempt work.transition work.state w).1).rows ≡ some r
          → let (res, w') = run_restored deployed message work none w in
            let w₁ = (execute_attempt work.transition work.state w).1 in
            let c = complete w₁.now false (measured true message.started_at w₁.now) in
            (res
              ≡ ok (record {
                terminal = true;
                succeeded = true;
                exception = none;
                work = some work;
              }))
            × ((sees w').rows ≡ rewrite_row message.pk c (sees w₁).rows)
            × ((sees w').columns work.state.instance_key ≡ some work.transition.target)
            × IsHealthy w'
      run_restored-completed e b found =
          let t = work.transition in
          let s = work.state in
          let w₁ = (execute_attempt t s w).1 in
          let (h₁, column) = execute_attempt-ok t s w healthy e b in
          let c = complete w₁.now false (measured true message.started_at w₁.now) in
          let v = sees-rewritten w₁ h₁ message.pk c in
          rw (finishing w₁ (λ i. (e i, w₁)), handle_success-eq message work r w₁ h₁ found)
            (refl, rw v refl, rw v column, rw v h₁)

      -- A finished attempt of a background transition whose side-effects leave the row `r` there: the
      -- column holds the target, and the row is completed with the error count that it had.
      pub run_restored-finished :
          (execute_attempt work.transition work.state w).0 ≡ ok tt
          → is_background_action work.transition.kind ≡ false
          → row_of message.pk (sees (execute_attempt work.transition work.state w).1).rows ≡ some r
          → let (res, w') = run_restored deployed message work none w in
            (res
              ≡ ok (record {
                terminal = true;
                succeeded = true;
                exception = none;
                work = some work;
              }))
            × ((sees w').columns work.state.instance_key ≡ some work.transition.target)
            × (m : Message) × (row_of message.pk (sees w').rows ≡ some m)
            × (m.is_completed ≡ true)
            × (m.errors_count ≡ r.errors_count)
            × (m.ended_in_failure ≡ r.ended_in_failure)
      run_restored-finished e b found =
          let t = work.transition in
          let s = work.state in
          let w₁ = (execute_attempt t s w).1 in
          let (h₁, column) = execute_attempt-ok t s w healthy e b in
          let c = complete w₁.now false (measured true message.started_at w₁.now) in
          let v = sees-rewritten w₁ h₁ message.pk c in
          rw (finishing w₁ (λ i. (e i, w₁)), handle_success-eq message work r w₁ h₁ found)
            (
              refl,
              rw v column,
              c r,
              rw v (row_of-rewrite_row message.pk c (λ m. refl) (sees w₁).rows r found),
              refl,
              refl,
              refl,
            )
