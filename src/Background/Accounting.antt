-- ===== src/Background/Accounting.antt =====
-- What the worker writes on a row for a failed or a finished attempt.
use django_logic.Prelude.{
  ℕ, ◌+◌, ◌≡◌, refl, Bool, true, false, not, ◌&&◌, Option, none, some, List, [], ◌∷◌, ◌++◌, truthy,
  ap, ltb, inl, inr, Bool-cases,
}
use django_logic.Errors.{Error}
use django_logic.Exec.{Result, ok, err}
use django_logic.Django.{Django, State, Message, text}
use django_logic.World.{World, sees}
use django_logic.Atomic.Laws.{IsHealthy}
use django_logic.Message.{count_error, complete, measured, record_error}
use django_logic.Message.Rows.{
  row_of, rewritten, sees-rewritten, row_of-rewrite_row, save_row-eq, mark_as_completed-eq,
  record_error-eq,
}
use django_logic.Transition.{Transition, write_in_savepoint}
use django_logic.Transition.Writes.{Parked, ParkedOrKept, write_in_savepoint-Parked}
use django_logic.Background.Deployment.{Work}
use django_logic.Background.Handlers.{Outcome, park, failure_is_permanent, handle_failure}

-- A row that is closed as a failure, with its errors counted.
pub record Closed (r : Message) (rows : List Message) (pk : ℕ) : Type 0 where
  pub row : Message
  pub found : row_of pk rows ≡ some row
  pub is_completed : row.is_completed ≡ true
  pub ended_in_failure : row.ended_in_failure ≡ true
  pub counted : row.errors_count ≡ r.errors_count + 1

module _ {d : Django} where
  module _ (t : Transition d) (s : State) (m r : Message) (w : World d) (h : IsHealthy w) where
    -- `park` keeps the row but for the note on a refused write, and does not raise.
    record Noted (w' : World d) (m' : Message) : Type 0 where
      row : Message
      found : row_of m.pk (sees w').rows ≡ some row
      same_count : row.errors_count ≡ r.errors_count
      same_pk : m'.pk ≡ m.pk
      healthy : IsHealthy w'
      column : ParkedOrKept t s w w w'

    park_after :
        (x : Result (Option Error)) (w₁ : World d)
        → write_in_savepoint s t.failed_state w ≡ (x, w₁)
        → Parked s t.failed_state w h (x, w₁)
        → truthy t.failed_state ≡ true
        → row_of m.pk (sees w).rows ≡ some r
        → (m' : Message) × (w' : World d) × (park t s m w ≡ (ok m', w')) × Noted w' m'
    unfolding park
    park_after (ok none) w₁ e p b found = (
      m,
      w₁,
      rw (b, e),
      record {
        row = r;
        found = rw p.1 found;
        same_count = refl;
        same_pk = refl;
        healthy = p.3;
        column = inl (b, p.0);
      },
    )
    park_after (ok (some y)) w₁ e p b found =
        let notes = m.failure_side_effect_error ++ text y ∷ [] in
        let f =
          λ (z : Message). record z { failure_side_effect_error = notes; modified = w₁.now } in
        let found₁ : row_of m.pk (sees w₁).rows ≡ some r = rw p.0 found in
        let h₁ : IsHealthy w₁ = rw p.0 h in
        let v = sees-rewritten w₁ h₁ m.pk f in
        (
          f m,
          rewritten w₁ h₁ m.pk f,
          rw (b, e) (rw (save_row-eq w₁ h₁ m.pk f r found₁)),
          record {
            row = f r;
            found = rw v (row_of-rewrite_row m.pk f (λ z. refl) (sees w₁).rows r found₁);
            same_count = refl;
            same_pk = refl;
            healthy = rw v h₁;
            column = inr (rw (v, p.0), inr p.2);
          },
        )
    park_after (err y) w₁ e p b found = elim p [ ]

    park-Noted :
        row_of m.pk (sees w).rows ≡ some r
        → (m' : Message) × (w' : World d) × (park t s m w ≡ (ok m', w')) × Noted w' m'
    unfolding park
    park-Noted found = elim (Bool-cases (truthy t.failed_state)) [
      | inl b ↦
          park_after (write_in_savepoint s t.failed_state w).0
            (write_in_savepoint s t.failed_state w).1 refl
            (write_in_savepoint-Parked s t.failed_state w h) b found
      | inr b ↦ (
        m,
        w,
        rw b,
        record {
          row = r;
          found = found;
          same_count = refl;
          same_pk = refl;
          healthy = h;
          column = inr (refl, inl b);
        },
      )
    ]

  -- Another attempt is worth making: errors are left, and the failure is not permanent.
  abbrev pub is_retried : Work d → Error → Message → Bool
  is_retried work x r =
      ltb (r.errors_count + 1) d.settings.max_errors && not (failure_is_permanent work.transition x)

  abbrev pub failed_outcome : Work d → Error → Bool → Outcome d
  failed_outcome work x terminal = record {
    terminal = terminal;
    succeeded = false;
    exception = some x;
    work = some work;
  }

  module _ (message : Message) (work : Work d) (x : Error) (r : Message) (w : World d) where
    -- A failure with retries left is counted on the row and changes nothing else: the row stays
    -- uncompleted, and no state is written.
    pub handle_failure-retried :
        (h : IsHealthy w)
        → row_of message.pk (sees w).rows ≡ some r
        → is_retried work x r ≡ true
        → handle_failure message work x w
          ≡ (ok (failed_outcome work x false), rewritten w h message.pk (count_error w.now x))
    unfolding handle_failure
    handle_failure-retried h found b = rw (record_error-eq w h message r found x, b)

    -- The last failure closes the row with its error counted, whether or not the database accepts
    -- the failed state; the state column holds that state, or what it held where none is declared or
    -- the write of it after the counted error is refused, and nothing is raised.
    pub handle_failure-terminal :
        IsHealthy w
        → row_of message.pk (sees w).rows ≡ some r
        → is_retried work x r ≡ false
        → (w' : World d) × (handle_failure message work x w ≡ (ok (failed_outcome work x true), w'))
          × Closed r (sees w').rows message.pk
          × ParkedOrKept work.transition work.state (record_error x message w).1 w w'
          × IsHealthy w'
    unfolding handle_failure
    handle_failure-terminal h found b =
        let f = count_error w.now x in
        let w₁ : World d = rewritten w h message.pk f in
        let v₁ = sees-rewritten w h message.pk f in
        let h₁ : IsHealthy w₁ = rw v₁ h in
        let m₁ : Message = record message {
          errors_count = r.errors_count + 1;
          last_error_message = text x;
          last_error_dt = some w.now;
          modified = w.now;
        } in
        let found₁ : row_of message.pk (sees w₁).rows ≡ some (f r) =
          rw v₁ (row_of-rewrite_row message.pk f (λ m. refl) (sees w).rows r found) in
        let (m₂, w₂, e₂, n₂) = park-Noted work.transition work.state m₁ (f r) w₁ h₁ found₁ in
        let c = complete w₂.now true (measured true m₂.started_at w₂.now) in
        let found₂ : row_of m₂.pk (sees w₂).rows ≡ some n₂.row = rw n₂.same_pk n₂.found in
        let v₃ = sees-rewritten w₂ n₂.healthy m₂.pk c in
        let k = mark_as_completed-eq w₂ n₂.healthy m₂ n₂.row found₂ true true in
        let column = rw v₁ at n₂.column in
        (
          rewritten w₂ n₂.healthy m₂.pk c,
          rw (record_error-eq w h message r found x, b, e₂, k),
          record {
            row = c n₂.row;
            found =
                rw (v₃, n₂.same_pk)
                  (row_of-rewrite_row message.pk c (λ m. refl) (sees w₂).rows n₂.row n₂.found);
            is_completed = refl;
            ended_in_failure = refl;
            counted = n₂.same_count;
          },
          rw (ap (λ y. y.1) (record_error-eq w h message r found x)) (rw v₃ column),
          rw v₃ n₂.healthy,
        )
