-- ===== src/Transition/Running.antt =====
-- A synchronous run of a transition, from the lock to the callbacks.
use django_logic.Prelude.{
  ◌≡◌, refl, ap, ◌∙◌, Bool, true, false, Option, none, some, truthy, Bool-cases, inl, inr, update,
}
use django_logic.Errors.{Error}
use django_logic.Exec.{Result, ok, err, ◌>>◌}
use django_logic.Django.{Django, State}
use django_logic.World.{World, sees}
use django_logic.State.{set_state, unlock}
use django_logic.State.Ownership.{Holds}
use django_logic.State.Writing.{set_state-ok}
use django_logic.Atomic.Laws.{IsHealthy}
use django_logic.Commands.{run_commands, callbacks_execute, next_transition_execute}
use django_logic.Transition.{
  Transition, Call, release_lock, write_in_savepoint, write_failed_state, failure_callbacks_of,
  complete_transition, fail_transition, change_state,
}
use django_logic.Commands.Savepoint.{unlock-ok}
use django_logic.Commands.Deferred.{unlock-releases}
use django_logic.Transition.Entry.{locked, IsReady, change_state-enters}
use django_logic.Transition.Writes.{Parked, ParkedOrKept, write_in_savepoint-Parked}
use django_logic.Transition.Release.{
  IsReleasing, SameData, unlock-SameData, release_lock-IsReleasing,
}
use django_logic.Transition.Failing.{change_state-raises, change_state-completes}

module _ {d : Django} (t : Transition d) (s : State) where
  -- What the handling of a failure does before the failure callbacks run.
  abbrev pub Settled : World d → World d → Type 0
  Settled w w' = ((sees w').rows ≡ (sees w).rows) × ParkedOrKept t s w w w' × IsReleasing s w'

  wrote :
      (w : World d) (h : IsHealthy w)
      → (r : Result (Option Error)) (w₁ : World d) → write_in_savepoint s t.failed_state w ≡ (r, w₁)
      → Parked s t.failed_state w h (r, w₁)
      → truthy t.failed_state ≡ true
      → (b : Bool) × (write_failed_state t s w ≡ (ok b, w₁))
        × ((sees w₁).rows ≡ (sees w).rows)
        × ParkedOrKept t s w w w₁
  unfolding write_failed_state
  wrote w h (ok none) w₁ e p b = (true, rw (b, e), p.1, inl (b, p.0))
  wrote w h (ok (some x)) w₁ e p b =
      (false, rw (b, e), ap (λ v. v.rows) p.0, inr (ap (λ v. v.columns) p.0, inr p.2))
  wrote w h (err x) w₁ e p b = elim p [ ]

  write_failed_state-ParkedOrKept :
      (w : World d)
      → IsHealthy w
      → (b : Bool) × (w₁ : World d) × (write_failed_state t s w ≡ (ok b, w₁))
        × ((sees w₁).rows ≡ (sees w).rows)
        × ParkedOrKept t s w w w₁
  unfolding write_failed_state
  write_failed_state-ParkedOrKept w h = elim (Bool-cases (truthy t.failed_state)) [
    | inl b ↦
        let x = write_in_savepoint s t.failed_state w in
        let (o, e, rows, column) =
          wrote w h x.0 x.1 refl (write_in_savepoint-Parked s t.failed_state w h) b in
        (o, x.1, e, rows, column)
    | inr b ↦ (false, w, rw b, refl, inr (refl, inl b))
  ]

  fail_transition-Settled :
      (x : Error) (w : World d)
      → IsHealthy w
      → (w' : World d) × Settled w w'
        × (fail_transition t s x w ≡ callbacks_execute (failure_callbacks_of t x) w')
  unfolding fail_transition
  fail_transition-Settled x w h =
      let (b, w₁, e, rows, column) = write_failed_state-ParkedOrKept w h in
      let (w₂, r, released, same) = release_lock-IsReleasing s b w₁ in
      (w₂, (same.rows ∙ rows, rw same.columns column, released), rw (e, r))

  module _ (call : Call d) (w w₃ : World d) (ready : IsReady t s call w) where
    -- A run whose side-effects raise: the caller gets their exception, whatever happens to the write
    -- of the failed state and in the failure callbacks. When those callbacks start, the rows are as
    -- the side-effects left them, the state column holds the failed state or, where none is declared
    -- or the write is refused, what the side-effects left, and the lock is free or its unlock is
    -- registered for the commit.
    pub change_state-failed :
        (x : Error)
        → run_commands t.side_effects (locked s w) ≡ (err x, w₃)
        → IsHealthy w₃
        → (w₄ : World d) × Settled w₃ w₄
          × (change_state t s call w ≡ (err x, (callbacks_execute (failure_callbacks_of t x) w₄).1))
    change_state-failed x c h =
        let (w₄, settled, e) = fail_transition-Settled x w₃ h in
        let (revalidated, taken) = change_state-enters t s call w ready in
        (
          w₄,
          settled,
          change_state-raises t s call w (locked s w) (locked s w) w₃ x ready.kwargs taken
                revalidated c
              ∙ ap (λ y. (err x, y.1)) e,
        )

    -- A run whose side-effects return and whose target is saved: when the callbacks start, the state
    -- column holds the target, everything else of the database is as the side-effects left it, and
    -- the lock is free or its unlock is registered for the commit.
    pub change_state-completed :
        run_commands t.side_effects (locked s w) ≡ (ok tt, w₃)
        → (set_state s t.target w₃).0 ≡ ok tt
        → (w₄ : World d) × ((sees w₄).columns
            ≡ update (sees w₃).columns s.instance_key (some t.target))
          × ((sees w₄).rows ≡ (sees w₃).rows)
          × IsReleasing s w₄
          × (change_state t s call w
              ≡ (callbacks_execute t.callbacks
                    >> next_transition_execute call.process t.next_transition)
                  w₄)
    unfolding complete_transition
    change_state-completed c saved =
        let (revalidated, taken) = change_state-enters t s call w ready in
        let w' = (set_state s t.target w₃).1 in
        let v = set_state-ok s t.target w₃ saved in
        let (w₄, r, released, same) = release_lock-IsReleasing s true w' in
        let e : set_state s t.target w₃ ≡ (ok tt, w') = λ i. (saved i, w') in
        (
          w₄,
          same.columns ∙ ap (λ x. x.columns) v,
          same.rows ∙ ap (λ x. x.rows) v,
          released,
          change_state-completes t s call w (locked s w) (locked s w) w₃ ready.kwargs taken
                revalidated c
              ∙ rw (e, r),
        )

    -- A run whose target is refused raises what the save raised and keeps no lock; neither the
    -- callbacks nor the follow-up transition runs.
    pub change_state-unsaved :
        (y : Error)
        → run_commands t.side_effects (locked s w) ≡ (ok tt, w₃)
        → (set_state s t.target w₃).0 ≡ err y
        → (w₄ : World d) × (change_state t s call w ≡ (err y, w₄))
          × (¬ Holds s w₄)
          × SameData (set_state s t.target w₃).1 w₄
    unfolding complete_transition release_lock
    change_state-unsaved y c refused =
        let (revalidated, taken) = change_state-enters t s call w ready in
        let w' = (set_state s t.target w₃).1 in
        let e : set_state s t.target w₃ ≡ (err y, w') = λ i. (refused i, w') in
        let u : unlock s w' ≡ (ok tt, (unlock s w').1) = λ i. (unlock-ok s w' i, (unlock s w').1) in
        (
          (unlock s w').1,
          change_state-completes t s call w (locked s w) (locked s w) w₃ ready.kwargs taken
                revalidated c
              ∙ rw (e, u),
          unlock-releases s w',
          unlock-SameData s w',
        )
