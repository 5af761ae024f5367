-- ===== src/Background/Guard.antt =====
-- The state guard of an attempt: an instance that was moved away while the row waited is left as it
-- is, and the row is closed without counting a failure.
use django_logic.Prelude.{◌≡◌, refl, true, false, Option, none, some}
use django_logic.Errors.{Error}
use django_logic.Exec.{ok}
use django_logic.Django.{Django, Name, Message, superseded}
use django_logic.World.{World, sees}
use django_logic.State.Writing.{get_persisted_state-some}
use django_logic.Atomic.Laws.{IsHealthy}
use django_logic.Message.{complete, mark_as_superseded}
use django_logic.Message.Rows.{
  row_of, rewritten, sees-rewritten, row_of-rewrite_row, save_row-eq, mark_as_completed-eq,
}
use django_logic.Background.Deployment.{Work, Deployment}
use django_logic.Background.Handlers.{guard_accepts, state_guard_matches}
use django_logic.Background.Runner.{run_guarded, run_restored}

-- A row closed as superseded: completed, its errors and its failure flag as they were.
pub record Superseded (r m : Message) : Type 0 where
  pub is_completed : m.is_completed ≡ true
  pub note : m.last_error_message ≡ superseded
  pub errors_count : m.errors_count ≡ r.errors_count
  pub ended_in_failure : m.ended_in_failure ≡ r.ended_in_failure

module _ {d : Django} where
  mark_as_superseded-eq :
      (w : World d) (h : IsHealthy w) (self r : Message)
      → row_of self.pk (sees w).rows ≡ some r
      → (self' m : Message) × (w' : World d) × (mark_as_superseded self w ≡ (ok self', w'))
        × (row_of self.pk (sees w').rows ≡ some m)
        × Superseded r m
        × ((sees w').columns ≡ (sees w).columns)
        × (w'.memory ≡ w.memory)
  unfolding mark_as_superseded
  mark_as_superseded-eq w h self r e =
      let f = λ (m : Message). record m {
        last_error_message = superseded;
        last_error_dt = some w.now;
        modified = w.now;
      } in
      let w₁ : World d = rewritten w h self.pk f in
      let v₁ = sees-rewritten w h self.pk f in
      let h₁ : IsHealthy w₁ = rw v₁ h in
      let found₁ : row_of self.pk (sees w₁).rows ≡ some (f r) =
        rw v₁ (row_of-rewrite_row self.pk f (λ m. refl) (sees w).rows r e) in
      let c = complete w.now false none in
      let v₂ = sees-rewritten w₁ h₁ self.pk c in
      (
        c (f self),
        c (f r),
        rewritten w₁ h₁ self.pk c,
        rw (
          save_row-eq w h self.pk f r e,
          mark_as_completed-eq w₁ h₁ (f self) (f r) found₁ false false,
        ),
        rw v₂ (row_of-rewrite_row self.pk c (λ m. refl) (sees w₁).rows (f r) found₁),
        record { is_completed = refl; note = refl; errors_count = refl; ended_in_failure = refl },
        rw (v₂, v₁),
        refl,
      )

  module _ (deployed : Deployment d) (message : Message) (work : Work d) (w : World d) where
    module _ (current : Name) (healthy : IsHealthy w) where
      guard-eq :
          (sees w).columns work.state.instance_key ≡ some current
          → state_guard_matches work.transition work.state w ≡ (
            ok (guard_accepts work.transition.in_progress_state work.transition.sources current),
            w,
          )
      unfolding state_guard_matches
      guard-eq e = rw (get_persisted_state-some work.state current w healthy e)

      -- An instance where enqueue left it, by its in-progress state or, where none is declared, by
      -- its sources: the attempt goes on.
      pub run_guarded-matches :
          (sees w).columns work.state.instance_key ≡ some current
          → guard_accepts work.transition.in_progress_state work.transition.sources current ≡ true
          → (x : Option Error)
          → run_guarded deployed message work x w ≡ run_restored deployed message work x w
      unfolding run_guarded
      run_guarded-matches e b x = rw (guard-eq e, b)

      -- An instance that is in another state: no side-effect runs, no state column and no attribute
      -- changes, and the row is completed with the errors and the failure flag that it had, even
      -- where its keyword arguments do not decode.
      pub run_guarded-moved :
          (r : Message) (x : Option Error)
          → (sees w).columns work.state.instance_key ≡ some current
          → guard_accepts work.transition.in_progress_state work.transition.sources current ≡ false
          → row_of message.pk (sees w).rows ≡ some r
          → let (res, w') = run_guarded deployed message work x w in
            (res
              ≡ ok (record { terminal = true; succeeded = false; exception = none; work = none }))
            × ((sees w').columns ≡ (sees w).columns)
            × (w'.memory ≡ w.memory)
            × (m : Message) × (row_of message.pk (sees w').rows ≡ some m)
            × Superseded r m
      unfolding run_guarded
      run_guarded-moved r x e b found =
          let (_, m, w', k, row, closed, columns, memory) =
            mark_as_superseded-eq w healthy message r found in
          rw (guard-eq e, b, k) (refl, columns, memory, m, row, closed)
