-- ===== src/Transition/Failing.antt =====
-- A side-effect that raises: the failure handling raises nothing of its own, so the caller gets
-- the side-effect's exception, and the lock does not stay behind.
use django_logic.Prelude.{
  ◌≡◌, refl, Bool, true, false, Option, none, some, List, truthy, ◌&&◌, Bool-cases, inl, inr, any,
  not, is_some, elem,
}
use django_logic.Errors.{Error}
use django_logic.Exec.{Result, ok, err, ◌>>◌, catch, pure}
use django_logic.Django.{Django, State, OnCommit, clear_deferred, Name}
use django_logic.World.{World, M, sees, put_attribute}
use django_logic.State.{set_state, lock}
use django_logic.Atomic.{at_commit}
use django_logic.Commands.{
  is_clear, run_in_savepoint, run_commands, side_effects_execute, note_deferred_unlock,
}
use django_logic.Commands.Savepoint.{unlock-ok}
use django_logic.Commands.Callbacks.{callbacks_execute-ok}
use django_logic.Transition.{
  Transition, Call, engine_param_kwargs, refuse_engine_param_kwargs, release_lock,
  write_in_savepoint, write_failed_state, failure_callbacks_of, complete_transition,
  fail_transition, revalidate, change_state,
}

module _ {d : Django} where
  module _ (cs : List (M d Unit)) (complete : M d Unit) (fail : Error → M d Unit)
      (w w' : World d) where
    pub side_effects-raised :
        (w'' : World d) (x : Error)
        → run_commands cs w ≡ (err x, w')
        → fail x w' ≡ (ok tt, w'')
        → side_effects_execute cs complete fail w ≡ (err x, w'')
    unfolding side_effects_execute
    side_effects-raised w'' x c f = rw (c, f)

    pub side_effects-done :
        run_commands cs w ≡ (ok tt, w') → side_effects_execute cs complete fail w ≡ complete w'
    unfolding side_effects_execute
    side_effects-done c = rw c

  at_commit-ok : (h : OnCommit) (w : World d) → (at_commit h w).0 ≡ ok tt
  unfolding at_commit
  at_commit-ok h w = elim (Bool-cases (sees w).in_atomic_block) [ inl b ↦ rw b | inr b ↦ rw b ]

  note_deferred_unlock-ok : (s : State) (w : World d) → (note_deferred_unlock s w).0 ≡ ok tt
  unfolding note_deferred_unlock
  note_deferred_unlock-ok s w = elim (Bool-cases (not (any is_clear (sees w).hooks))) [
    | inl b ↦ rw (b, at_commit-ok clear_deferred w)
    | inr b ↦ rw b
  ]

  pub release_lock-ok : (s : State) (b : Bool) (w : World d) → (release_lock s b w).0 ≡ ok tt
  unfolding release_lock
  release_lock-ok s b w =
      elim (Bool-cases (b && (d.settings.defer_unlock && (sees w).in_atomic_block))) [
        | inl e ↦ rw (e, at_commit-ok (OnCommit.unlock s) w) (note_deferred_unlock-ok s _)
        | inr e ↦ rw e (unlock-ok s w)
      ]

  pub write_in_savepoint-ok :
      (s : State) (n : Name) (w : World d)
      → (o : Option Error) × ((write_in_savepoint s n w).0 ≡ ok o)
  unfolding write_in_savepoint
  write_in_savepoint-ok s n w = go (run_in_savepoint true (set_state s n) w)
    where
      go :
          (r : Result Unit × World d)
          → (o : Option Error) × ((catch
                ((λ _. r) >> pure none)
                (λ e. put_attribute s (w.memory s.attribute) >> pure (some e))
                w).0
              ≡ ok o)
      go (ok _, w') = (none, refl)
      go (err e, w') = (some e, refl)

  write_failed_state-ok :
      (t : Transition d) (s : State) (w : World d)
      → (b : Bool) × ((write_failed_state t s w).0 ≡ ok b)
  unfolding write_failed_state
  write_failed_state-ok t s w = elim (Bool-cases (truthy t.failed_state)) [
    | inl b ↦ let (o, e) = write_in_savepoint-ok s t.failed_state w in (not (is_some o), rw (b, e))
    | inr b ↦ (false, rw b)
  ]

  -- The handling of a failure does not raise, whatever the database and the callbacks do.
  pub fail_transition-ok :
      (t : Transition d) (s : State) (x : Error) (w : World d) → (fail_transition t s x w).0 ≡ ok tt
  unfolding fail_transition
  fail_transition-ok t s x w =
      let (b, e) = write_failed_state-ok t s w in
      rw (e, release_lock-ok s b (write_failed_state t s w).1)
        (callbacks_execute-ok (failure_callbacks_of t x) _)

  module _ (t : Transition d) (s : State) (call : Call d) where
    -- How a run ends, by how its side-effects end, once the lock is taken and the checks are passed:
    -- it completes, or the failure is handled and the side-effect's own exception is raised.
    pub change_state-raises :
        (w w₁ w₂ w₃ : World d) (x : Error)
        → any (λ k. elem k engine_param_kwargs) call.kwargs ≡ false
        → lock s w ≡ (ok true, w₁)
        → revalidate t s w₁ ≡ (ok tt, w₂)
        → run_commands t.side_effects w₂ ≡ (err x, w₃)
        → change_state t s call w ≡ (err x, (fail_transition t s x w₃).1)
    unfolding change_state refuse_engine_param_kwargs side_effects_execute
    change_state-raises w w₁ w₂ w₃ x k l r c = rw (
      k,
      l,
      r,
      side_effects-raised t.side_effects (complete_transition t s call) (fail_transition t s) w₂ w₃
          (fail_transition t s x w₃).1 x c
          (λ i. (fail_transition-ok t s x w₃ i, (fail_transition t s x w₃).1)),
    )

    pub change_state-completes :
        (w w₁ w₂ w₃ : World d)
        → any (λ k. elem k engine_param_kwargs) call.kwargs ≡ false
        → lock s w ≡ (ok true, w₁)
        → revalidate t s w₁ ≡ (ok tt, w₂)
        → run_commands t.side_effects w₂ ≡ (ok tt, w₃)
        → change_state t s call w ≡ complete_transition t s call w₃
    unfolding change_state refuse_engine_param_kwargs side_effects_execute
    change_state-completes w w₁ w₂ w₃ k l r c = rw (
      k,
      l,
      r,
      side_effects-done t.side_effects (complete_transition t s call) (fail_transition t s) w₂ w₃ c,
    )
