-- ===== src/Transition/Action/Raising.antt =====
-- Whatever happens in the failure path of an action, the caller gets the side-effect's exception.
use django_logic.Prelude.{
  ◌≡◌, refl, Bool, true, false, Option, none, some, any, elem, truthy, is_some, not, Bool-cases,
  Option-cases, inl, inr,
}
use django_logic.Errors.{Error}
use django_logic.Exec.{Result, ok, err, pure, ◌>>=◌, catch}
use django_logic.Django.{Django, State}
use django_logic.World.{World}
use django_logic.State.Ownership.{lock-free, lock-held}
use django_logic.Commands.{run_commands}
use django_logic.Commands.Callbacks.{callbacks_execute-ok}
use django_logic.Transition.{
  Transition, Call, engine_param_kwargs, refuse_engine_param_kwargs, background_in_flight,
  failure_callbacks_of,
}
use django_logic.Transition.Action.{
  probe, write_unless_in_flight, write_under_lock, complete_transition, fail_transition,
  change_state,
}
use django_logic.Transition.Entry.{locked}
use django_logic.Transition.Failing.{release_lock-ok, write_in_savepoint-ok, side_effects-raised}

module _ {d : Django} where
  probe-ok : (s : State) (w : World d) → (o : Option Bool) × ((probe s w).0 ≡ ok o)
  unfolding probe
  probe-ok s w = go (background_in_flight s w)
    where
      go :
          (r : Result Bool × World d)
          → (o : Option Bool) × ((catch
                ((λ _. r) >>= λ found. pure (some found))
                (λ e. pure none)
                w).0
              ≡ ok o)
      go (ok b, w') = (some b, refl)
      go (err e, w') = (none, refl)

  written_if :
      (t : Transition d) (s : State) (w : World d) (o : Option Bool)
      → (probe s w).0 ≡ ok o
      → (b : Bool) × ((write_unless_in_flight t s w).0 ≡ ok b)
  unfolding write_unless_in_flight
  written_if t s w none e = (false, rw e)
  written_if t s w (some true) e = (false, rw e)
  written_if t s w (some false) e =
      let (o, k) = write_in_savepoint-ok s t.failed_state (probe s w).1 in
      (not (is_some o), rw (e, k))

  write_unless_in_flight-ok :
      (t : Transition d) (s : State) (w : World d)
      → (b : Bool) × ((write_unless_in_flight t s w).0 ≡ ok b)
  write_unless_in_flight-ok t s w = let (o, e) = probe-ok s w in written_if t s w o e

  write_under_lock-ok :
      (t : Transition d) (s : State) (w : World d) → (write_under_lock t s w).0 ≡ ok tt
  unfolding write_under_lock
  write_under_lock-ok t s w = elim (Option-cases (d.get s.instance_key w.cache)) [
    | inr (u, held) ↦ rw (lock-held s w u held)
    | inl free ↦
        let (b, e) = write_unless_in_flight-ok t s (locked s w) in
        rw (lock-free s w free, e) (release_lock-ok s b (write_unless_in_flight t s (locked s w)).1)
  ]

  action_fail-ok :
      (t : Transition d) (s : State) (x : Error) (w : World d) → (fail_transition t s x w).0 ≡ ok tt
  unfolding fail_transition
  action_fail-ok t s x w = elim (Bool-cases (truthy t.failed_state)) [
    | inl b ↦ rw (b, write_under_lock-ok t s w) (callbacks_execute-ok (failure_callbacks_of t x) _)
    | inr b ↦ rw b (callbacks_execute-ok (failure_callbacks_of t x) w)
  ]

  -- An action whose side-effects raise passes their exception on, however its lock, its probe for a
  -- background transition, the write of its failed state and its failure callbacks end.
  pub action_change_state-raises :
      (t : Transition d) (s : State) (call : Call d) (w w₁ : World d) (x : Error)
      → any (λ k. elem k engine_param_kwargs) call.kwargs ≡ false
      → run_commands t.side_effects w ≡ (err x, w₁)
      → change_state t s call w ≡ (err x, (fail_transition t s x w₁).1)
  unfolding change_state refuse_engine_param_kwargs
  action_change_state-raises t s call w w₁ x k c = rw (
    k,
    side_effects-raised t.side_effects (complete_transition t) (fail_transition t s) w w₁
        (fail_transition t s x w₁).1 x c
        (λ i. (action_fail-ok t s x w₁ i, (fail_transition t s x w₁).1)),
  )
