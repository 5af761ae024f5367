-- ===== src/Transition/Action/Yielding.antt =====
-- The failure of an action: its failed state gives way to a transition that holds the lock and to a
-- background transition in flight, and its exception goes on unchanged.
use django_logic.Prelude.{
  ℕ, suc, ◌≡◌, ap, refl, ◌∙◌, update_self, ==_refl, Bool, true, false, none, some, List, [], ◌∷◌,
  any, filter, truthy, Bool-cases, inl, inr, if◌then◌else◌,
}
use django_logic.Errors.{Error}
use django_logic.Exec.{ok, pure, ◌>>=◌}
use django_logic.Django.{Django, State}
use django_logic.World.{World, sees}
use django_logic.State.Ownership.{lock-free, lock-held, unlock-held}
use django_logic.Atomic.Laws.{IsHealthy, query-healthy}
use django_logic.Commands.{callbacks_execute}
use django_logic.Message.{occupies, in_flight_for}
use django_logic.Transition.{Transition, background_in_flight, failure_callbacks_of, release_lock}
use django_logic.Transition.Action.{
  probe, write_unless_in_flight, write_under_lock, fail_transition,
}
use django_logic.Transition.Entry.{locked}
use django_logic.Transition.Release.{SameData}
use django_logic.State.{unlock}

any-filter :
    {A : Type 0} (p : A → Bool) (xs : List A)
    → any p xs ≡ true
    → any (λ _. true) (filter p xs) ≡ true
any-filter p [] e = cc e
any-filter p (x ∷ xs) e = elim (Bool-cases (p x)) [
  | inl b ↦ rw b
  | inr b ↦ rw b (any-filter p xs (rw b at e))
]

module _ {d : Django} (s : State) (w : World d) where
  background_in_flight-eq :
      d.settings.background_installed ≡ true
      → background_in_flight s w
        ≡ (in_flight_for s.instance s.process_name >>= λ rows. pure (any (λ _. true) rows)) w
  unfolding background_in_flight
  background_in_flight-eq e =
      ap
        (λ b.
          (if b
              then (in_flight_for s.instance s.process_name >>= λ rows. pure (any (λ _. true) rows))
              else pure false)
            w)
        e

  probe-found :
      IsHealthy w
      → d.settings.background_installed ≡ true
      → any (occupies s.instance s.process_name) (sees w).rows ≡ true
      → probe s w ≡ (ok (some true), w)
  unfolding probe in_flight_for
  probe-found h i u = rw (
    background_in_flight-eq i,
    query-healthy w h,
    any-filter (occupies s.instance s.process_name) (sees w).rows u,
  )

-- An unlock after which nothing was written is not deferred.
release_lock-now : {d : Django} (s : State) (w : World d) → release_lock s false w ≡ unlock s w
unfolding release_lock
release_lock-now s w = refl

module _ {d : Django} (t : Transition d) (s : State) (x : Error) (w : World d)
    (declared : truthy t.failed_state ≡ true) where
  -- An action that fails while the lock of the state is held writes nothing: what is left is the
  -- call of the failure callbacks.
  pub action_fail-locked :
      {token : ℕ}
      → d.get s.instance_key w.cache ≡ some token
      → fail_transition t s x w
        ≡ callbacks_execute (failure_callbacks_of t x) (record w { supply = suc w.supply })
  unfolding fail_transition write_under_lock
  action_fail-locked {token} held = rw (declared, lock-held s w token held)

  -- An action that fails while an uncompleted row owns the instance, with a free lock and a healthy
  -- connection: its failed state is not written, and when the failure callbacks start rows, state
  -- columns and attributes are as before and the lock that it took is free again, inside a
  -- transaction too.
  pub action_fail-in_flight :
      IsHealthy w
      → d.get s.instance_key w.cache ≡ none
      → d.settings.background_installed ≡ true
      → any (occupies s.instance s.process_name) (sees w).rows ≡ true
      → (w' : World d) × (fail_transition t s x w ≡ callbacks_execute (failure_callbacks_of t x) w')
        × SameData w w'
        × (d.get s.instance_key w'.cache ≡ none)
  unfolding fail_transition write_under_lock write_unless_in_flight
  action_fail-in_flight h free i u =
      let w' : World d = record (locked s w) {
        cache = d.delete s.instance_key (locked s w).cache;
      } in
      let unlocks =
        unlock-held s (locked s w) w.supply (update_self w.tokens s.ref (some w.supply))
          (d.add_free s.instance_key w.supply d.settings.lock_timeout w.cache free).1 in
      (
        w',
        rw (
          declared,
          lock-free s w free,
          probe-found s (locked s w) h i u,
          release_lock-now s (locked s w),
          unlocks,
        ),
        record {
          rows = refl;
          columns = refl;
          memory = refl;
          needs_rollback = refl;
          in_atomic_block = refl;
        },
        d.get-delete s.instance_key s.instance_key (locked s w).cache ∙ rw (==_refl s.instance_key),
      )
