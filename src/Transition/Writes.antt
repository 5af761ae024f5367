-- ===== src/Transition/Writes.antt =====
-- The write of a failed state in a savepoint, which `Transition`, `Action` and the worker share.
use django_logic.Prelude.{
  ◌≡◌, refl, sym, ◌∙◌, ap, true, false, Option, none, some, update, update_self, Option-cases, inl,
  inr, truthy, ◌⊎◌,
}
use django_logic.Errors.{Error}
use django_logic.Exec.{Result, ok, err, is_err}
use django_logic.Django.{Django, Name, State}
use django_logic.World.{World, sees}
use django_logic.State.{set_state}
use django_logic.State.Writing.{set_state-accepted, set_state-refused}
use django_logic.Atomic.Laws.{IsHealthy, entered, sees-entered}
use django_logic.Commands.{run_in_savepoint}
use django_logic.Commands.Savepoint.{
  run_in_savepoint-kept, run_in_savepoint-err, run_in_savepoint-data,
}
use django_logic.Transition.{Transition, write_in_savepoint}

module _ {d : Django} where
  -- The save of this state raises in a savepoint that is opened in this world.
  abbrev pub IsRefused : State → Name → World d → Type 0
  IsRefused s n at = (e : Error) × ((d.save s.instance_key n (d.enter at.conn)).0 ≡ some e)

module _ {d : Django} (s : State) (n : Name) (w : World d) (h : IsHealthy w) where
  -- In a block, a write that does not raise is one that the database accepted.
  written :
      is_err (set_state s n (entered w)).0 ≡ false
      → ((sees (set_state s n (entered w)).1).columns
          ≡ update (sees w).columns s.instance_key (some n))
        × ((sees (set_state s n (entered w)).1).rows ≡ (sees w).rows)
        × ((set_state s n (entered w)).1.memory s.attribute ≡ n)
  written e = elim (Option-cases (d.save s.instance_key n (d.enter w.conn)).0) [
    | inl accepted ↦
        let x = set_state-accepted s n (entered w) (rw (sees-entered w h) h) accepted in
        let v = sees-entered w h in (rw (x.1, v), rw (x.1, v), x.2)
    | inr (y, refused) ↦
        cc (e, (set_state-refused s n (entered w) (rw (sees-entered w h) h) refused).0)
  ]

  -- An accepted write is kept, so a block that raised is one whose write was refused.
  raised-IsRefused :
      {x : Error} {w' : World d}
      → run_in_savepoint true (set_state s n) w ≡ (err x, w')
      → IsRefused s n w
  raised-IsRefused {x} {w'} e = elim (Option-cases (d.save s.instance_key n (d.enter w.conn)).0) [
    | inl accepted ↦
        let v = sees-entered w h in
        let k = set_state-accepted s n (entered w) (rw v h) accepted in
        let f : set_state s n (entered w) ≡ (ok tt, (set_state s n (entered w)).1) =
          λ i. (k.0 i, (set_state s n (entered w)).1) in
        let healthy : IsHealthy (set_state s n (entered w)).1 = rw (k.1, v) h in
        cc (e, run_in_savepoint-kept true (set_state s n) w (set_state s n (entered w)).1 f healthy)
    | inr (y, refused) ↦ (y, refused)
  ]

  -- What the call leaves, by how it ended: the new state in the row and in the attribute, or the
  -- connection as it was and the attribute put back. It never raises.
  abbrev pub Parked : Result (Option Error) × World d → Type 0
  Parked (ok none, w') =
      ((sees w').columns ≡ update (sees w).columns s.instance_key (some n))
      × ((sees w').rows ≡ (sees w).rows)
      × (w'.memory s.attribute ≡ n)
      × IsHealthy w'
  Parked (ok (some e), w') =
      (sees w' ≡ sees w) × (w'.memory s.attribute ≡ w.memory s.attribute) × IsRefused s n w
  Parked (err e, w') = ⊥

  savepointed :
      (r : Result Unit) (w' : World d)
      → run_in_savepoint true (set_state s n) w ≡ (r, w')
      → Parked (write_in_savepoint s n w)
  unfolding write_in_savepoint
  savepointed (ok _) w' e =
      let x = run_in_savepoint-data (set_state s n) w h (ap (λ y. y.0) e) in
      let y = written x.3 in
      rw e (
        sym (ap (λ y. (sees y.1).columns) e) ∙ x.0 ∙ y.0,
        sym (ap (λ y. (sees y.1).rows) e) ∙ x.1 ∙ y.1,
        sym (ap (λ y. y.1.memory s.attribute) e) ∙ ap (λ m. m s.attribute) x.2 ∙ y.2,
        ap (λ y. (sees y.1).needs_rollback) (sym e) ∙ x.4,
      )
  savepointed (err x) w' e =
      let v = run_in_savepoint-err (set_state s n) w h (ap (λ y. y.0) e) in
      rw e (
        sym (ap (λ y. sees y.1) e) ∙ v,
        update_self w'.memory s.attribute (w.memory s.attribute),
        raised-IsRefused e,
      )

  -- The guarded write of a failed state, on a connection that answers: either the row and the
  -- attribute hold the new state and the rows of the table are as before, or rows, columns and
  -- flags are as before and the attribute holds its previous value. It does not raise.
  pub write_in_savepoint-Parked : Parked (write_in_savepoint s n w)
  write_in_savepoint-Parked =
      savepointed (run_in_savepoint true (set_state s n) w).0
        (run_in_savepoint true (set_state s n) w).1 refl

module _ {d : Django} where
  -- The state column after a failure, from one world to another: the failed state, or what it held
  -- where none is declared or the write of it, made in the world `at`, is refused.
  abbrev pub ParkedOrKept : Transition d → State → World d → World d → World d → Type 0
  ParkedOrKept t s at w w' =
      ((truthy t.failed_state ≡ true)
        × ((sees w').columns ≡ update (sees w).columns s.instance_key (some t.failed_state)))
      ⊎ (((sees w').columns ≡ (sees w).columns)
          × ((truthy t.failed_state ≡ false) ⊎ IsRefused s t.failed_state at))
