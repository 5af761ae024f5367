-- ===== src/Commands/Savepoint.antt =====
-- `_run_in_savepoint`: all of the block's writes or none, and the deferred unlocks that a rollback
-- would have dropped are released.
use django_logic.Prelude.{
  ◌≡◌, refl, sym, ◌∙◌, ap, Bool, true, false, List, [], ◌∷◌, length, drop, arith, Bool-cases, inl,
  inr, if◌then◌else◌, ℕ,
}
use django_logic.Errors.{Error, silent_rollback}
use django_logic.Exec.{Result, ok, err, is_err}
use django_logic.Django.{Django, State}
use django_logic.State
use django_logic.World.{World, M, sees}
use django_logic.Atomic.{run_hooks}
use django_logic.Atomic.Laws.{IsHealthy, entered, conn-unlock, conn-run_hooks, memory-run_hooks}
use django_logic.Commands.{unlock_each, release_dropped, run_in_savepoint}

module _ {d : Django} where
  pub unlock-ok : (s : State) (w : World d) → (State.unlock s w).0 ≡ ok tt
  unfolding State.unlock
  unlock-ok s w = ground arith

  unlock_each-ok : (ss : List State) (w : World d) → (unlock_each ss w).0 ≡ ok tt
  unfolding unlock_each
  unlock_each-ok [] w = refl
  unlock_each-ok (s ∷ ss) w = rw (unlock-ok s w) (unlock_each-ok ss (State.unlock s w).1)

  conn-unlock_each : (ss : List State) (w : World d) → (unlock_each ss w).1.conn ≡ w.conn
  unfolding unlock_each
  conn-unlock_each [] w = refl
  conn-unlock_each (s ∷ ss) w =
      rw (unlock-ok s w) (conn-unlock_each ss (State.unlock s w).1 ∙ conn-unlock s w)

  conn-release_dropped : (n : ℕ) (w : World d) → (release_dropped n w).1.conn ≡ w.conn
  unfolding release_dropped
  conn-release_dropped n w = conn-unlock_each (drop n w.registry) _

  module _ {A : Type 0} (require_commit : Bool) (fn : M d A) (w : World d) (w' : World d) where
    -- The world after the block is left by a rollback, and its deferred unlocks released.
    abbrev pub discarded : World d
    discarded =
        (release_dropped (length w.registry) (record w' { conn = d.exit true w.conn w'.conn })).1

    pub run_in_savepoint-raised :
        {e : Error}
        → fn (entered w) ≡ (err e, w')
        → IsHealthy w
        → run_in_savepoint require_commit fn w ≡ (err e, discarded)
    unfolding run_in_savepoint
    run_in_savepoint-raised f h =
        let x = d.exit_rollback true w.conn w'.conn h refl in
        rw (f, x.1, unlock_each-ok (drop (length w.registry) w'.registry))

    -- The world after a block that returned on a connection that waits for a rollback.
    abbrev pub discarded_silently : World d
    discarded_silently =
        (release_dropped (length w.registry) (record w' { conn = d.exit false w.conn w'.conn })).1

    pub run_in_savepoint-silent :
        {a : A}
        → fn (entered w) ≡ (ok a, w')
        → IsHealthy w
        → (sees w').needs_rollback ≡ true
        → run_in_savepoint require_commit fn w
          ≡ ((if require_commit then err silent_rollback else ok a), discarded_silently)
    unfolding run_in_savepoint
    run_in_savepoint-silent f h b =
        let x = d.exit_rollback false w.conn w'.conn h b in
        rw (f, b, x.1, unlock_each-ok (drop (length w.registry) w'.registry))
          (elim (Bool-cases require_commit) [ inl e ↦ rw e | inr e ↦ rw e ])

    pub run_in_savepoint-kept :
        {a : A}
        → fn (entered w) ≡ (ok a, w')
        → IsHealthy w'
        → run_in_savepoint require_commit fn w ≡ (
          ok a,
          run_hooks
              (d.fired false w.conn w'.conn)
              (record w' { conn = d.exit false w.conn w'.conn }),
        )
    unfolding run_in_savepoint
    run_in_savepoint-kept f h = rw (f, h)

    -- Inside an open transaction nothing fires at the end of the block.
    pub run_in_savepoint-nested :
        {a : A}
        → fn (entered w) ≡ (ok a, w')
        → IsHealthy w'
        → (sees w).in_atomic_block ≡ true
        → (run_in_savepoint require_commit fn w
            ≡ (ok a, record w' { conn = d.exit false w.conn w'.conn }))
          × (d.view (d.exit false w.conn w'.conn) ≡ record (sees w') { in_atomic_block = true })
    unfolding run_hooks
    run_in_savepoint-nested f h i =
        let x = d.exit_commit w.conn w'.conn h in
        (run_in_savepoint-kept f h ∙ rw (x.1, i), rw (x.0, i))

    pub sees-discarded : IsHealthy w → sees discarded ≡ sees w
    sees-discarded h =
        ap d.view (conn-release_dropped (length w.registry) _)
        ∙ (d.exit_rollback true w.conn w'.conn h refl).0

    pub sees-discarded_silently :
        IsHealthy w → (sees w').needs_rollback ≡ true → sees discarded_silently ≡ sees w
    sees-discarded_silently h b =
        ap d.view (conn-release_dropped (length w.registry) _)
        ∙ (d.exit_rollback false w.conn w'.conn h b).0

  module _ {A : Type 0} (fn : M d A) (w : World d) (healthy : IsHealthy w) where
    refused_by :
        (r : Result A) (w' : World d)
        → fn (entered w) ≡ (r, w')
        → {e : Error} → (run_in_savepoint true fn w).0 ≡ err e
        → sees (run_in_savepoint true fn w).1 ≡ sees w
    refused_by (err e) w' f h =
        rw (run_in_savepoint-raised true fn w w' f healthy) (sees-discarded true fn w w' healthy)
    refused_by (ok a) w' f h = elim (Bool-cases (sees w').needs_rollback) [
      | inl b ↦
          rw (run_in_savepoint-silent true fn w w' f healthy b)
            (sees-discarded_silently true fn w w' healthy b)
      | inr b ↦ cc (h, run_in_savepoint-kept true fn w w' f b)
    ]

    -- A block that has to commit and does not, whether it raised or its rollback was silent, leaves
    -- rows, columns, hooks and flags of the connection as they were.
    pub run_in_savepoint-err :
        {e : Error}
        → (run_in_savepoint true fn w).0 ≡ err e
        → sees (run_in_savepoint true fn w).1 ≡ sees w
    run_in_savepoint-err h = refused_by (fn (entered w)).0 (fn (entered w)).1 refl h

    kept_by :
        (r : Result A) (w' : World d)
        → fn (entered w) ≡ (r, w')
        → {a : A} → (sees w).in_atomic_block ≡ true
        → (run_in_savepoint true fn w).0 ≡ ok a
        → (r ≡ ok a)
          × (sees (run_in_savepoint true fn w).1 ≡ record (sees w') { in_atomic_block = true })
          × ((run_in_savepoint true fn w).1
              ≡ record w' { conn = (run_in_savepoint true fn w).1.conn })
          × IsHealthy w'
    kept_by (err e) w' f i h = cc (h, run_in_savepoint-raised true fn w w' f healthy)
    kept_by (ok a) w' f i h = elim (Bool-cases (sees w').needs_rollback) [
      | inl b ↦ cc (h, run_in_savepoint-silent true fn w w' f healthy b)
      | inr b ↦
          let k = run_in_savepoint-nested true fn w w' f b i in
          (sym (ap (λ x. x.0) k.0) ∙ h, rw k.0 k.1, rw k.0, b)
    ]

    -- A block that had to commit and did: its own result and world, in the transaction around it.
    pub run_in_savepoint-ok :
        {a : A}
        → (sees w).in_atomic_block ≡ true
        → (run_in_savepoint true fn w).0 ≡ ok a
        → ((fn (entered w)).0 ≡ ok a)
          × (sees (run_in_savepoint true fn w).1
              ≡ record (sees (fn (entered w)).1) { in_atomic_block = true })
          × ((run_in_savepoint true fn w).1
              ≡ record (fn (entered w)).1 { conn = (run_in_savepoint true fn w).1.conn })
          × IsHealthy (fn (entered w)).1
    run_in_savepoint-ok i h = kept_by (fn (entered w)).0 (fn (entered w)).1 refl i h

    data_kept_by :
        (r : Result A) (w' : World d)
        → fn (entered w) ≡ (r, w')
        → {a : A} → (run_in_savepoint true fn w).0 ≡ ok a
        → ((sees (run_in_savepoint true fn w).1).columns ≡ (sees w').columns)
          × ((sees (run_in_savepoint true fn w).1).rows ≡ (sees w').rows)
          × ((run_in_savepoint true fn w).1.memory ≡ w'.memory)
          × (is_err r ≡ false)
          × IsHealthy (run_in_savepoint true fn w).1
    data_kept_by (err e) w' f h = cc (h, run_in_savepoint-raised true fn w w' f healthy)
    data_kept_by (ok a) w' f h = elim (Bool-cases (sees w').needs_rollback) [
      | inl b ↦ cc (h, run_in_savepoint-silent true fn w w' f healthy b)
      | inr b ↦
          let x = d.exit_commit w.conn w'.conn b in
          let fired = d.fired false w.conn w'.conn in
          let c = conn-run_hooks fired (record w' { conn = d.exit false w.conn w'.conn }) in
          let k = run_in_savepoint-kept true fn w w' f b in
          (
            rw k (ap (λ y. (d.view y).columns) c ∙ ap (λ v. v.columns) x.0),
            rw k (ap (λ y. (d.view y).rows) c ∙ ap (λ v. v.rows) x.0),
            rw k (memory-run_hooks fired (record w' { conn = d.exit false w.conn w'.conn })),
            refl,
            rw k (ap (λ y. (d.view y).needs_rollback) c ∙ ap (λ v. v.needs_rollback) x.0 ∙ b),
          )
    ]

    -- The same inside or outside a transaction: a block that had to commit and did leaves the rows,
    -- columns and attributes that it wrote.
    pub run_in_savepoint-data :
        {a : A}
        → (run_in_savepoint true fn w).0 ≡ ok a
        → ((sees (run_in_savepoint true fn w).1).columns ≡ (sees (fn (entered w)).1).columns)
          × ((sees (run_in_savepoint true fn w).1).rows ≡ (sees (fn (entered w)).1).rows)
          × ((run_in_savepoint true fn w).1.memory ≡ (fn (entered w)).1.memory)
          × (is_err (fn (entered w)).0 ≡ false)
          × IsHealthy (run_in_savepoint true fn w).1
    run_in_savepoint-data h = data_kept_by (fn (entered w)).0 (fn (entered w)).1 refl h
