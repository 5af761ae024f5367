-- ===== src/Atomic/Laws.antt =====
-- What a block leaves behind: the connection as it was, or the writes of its body.
use django_logic.Prelude.{◌≡◌, refl, ◌∙◌, ap, true, false, ◌||◌, List, [], ◌∷◌, arith}
use django_logic.Exec.{Result, ok, is_err}
use django_logic.Django.{Django, Message, State, OnCommit, unlock, clear_deferred, notify_workers}
use django_logic.World.{World, M, sees, query, change_rows}
use django_logic.State
use django_logic.Atomic.{run_hook, run_hooks, with_atomic}

-- The connection answers queries: no error has left it waiting for a rollback.
abbrev pub IsHealthy : {d : Django} → World d → Type 0
IsHealthy w = (sees w).needs_rollback ≡ false

-- The world in which the body of a block starts.
abbrev pub entered : {d : Django} → World d → World d
entered {d} w = record w { conn = d.enter w.conn }

module _ {d : Django} where
  pub query-healthy : (w : World d) → (sees w).needs_rollback ≡ false → query w ≡ (ok (sees w), w)
  unfolding query
  query-healthy w h = rw (d.ready_lem w.conn h, query)

  pub change_rows-healthy :
      (f : List Message → List Message) (w : World d)
      → IsHealthy w
      → change_rows f w ≡ (ok tt, record w { conn = d.put_rows (f (sees w).rows) w.conn })
  unfolding change_rows
  change_rows-healthy f w h = rw (query-healthy w h)

  pub with_atomic-result :
      {A : Type 0} (m : M d A) (w w' : World d) (r : Result A)
      → m (entered w) ≡ (r, w')
      → (with_atomic m w).0 ≡ r
  unfolding with_atomic
  with_atomic-result m w w' r e = rw e

  pub conn-unlock : (s : State) (w : World d) → (State.unlock s w).1.conn ≡ w.conn
  unfolding State.unlock
  conn-unlock s w = ground arith

  conn-run_hook : (h : OnCommit) (w : World d) → (run_hook h w).conn ≡ w.conn
  unfolding run_hook
  conn-run_hook (unlock s) w = ground arith
  conn-run_hook clear_deferred w = refl
  conn-run_hook notify_workers w = refl

  pub conn-run_hooks : (hs : List OnCommit) (w : World d) → (run_hooks hs w).conn ≡ w.conn
  unfolding run_hooks
  conn-run_hooks [] w = refl
  conn-run_hooks (h ∷ hs) w = conn-run_hooks hs (run_hook h w) ∙ conn-run_hook h w

  memory-run_hook : (h : OnCommit) (w : World d) → (run_hook h w).memory ≡ w.memory
  unfolding run_hook
  memory-run_hook (unlock s) w = ground arith
  memory-run_hook clear_deferred w = refl
  memory-run_hook notify_workers w = refl

  pub memory-run_hooks : (hs : List OnCommit) (w : World d) → (run_hooks hs w).memory ≡ w.memory
  unfolding run_hooks
  memory-run_hooks [] w = refl
  memory-run_hooks (h ∷ hs) w = memory-run_hooks hs (run_hook h w) ∙ memory-run_hook h w

  pub sees-entered :
      (w : World d) → IsHealthy w → sees (entered w) ≡ record (sees w) { in_atomic_block = true }
  sees-entered w h = d.enter_lem w.conn h

  module _ {A : Type 0} (m : M d A) (w : World d) (r : Result A) (w' : World d) where
    -- The world after a block whose body went from `entered w` to `w'`.
    abbrev pub left : World d
    left = record w' { conn = d.exit (is_err r) w.conn w'.conn }

    pub with_atomic-rolled_back :
        m (entered w) ≡ (r, w')
        → IsHealthy w
        → (is_err r || (sees w').needs_rollback) ≡ true
        → (with_atomic m w ≡ (r, left)) × (sees left ≡ sees w)
    unfolding with_atomic run_hooks
    with_atomic-rolled_back e h b =
        let x = d.exit_rollback (is_err r) w.conn w'.conn h b in (rw (e, x.1), x.0)

  module _ {A : Type 0} (m : M d A) (w : World d) (a : A) (w' : World d) where
    pub with_atomic-committed :
        m (entered w) ≡ (ok a, w')
        → IsHealthy w'
        → (sees w).in_atomic_block ≡ true
        → (with_atomic m w ≡ (ok a, left m w (ok a) w'))
          × (sees (left m w (ok a) w') ≡ record (sees w') { in_atomic_block = true })
    unfolding with_atomic run_hooks
    with_atomic-committed e h b =
        let x = d.exit_commit w.conn w'.conn h in (rw (e, x.1, b), rw (x.0, b))

    pub with_atomic-outermost :
        m (entered w) ≡ (ok a, w')
        → IsHealthy w'
        → (sees w).in_atomic_block ≡ false
        → (with_atomic m w ≡ (ok a, run_hooks (sees w').hooks (left m w (ok a) w')))
          × (sees (with_atomic m w).1 ≡ record (sees w') { in_atomic_block = false; hooks = [] })
    unfolding with_atomic
    with_atomic-outermost e h b =
        let x = d.exit_commit w.conn w'.conn h in
        (
          rw (e, x.1, b),
          rw e (
              ap d.view (conn-run_hooks (d.fired false w.conn w'.conn) (left m w (ok a) w'))
              ∙ rw (x.0, b)),
        )

    -- The same inside and outside a transaction: a block that is left without an error keeps the
    -- rows, columns and attributes that its body wrote.
    pub with_atomic-kept :
        m (entered w) ≡ (ok a, w')
        → IsHealthy w'
        → ((with_atomic m w).0 ≡ ok a)
          × ((sees (with_atomic m w).1).rows ≡ (sees w').rows)
          × ((sees (with_atomic m w).1).columns ≡ (sees w').columns)
          × ((with_atomic m w).1.memory ≡ w'.memory)
          × IsHealthy (with_atomic m w).1
    unfolding with_atomic
    with_atomic-kept e h =
        let x = d.exit_commit w.conn w'.conn h in
        let fired = d.fired false w.conn w'.conn in
        let c = conn-run_hooks fired (left m w (ok a) w') in
        (
          rw e,
          rw e (ap (λ y. (d.view y).rows) c ∙ ap (λ v. v.rows) x.0),
          rw e (ap (λ y. (d.view y).columns) c ∙ ap (λ v. v.columns) x.0),
          rw e (memory-run_hooks fired (left m w (ok a) w')),
          rw e (ap (λ y. (d.view y).needs_rollback) c ∙ ap (λ v. v.needs_rollback) x.0 ∙ h),
        )
