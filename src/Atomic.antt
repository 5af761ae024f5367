-- ===== src/Atomic.antt =====
-- `with transaction.atomic():` and `transaction.on_commit`, over the connection's entry and exit.
pub mod Laws
use django_logic.Prelude.{List, [], ◌∷◌, if◌then◌else◌}
use django_logic.Exec.{ok, is_err}
use django_logic.Django.{Django, OnCommit, unlock, clear_deferred, notify_workers}
use django_logic.World.{World, M, sees}
use django_logic.State

module _ {d : Django} where
  -- The callables that the engine registers: `state.unlock`, `registry.clear`, `notify_workers`.
  unfoldable pub run_hook : OnCommit → World d → World d
  unfolding State.unlock
  run_hook (unlock s) w = (State.unlock s w).1
  run_hook clear_deferred w = record w { registry = [] }
  run_hook notify_workers w = w

  unfoldable pub run_hooks : List OnCommit → World d → World d
  unfolding run_hook
  run_hooks [] w = w
  run_hooks (h ∷ hs) w = run_hooks hs (run_hook h w)

  -- Outside a block the callable runs at once.
  unfoldable pub at_commit : OnCommit → M d Unit
  unfolding run_hook
  at_commit h w =
      if (sees w).in_atomic_block
      then (ok tt, record w { conn = d.on_commit h w.conn })
      else (ok tt, run_hook h w)

  unfoldable pub with_atomic : {A : Type 0} → M d A → M d A
  unfolding run_hooks
  with_atomic m w =
      let (r, w') = m (record w { conn = d.enter w.conn }) in
      (
        r,
        run_hooks (d.fired (is_err r) w.conn w'.conn)
            (record w' { conn = d.exit (is_err r) w.conn w'.conn }),
      )
