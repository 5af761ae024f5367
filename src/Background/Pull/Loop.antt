-- ===== src/Background/Pull/Loop.antt =====
-- background/pull.py: `run_worker`, the loop of a worker. `child` is the fork and the wait for it,
-- `monotonic` is `time.monotonic()` in whole seconds, and `wait` the wait for a notification, in
-- which other connections may change the tables.
pub mod Drained
mod Tests
use django_logic.Prelude.{
  ℕ, zero, suc, ◌+◌, Bool, true, false, not, Option, none, some, List, leb, if◌then◌else◌,
}
use django_logic.Exec.{pure, gets, ◌>>=◌, ◌>>◌}
use django_logic.Django.{Django, Name}
use django_logic.World.{World, M}
use django_logic.Background.Deployment.{Deployment}
use django_logic.Background.Pull.{run_once, run_safety_nets}

abbrev pub safety_net_seconds : ℕ
safety_net_seconds = 60

module _ {d : Django} (monotonic : World d → ℕ) where
  -- `time.monotonic() - last_safety_net >= SAFETY_NET_SECONDS`
  abbrev pub is_due : ℕ → World d → Bool
  is_due last w = leb (last + safety_net_seconds) (monotonic w)

  module _ (deployed : Deployment d) (child : ℕ → M d ℕ) where
    -- The safety nets when they are due, and `last_safety_net` after them.
    unfoldable pub run_due_nets : ℕ → M d ℕ
    run_due_nets last = do
      due ← gets (is_due last)
      if due then (run_safety_nets deployed child >> gets monotonic) else pure last

    module _ (queues : List Name) where
      -- The inner loop, with `ran_any` after it; `none` without fuel.
      unfoldable pub drain : ℕ → ℕ → Bool → M d (Option Bool)
      drain zero last ran_any = pure none
      drain (suc fuel) last ran_any =
          let further = drain fuel last true in
          do
            ran ← run_once deployed child true queues
            due ← gets (is_due last)
            if not ran then pure (some ran_any) else (if due then pure (some true) else further)

      module _ (wait : M d Unit) where
        -- The outer loop: true when it returns, false without fuel.
        unfoldable pub run_worker : ℕ → Bool → ℕ → M d Bool
        unfolding drain run_due_nets
        run_worker zero forever last = pure false
        run_worker (suc fuel) forever last =
            let further = λ (since : ℕ). run_worker fuel forever since in
            drain fuel last false >>= λ drained. elim drained [
              | none ↦ pure false
              | some ran_any ↦ run_due_nets last >>= λ since.
                  if ran_any
                  then further since
                  else (if forever then wait >> further since else pure true)
            ]
