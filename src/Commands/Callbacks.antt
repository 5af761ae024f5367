-- ===== src/Commands/Callbacks.antt =====
-- Hooks after an outcome: callbacks are best effort, and a follow-up transition runs only where it
-- is the one that its name finds.
use django_logic.Prelude.{◌≡◌, refl, true, false, Bool, List, [], ◌∷◌, truthy}
use django_logic.Errors.{Error}
use django_logic.Exec.{Result, ok, err, catch, pure}
use django_logic.Django.{Django, Name}
use django_logic.World.{World, M, sees}
use django_logic.Atomic.Laws.{IsHealthy, entered}
use django_logic.Commands.{
  in_open_transaction, run_in_savepoint, run_callback, run_callbacks, callbacks_execute, Accessor,
  Available, next_transition_execute,
}
use django_logic.Commands.Savepoint.{run_in_savepoint-raised, sees-discarded}

-- What is done with the one transition that a name finds, and nothing where it finds none or several.
abbrev pub alone : {d : Django} → List Available → (Available → M d Unit) → M d Unit
alone [] run = pure tt
alone (t ∷ []) run = run t
alone (t ∷ u ∷ rest) run = pure tt

module _ {d : Django} where
  swallowed-ok : (m : M d Unit) (w : World d) → (catch m (λ e. pure tt) w).0 ≡ ok tt
  swallowed-ok m w = go (m w)
    where
      go : (r : Result Unit × World d) → (catch (λ _. r) (λ e. pure tt) w).0 ≡ ok tt
      go (ok _, w') = refl
      go (err e, w') = refl

  run_callback-ok : (b : Bool) (c : M d Unit) (w : World d) → (run_callback b c w).0 ≡ ok tt
  unfolding run_callback
  run_callback-ok true c w = swallowed-ok (run_in_savepoint false c) w
  run_callback-ok false c w = swallowed-ok c w

  run_callbacks-ok :
      (b : Bool) (cs : List (M d Unit)) (w : World d) → (run_callbacks b cs w).0 ≡ ok tt
  unfolding run_callbacks
  run_callbacks-ok b [] w = refl
  run_callbacks-ok b (c ∷ cs) w =
      rw (run_callback-ok b c w) (run_callbacks-ok b cs (run_callback b c w).1)

  -- Whatever the callbacks raise, their execution does not raise.
  pub callbacks_execute-ok :
      (cs : List (M d Unit)) (w : World d) → (callbacks_execute cs w).0 ≡ ok tt
  unfolding callbacks_execute in_open_transaction
  callbacks_execute-ok cs w = run_callbacks-ok (sees w).in_atomic_block cs w

  module _ (c : M d Unit) (w w' : World d) (healthy : IsHealthy w) where
    -- A callback that raises inside a transaction is rolled back to its own savepoint: it leaves
    -- rows, state columns, hooks and flags of the connection as they were, and raises nothing.
    pub callbacks_execute-isolated :
        {e : Error}
        → c (entered w) ≡ (err e, w')
        → (sees w).in_atomic_block ≡ true
        → ((callbacks_execute (c ∷ []) w).0 ≡ ok tt)
          × (sees (callbacks_execute (c ∷ []) w).1 ≡ sees w)
    unfolding callbacks_execute in_open_transaction run_callbacks run_callback
    callbacks_execute-isolated f inside =
        rw (inside, run_in_savepoint-raised false c w w' f healthy)
          (refl, sees-discarded false c w w' healthy)

  -- A follow-up does not raise, whatever its own run raises: where its name finds exactly one
  -- transition that one is run, as a callback is, without `request` where it is a background one, and a name that finds none or several runs nothing.
  pub next_transition_execute-ok :
      (process : Accessor d) (name : Name) (w w' : World d) (found : List Available)
      → process.available name w ≡ (ok found, w')
      → truthy name ≡ true
      → ((next_transition_execute process name w).0 ≡ ok tt)
        × (next_transition_execute process name w
            ≡ alone found
                (λ t. run_callback (sees w').in_atomic_block (process.call t.is_background name))
                w')
  unfolding next_transition_execute in_open_transaction
  next_transition_execute-ok process name w w' [] e b = rw (b, e) (refl, refl)
  next_transition_execute-ok process name w w' (t ∷ []) e b =
      rw (b, e)
        (run_callback-ok (sees w').in_atomic_block (process.call t.is_background name) w', refl)
  next_transition_execute-ok process name w w' (t ∷ u ∷ rest) e b = rw (b, e) (refl, refl)
