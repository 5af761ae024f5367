-- ===== src/Transition/Release.antt =====
-- `_release_lock`: the lock is free, or its unlock waits for the commit of the open transaction.
use mathlib.Core.List.Memᴰ.{Memᴰ, head, append_left, append_right}
use django_logic.Prelude.{
  ◌≡◌, refl, ap, ◌∙◌, Bool, true, false, ◌&&◌, ◌⊎◌, inl, inr, [], ◌∷◌, ◌++◌, any, Bool-cases, arith,
}
use django_logic.Exec.{ok, ◌>>◌}
use django_logic.Django.{Django, State, OnCommit, clear_deferred}
use django_logic.World.{World, sees}
use django_logic.State.{unlock}
use django_logic.State.Ownership.{Holds}
use django_logic.Atomic.{at_commit}
use django_logic.Atomic.Laws.{conn-unlock}
use django_logic.Commands.{is_clear, note_deferred_unlock}
use django_logic.Commands.Savepoint.{unlock-ok}
use django_logic.Commands.Deferred.{unlock-releases}
use django_logic.Transition.{release_lock}

and_second : (a b : Bool) → (a && b) ≡ true → b ≡ true
and_second true b e = e
and_second false b e = cc e

module _ {d : Django} where
  -- The State no longer holds its lock, or its unlock is registered for the commit, and noted for a
  -- rollback to a savepoint.
  abbrev pub IsReleasing : State → World d → Type 0
  IsReleasing s w =
      (¬ Holds s w)
      ⊎ (((sees w).in_atomic_block ≡ true)
          × Memᴰ (OnCommit.unlock s) (sees w).hooks
          × Memᴰ s w.registry)

  -- Two worlds with the same rows, state columns and attributes, and a connection in the same state.
  pub record SameData (w w' : World d) : Type 0 where
    pub rows : (sees w').rows ≡ (sees w).rows
    pub columns : (sees w').columns ≡ (sees w).columns
    pub memory : w'.memory ≡ w.memory
    pub needs_rollback : (sees w').needs_rollback ≡ (sees w).needs_rollback
    pub in_atomic_block : (sees w').in_atomic_block ≡ (sees w).in_atomic_block

  memory-unlock : (s : State) (w : World d) → (unlock s w).1.memory ≡ w.memory
  unfolding unlock
  memory-unlock s w = ground arith

  pub unlock-SameData : (s : State) (w : World d) → SameData w (unlock s w).1
  unlock-SameData s w =
      let c = conn-unlock s w in
      record {
        rows = ap (λ c. (d.view c).rows) c;
        columns = ap (λ c. (d.view c).columns) c;
        memory = memory-unlock s w;
        needs_rollback = ap (λ c. (d.view c).needs_rollback) c;
        in_atomic_block = ap (λ c. (d.view c).in_atomic_block) c;
      }

  module _ (s : State) (w : World d) (inside : (sees w).in_atomic_block ≡ true) where
    -- The world after the unlock is registered and noted.
    abbrev registered : World d
    registered = record w { conn = d.on_commit (OnCommit.unlock s) w.conn }

    registered-eq : at_commit (OnCommit.unlock s) w ≡ (ok tt, registered)
    unfolding at_commit
    registered-eq = rw inside

    deferred :
        (w' : World d) × ((at_commit (OnCommit.unlock s) >> note_deferred_unlock s) w ≡ (ok tt, w'))
        × SameData w w'
        × Memᴰ (OnCommit.unlock s) (sees w').hooks
        × Memᴰ s w'.registry
    unfolding note_deferred_unlock at_commit
    deferred =
        let v = d.on_commit_lem (OnCommit.unlock s) w.conn in
        let v' = d.on_commit_lem clear_deferred registered.conn in
        elim (Bool-cases (any is_clear (sees registered).hooks)) [
          | inl b ↦ (
            record registered { registry = w.registry ++ s ∷ [] },
            rw (inside, b),
            record {
              rows = rw v;
              columns = rw v;
              memory = refl;
              needs_rollback = rw v;
              in_atomic_block = rw v;
            },
            rw v (append_right (sees w).hooks (head refl)),
            append_right w.registry (head refl),
          )
          | inr b ↦ (
            record registered {
              conn = d.on_commit clear_deferred registered.conn;
              registry = w.registry ++ s ∷ [];
            },
            rw (inside, b, v, inside),
            record {
              rows = rw (v', v);
              columns = rw (v', v);
              memory = refl;
              needs_rollback = rw (v', v);
              in_atomic_block = rw (v', v);
            },
            rw (v', v)
                (append_left (clear_deferred ∷ []) (append_right (sees w).hooks (head refl))),
            append_right w.registry (head refl),
          )
        ]

  pub release_lock-IsReleasing :
      (s : State) (b : Bool) (w : World d)
      → (w' : World d) × (release_lock s b w ≡ (ok tt, w')) × IsReleasing s w' × SameData w w'
  unfolding release_lock
  release_lock-IsReleasing s b w =
      elim (Bool-cases (b && (d.settings.defer_unlock && (sees w).in_atomic_block))) [
        | inl e ↦
            let inside =
              and_second (d.settings.defer_unlock) (sees w).in_atomic_block
                (and_second b (d.settings.defer_unlock && (sees w).in_atomic_block) e) in
            let (w', k, data_, hook, note) = deferred s w inside in
            (w', rw e k, inr (data_.in_atomic_block ∙ inside, hook, note), data_)
        | inr e ↦ (
          (unlock s w).1,
          rw e (λ i. (unlock-ok s w i, (unlock s w).1)),
          inl (unlock-releases s w),
          unlock-SameData s w,
        )
      ]
