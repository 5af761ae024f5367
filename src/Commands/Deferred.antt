-- ===== src/Commands/Deferred.antt =====
-- Deferred unlocks: a rollback to a savepoint drops the on-commit unlocks registered inside it, so
-- `_run_in_savepoint` releases those locks itself, and keeps the others for the commit.
use mathlib.Core.List.Memᴰ.{Memᴰ, head, tail}
use django_logic.Prelude.{
  ◌≡◌, refl, ◌∙◌, ap, Bool, true, false, ◌||◌, List, [], ◌∷◌, ◌++◌, length, take, drop, ◌==◌,
  ==_refl, arith, Bool-cases, inl, inr,
}
use django_logic.Exec.{Result, ok, err, is_err}
use django_logic.Django.{Django, State}
use django_logic.World.{World, M, sees}
use django_logic.State.{unlock}
use django_logic.State.Ownership.{Holds, unlock-held, unlock-shape}
use django_logic.Atomic.Laws.{IsHealthy, entered}
use django_logic.Commands.{unlock_each, release_dropped, run_in_savepoint}
use django_logic.Commands.Savepoint.{
  unlock-ok, run_in_savepoint-raised, run_in_savepoint-silent, run_in_savepoint-nested,
}

take-append : {A : Type 0} (xs ys : List A) → take (length xs) (xs ++ ys) ≡ xs
take-append [] ys = refl
take-append (x ∷ xs) ys = ap (λ zs. x ∷ zs) (take-append xs ys)

drop-append : {A : Type 0} (xs ys : List A) → drop (length xs) (xs ++ ys) ≡ ys
drop-append [] ys = refl
drop-append (x ∷ xs) ys = drop-append xs ys

module _ {d : Django} where
  no_token :
      (s : State) (w : World d) → ¬ Holds s (record w { cache = d.delete s.instance_key w.cache })
  no_token s w h =
      cc (h.stored, d.get-delete s.instance_key s.instance_key w.cache, ==_refl s.instance_key)

  pub unlock-releases : (s : State) (w : World d) → ¬ Holds s (unlock s w).1
  unlock-releases s w h = elim (unlock-shape s w) [
    | inl e ↦
        let held = rw e at h in
        no_token s w (rw (unlock-held s w held.token held.kept held.stored) at h)
    | inr e ↦ no_token s w (rw e at h)
  ]

  unlock-keeps_released : (s o : State) (w : World d) → ¬ Holds s w → ¬ Holds s (unlock o w).1
  unlock-keeps_released s o w n h = elim (unlock-shape o w) [
    | inl e ↦ n (rw e at h)
    | inr e ↦
        let h' = rw e at h in
        let g = d.get-delete o.instance_key s.instance_key w.cache in
        elim (Bool-cases (s.instance_key == o.instance_key)) [
          | inl b ↦ cc (rw (g, b) at h'.stored)
          | inr b ↦ n (record { token = h'.token; kept = h'.kept; stored = rw (g, b) at h'.stored })
        ]
  ]

  registry-unlock : (s : State) (w : World d) → (unlock s w).1.registry ≡ w.registry
  unfolding unlock
  registry-unlock s w = ground arith

  registry-unlock_each :
      (ss : List State) (w : World d) → (unlock_each ss w).1.registry ≡ w.registry
  unfolding unlock_each
  registry-unlock_each [] w = refl
  registry-unlock_each (s ∷ ss) w =
      rw (unlock-ok s w) (registry-unlock_each ss (unlock s w).1 ∙ registry-unlock s w)

  unlock_each-keeps_released :
      (s : State) (ss : List State) (w : World d) → ¬ Holds s w → ¬ Holds s (unlock_each ss w).1
  unfolding unlock_each
  unlock_each-keeps_released s [] w n = n
  unlock_each-keeps_released s (o ∷ ss) w n =
      rw (unlock-ok o w)
        (unlock_each-keeps_released s ss (unlock o w).1 (unlock-keeps_released s o w n))

  unlock_each-releases :
      (s : State) (ss : List State) (w : World d) → Memᴰ s ss → ¬ Holds s (unlock_each ss w).1
  unfolding unlock_each
  unlock_each-releases s [] w m = elim m [ ]
  unlock_each-releases s (o ∷ ss) w (head e) =
      rw (unlock-ok o w)
        (unlock_each-keeps_released s ss (unlock o w).1 (rw e (unlock-releases o w)))
  unlock_each-releases s (o ∷ ss) w (tail m) =
      rw (unlock-ok o w) (unlock_each-releases s ss (unlock o w).1 m)

  module _ {A : Type 0} (require_commit : Bool) (fn : M d A) (w : World d) (w' : World d) where
    -- A rollback forgets the deferred unlocks of the block, and the State `s` holds no lock.
    abbrev pub Released : State → World d → Type 0
    Released s after = (after.registry ≡ w.registry) × (¬ Holds s after)

    module _ (new : List State) (noted : w'.registry ≡ w.registry ++ new) (healthy : IsHealthy w)
        (s : State) (member : Memᴰ s new) where
      dropped-Released :
          (c : d.Conn) → Released s (release_dropped (length w.registry) (record w' { conn = c })).1
      unfolding release_dropped
      dropped-Released c =
          rw (noted, take-append w.registry new, drop-append w.registry new)
            (registry-unlock_each new _, unlock_each-releases s new _ member)

      -- A savepoint block that is rolled back, by an exception or silently, releases the lock of
      -- every State whose unlock was deferred inside it, and forgets those unlocks.
      pub run_in_savepoint-Released :
          (r : Result A)
          → fn (entered w) ≡ (r, w')
          → (is_err r || (sees w').needs_rollback) ≡ true
          → Released s (run_in_savepoint require_commit fn w).1
      run_in_savepoint-Released (err e) f b =
          rw (run_in_savepoint-raised require_commit fn w w' f healthy) (dropped-Released _)
      run_in_savepoint-Released (ok a) f b =
          rw (run_in_savepoint-silent require_commit fn w w' f healthy b) (dropped-Released _)

    -- A block that is kept, inside a transaction, leaves the deferred unlocks to the commit: the
    -- cache and the registry are as the block left them.
    pub run_in_savepoint-deferred :
        (a : A)
        → fn (entered w) ≡ (ok a, w')
        → (sees w').needs_rollback ≡ false
        → (sees w).in_atomic_block ≡ true
        → ((run_in_savepoint require_commit fn w).1.registry ≡ w'.registry)
          × ((run_in_savepoint require_commit fn w).1.cache ≡ w'.cache)
          × ((sees (run_in_savepoint require_commit fn w).1).hooks ≡ (sees w').hooks)
    run_in_savepoint-deferred a f h i =
        let k = run_in_savepoint-nested require_commit fn w w' f h i in rw k.0 (refl, refl, rw k.1)
