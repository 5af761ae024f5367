-- ===== src/Background/Pull/Loop/Tests.antt =====
-- A catch-up over one row, which the child process completes.
use django_logic.Prelude.{
  ℕ, ◌≡◌, refl, ◌⊎◌, inl, inr, ◌+◌, true, false, none, List, [], ◌∷◌, arith, if◌then◌else◌,
}
use django_logic.Exec.{ok, pure, ◌>>◌}
use django_logic.Django.{Message}
use django_logic.World.{World, M, sees}
use django_logic.Message.{is_uncompleted, complete, update_rows}
use django_logic.Atomic.Laws.{IsHealthy}
use django_logic.Background.SafetyNets.{is_swept}
use django_logic.Background.Pull.{run_once, run_safety_nets, first_unlocked}
use django_logic.Background.Pull.Loop.{run_worker}
use django_logic.Background.Pull.Loop.Drained.{IsProgressing, IsDrained, run_worker-IsDrained}
use django_logic.Sample.Site.{site, draft, start, succeeds, queued, deployed}

abbrev child : ℕ → M site ℕ
child pk = update_rows (is_uncompleted pk) (complete 1000000 false none) >> pure 0

abbrev fresh : Message
fresh = record queued { started_at = none; created = 950000; modified = 950000 }

abbrev waiting : World site
waiting = start (fresh ∷ []) draft false

abbrev caught_up : World site
caught_up = start (complete 1000000 false none fresh ∷ []) draft false

abbrev Fit : World site → Type 0
Fit w = (w ≡ waiting) ⊎ (w ≡ caught_up)

abbrev uncompleted : List Message → ℕ
uncompleted [] = 0
uncompleted (m ∷ ms) = (if m.is_completed then 0 else 1) + uncompleted ms

abbrev left : World site → ℕ
left w = uncompleted (sees w).rows

takes_one : run_once (deployed succeeds) child true (1 ∷ []) waiting ≡ (ok true, caught_up)
unfolding run_once first_unlocked update_rows
takes_one = refl

finds_none : run_once (deployed succeeds) child true (1 ∷ []) caught_up ≡ (ok false, caught_up)
unfolding run_once first_unlocked
finds_none = refl

nets_waiting : (run_safety_nets (deployed succeeds) child waiting).1 ≡ waiting
unfolding run_safety_nets is_swept
nets_waiting = refl

nets_caught_up : (run_safety_nets (deployed succeeds) child caught_up).1 ≡ caught_up
unfolding run_safety_nets is_swept
nets_caught_up = refl

progressing : IsProgressing (deployed succeeds) child (1 ∷ []) Fit left
progressing = record {
  runs = λ w fit. elim fit [
    | inl e ↦ rw (e, takes_one) (inr refl, inl (refl, omega arith))
    | inr e ↦ rw (e, finds_none) (inr refl, inr (refl, omega arith))
  ];
  nets = λ w fit. elim fit [
    | inl e ↦ rw (e, nets_waiting) (inl refl, omega arith)
    | inr e ↦ rw (e, nets_caught_up) (inr refl, omega arith)
  ];
}

Fit-IsHealthy : (w : World site) → Fit w → IsHealthy w
Fit-IsHealthy w fit = elim fit [ inl e ↦ rw e refl | inr e ↦ rw e refl ]

run_worker-IsDrained_example :
    let once = run_once (deployed succeeds) child true (1 ∷ []) in
    let (r, w') =
      run_worker (λ w. 7) (deployed succeeds) child (1 ∷ []) (pure tt) 3 false 0 waiting in
    (r ≡ ok true)
    × (v : World site) × IsDrained (deployed succeeds) child (1 ∷ []) v
    × ((w' ≡ (once v).1) ⊎ (w' ≡ (run_safety_nets (deployed succeeds) child (once v).1).1))
run_worker-IsDrained_example =
    run_worker-IsDrained (deployed succeeds) child (λ w. 7) (1 ∷ []) Fit left progressing
      Fit-IsHealthy (pure tt) 3 0 waiting (inl refl) (omega arith)
