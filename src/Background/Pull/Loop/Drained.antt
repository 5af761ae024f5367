-- ===== src/Background/Pull/Loop/Drained.antt =====
-- One catch-up of a worker ends, and leaves no row behind that it may take.
use django_logic.Prelude.{
  subst, subst⁻¹, ◌≢◌, ℕ, zero, suc, ◌≡◌, refl, ◌⊎◌, inl, inr, ◌≤◌, ◌<◌, Bool, true, false, some,
  List, Among, Bool-cases, arith,
}
use django_logic.Background.SafetyNets.{is_claimable}
use django_logic.Background.Pull.{claim_next, run_attempt_in_child, run_once, run_safety_nets}
use django_logic.Background.Pull.Claim.{is_free, claim_next-oldest}
use django_logic.Exec.{Result, ok, Result-cases}
use django_logic.Django.{Django, Name, Message}
use django_logic.World.{World, M, sees}
use django_logic.Atomic.Laws.{IsHealthy}
use django_logic.Background.Deployment.{Deployment}
use django_logic.Background.Pull.Loop.{is_due, drain, run_due_nets, run_worker}

module _ {d : Django} (deployed : Deployment d) (child : ℕ → M d ℕ) (queues : List Name) where
  -- A run that finds no row.
  abbrev pub IsIdle : World d → Type 0
  IsIdle w = (run_once deployed child true queues w).0 ≡ ok false

  module _ (Fit : World d → Type 0) (left : World d → ℕ) where
    -- In the worlds that are fit no run raises, each run that finds a row leaves less to do, and
    -- neither a run that finds none nor the safety nets leave more.
    pub record IsProgressing : Type 0 where
      pub runs :
          (w : World d)
          → Fit w
          → let (r, w') = run_once deployed child true queues w in
            Fit w' × (((r ≡ ok true) × (left w' < left w)) ⊎ ((r ≡ ok false) × (left w' ≤ left w)))
      pub nets :
          (w : World d)
          → Fit w
          → let w' = (run_safety_nets deployed child w).1 in Fit w' × (left w' ≤ left w)

module _ {d : Django} (deployed : Deployment d) (child : ℕ → M d ℕ) (monotonic : World d → ℕ)
    (queues : List Name) (Fit : World d → Type 0) (left : World d → ℕ) where
  module _ (progressing : IsProgressing deployed child queues Fit left) where
    run_once-left : (w : World d) → Fit w → left (run_once deployed child true queues w).1 ≤ left w
    run_once-left w fit = elim (progressing.runs w fit).1 [
      | inl (_, less) ↦ omega arith
      | inr (_, less) ↦ less
    ]

    run_safety_nets-ok : (w : World d) → (run_safety_nets deployed child w).0 ≡ ok tt
    unfolding run_safety_nets
    run_safety_nets-ok w = refl

    drain-ends :
        (fuel last : ℕ) (ran_any : Bool) (w : World d)
        → Fit w
        → left w < fuel
        → let (r, w') = drain monotonic deployed child queues fuel last ran_any w in
          Fit w'
          × (((r ≡ ok (some true)) × (left w' < left w))
              ⊎ ((r ≡ ok (some ran_any))
                  × IsIdle deployed child queues w
                  × (w' ≡ (run_once deployed child true queues w).1)))
    unfolding drain
    drain-ends zero last ran_any w fit enough = absurd (omega arith)
    drain-ends (suc fuel) last ran_any w fit enough =
        let (fit', ends) = progressing.runs w fit in
        let w' = (run_once deployed child true queues w).1 in
        elim ends [
          | inr (e, less) ↦ rw e (fit', inr (refl, refl, refl))
          | inl (e, less) ↦ elim (Bool-cases (is_due monotonic last w')) [
            | inl due ↦ rw (e, due) (fit', inl (refl, less))
            | inr early ↦
                let (fit₂, rest) = drain-ends fuel last true w' fit' (omega arith) in
                rw (e, early)
                  (
                    fit₂,
                    elim rest [
                      | inl (r, fewer) ↦ inl (r, omega arith)
                      | inr (r, idle, same) ↦ inl (
                        r,
                        subst⁻¹ (λ z. left z < left w) same
                            (let again = run_once-left w' fit' in omega arith),
                      )
                    ],
                  )
          ]
        ]

    run_due_nets-ends :
        (last : ℕ) (w : World d)
        → Fit w
        → let (r, w') = run_due_nets monotonic deployed child last w in
          (since : ℕ) × (r ≡ ok since)
          × Fit w'
          × (left w' ≤ left w)
          × ((w' ≡ w) ⊎ (w' ≡ (run_safety_nets deployed child w).1))
    unfolding run_due_nets
    run_due_nets-ends last w fit = elim (Bool-cases (is_due monotonic last w)) [
      | inl due ↦
          let (fit', less) = progressing.nets w fit in
          rw (due, run_safety_nets-ok w)
            (monotonic (run_safety_nets deployed child w).1, refl, fit', less, inr refl)
      | inr early ↦ rw early (last, refl, fit, omega arith, inl refl)
    ]

    module _ (wait : M d Unit) where
      -- What one catch-up comes to.
      abbrev pub caught_up : ℕ → ℕ → World d → Result Bool × World d
      caught_up fuel last = run_worker monotonic deployed child queues wait fuel false last

      run_worker-ends :
          (fuel last : ℕ) (w : World d)
          → Fit w
          → suc (left w) < fuel
          → let (r, w') = caught_up fuel last w in
            (r ≡ ok true)
            × (v : World d) × Fit v
            × IsIdle deployed child queues v
            × (let v' = (run_once deployed child true queues v).1 in
                (w' ≡ v') ⊎ (w' ≡ (run_safety_nets deployed child v').1))
      unfolding run_worker
      run_worker-ends zero last w fit enough = absurd (omega arith)
      run_worker-ends (suc fuel) last w fit enough =
          let (fit', ends) = drain-ends fuel last false w fit (omega arith) in
          let w' = (drain monotonic deployed child queues fuel last false w).1 in
          let (since, returned, fit₂, less, settled) = run_due_nets-ends last w' fit' in
          elim ends [
            | inl (e, fewer) ↦
                rw (e, returned)
                  (run_worker-ends fuel since (run_due_nets monotonic deployed child last w').1 fit₂
                    (omega arith))
            | inr (e, idle, same) ↦
                rw (e, returned)
                  (
                    refl,
                    w,
                    fit,
                    idle,
                    subst
                        (λ z.
                          ((run_due_nets monotonic deployed child last w').1 ≡ z)
                          ⊎ ((run_due_nets monotonic deployed child last w').1
                              ≡ (run_safety_nets deployed child z).1))
                        same settled,
                  )
          ]

module _ {d : Django} (deployed : Deployment d) (child : ℕ → M d ℕ) (queues : List Name) where
  claimed-run :
      (w : World d) (pk : ℕ)
      → (claim_next queues w).0 ≡ ok (some pk)
      → (run_once deployed child true queues w).0 ≢ ok false
  unfolding run_once
  claimed-run w pk e = λ idle.
      elim (Result-cases (run_attempt_in_child deployed child pk (claim_next queues w).1).0) [
        | inl (_, returned) ↦ cc (rw (e, returned) at idle)
        | inr (_, raised) ↦ cc (rw (e, raised) at idle)
      ]

  -- No row that may be taken is left unlocked.
  abbrev pub IsDrained : World d → Type 0
  IsDrained w =
      (m : Message)
      → Among m (sees w).rows
      → is_claimable d.settings w.now (some queues) m ≡ true
      → is_free w m ≡ false

  idle-IsDrained : (w : World d) → IsHealthy w → IsIdle deployed child queues w → IsDrained w
  idle-IsDrained w healthy idle m stored may = elim (Bool-cases (is_free w m)) [
    | inl free ↦
        let (found, claimed, _, _, _, _) = claim_next-oldest w queues healthy m stored may free in
        absurd (claimed-run w found.pk claimed idle)
    | inr taken ↦ taken
  ]

module _ {d : Django} (deployed : Deployment d) (child : ℕ → M d ℕ) (monotonic : World d → ℕ)
    (queues : List Name) (Fit : World d → Type 0) (left : World d → ℕ)
    (progressing : IsProgressing deployed child queues Fit left)
    (healthy : (w : World d) → Fit w → IsHealthy w) (wait : M d Unit) where
  -- From a world that is fit, where each run of a row leaves less to do and nothing else leaves
  -- more, and where a fit world has a healthy connection, one catch-up returns, with as many rounds
  -- as there is to do and two. It ends in a world in which each row that may be taken is
  -- locked, then at most runs the claim that finds none and the safety nets.
  pub run_worker-IsDrained :
      (fuel last : ℕ) (w : World d)
      → Fit w
      → suc (left w) < fuel
      → let (r, w') = run_worker monotonic deployed child queues wait fuel false last w in
        (r ≡ ok true)
        × (v : World d) × IsDrained deployed child queues v
        × (let v' = (run_once deployed child true queues v).1 in
            (w' ≡ v') ⊎ (w' ≡ (run_safety_nets deployed child v').1))
  run_worker-IsDrained fuel last w fit enough =
      let (returned, v, fit', idle, ended) =
        run_worker-ends deployed child monotonic queues Fit left progressing wait fuel last w fit
          enough in
      (returned, v, idle-IsDrained deployed child queues v (healthy v fit') idle, ended)
