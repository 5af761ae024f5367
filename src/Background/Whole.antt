-- ===== src/Background/Whole.antt =====
-- One attempt as a whole, from the row lock to the commit.
use django_logic.Prelude.{
  if◌then◌else◌, [], ◌≡◌, sym, ap, ◌∙◌, true, false, Option, none, some, refl,
}
use django_logic.Errors.{Error}
use django_logic.Exec.{pure, handled, Result, ok, err, ◌>>=◌, continue, outcome}
use django_logic.Django.{Django, Name, Message}
use django_logic.World.{World, M, sees}
use django_logic.Atomic.{with_atomic}
use django_logic.Atomic.Laws.{
  IsHealthy, entered, sees-entered, query-healthy, with_atomic-committed, with_atomic-kept,
}
use django_logic.Message.{lock_found, lock_row, count_error, complete, measured}
use django_logic.Background.Deployment.{Work, Deployment}
use django_logic.Background.Handlers.{
  handle_restore_failure, Outcome, lock_uncompleted_row, guard_accepts, is_background_action,
  execute_attempt,
}
use django_logic.Background.Runner.{
  decode_kwargs, restore_failed, restore_for_attempt, run_guarded, run_restored, run_locked,
  run_atomic,
}
use django_logic.Background.Guard.{run_guarded-matches}
use django_logic.Message.Rows.{row_of, uncompleted-row_of, rewrite_row, row_of-rewrite_row}
use django_logic.Background.Accounting.{is_retried, failed_outcome}
use django_logic.Background.Attempts.{run_restored-retried, run_restored-completed}

module _ {d : Django} where
  -- The world after a block inside a transaction whose body changes nothing.
  abbrev pub through : World d → World d
  through w = record w { conn = d.exit false w.conn (d.enter w.conn) }

  module _ (w : World d) (h : IsHealthy w) (inside : (sees w).in_atomic_block ≡ true) where
    entered-IsHealthy : IsHealthy (entered w)
    entered-IsHealthy = rw (sees-entered w h) h

    restored_flag : record (sees w) { in_atomic_block = true } ≡ sees w
    restored_flag = sym (ap (λ b. record (sees w) { in_atomic_block = b }) inside)

    sees-through : sees (through w) ≡ sees w
    sees-through =
        (d.exit_commit w.conn (d.enter w.conn) entered-IsHealthy).0
        ∙ rw (sees-entered w h) (
            ap
              (λ b. record (sees w) {
                hooks = if b then (sees w).hooks else [];
                in_atomic_block = b;
              })
              inside
            ∙ restored_flag)

    reading :
        {A : Type 0} (m : M d A) (a : A)
        → m (entered w) ≡ (ok a, entered w)
        → with_atomic m w ≡ (ok a, through w)
    reading m a e = (with_atomic-committed m w a (entered w) e entered-IsHealthy inside).0

  module _ (deployed : Deployment d) (m : Message) (work : Work d) (w : World d) (h : IsHealthy w)
      (inside : (sees w).in_atomic_block ≡ true) where
    decode-eq :
        deployed.decode m (entered w) ≡ (ok tt, entered w)
        → decode_kwargs deployed m w ≡ (ok none, through w)
    unfolding decode_kwargs
    decode-eq e = ap (λ x. (ok (outcome x.0), x.1)) (reading w h inside (deployed.decode m) tt e)

    restore-eq :
        deployed.restore m (entered w) ≡ (ok work, entered w)
        → restore_for_attempt deployed m w ≡ (ok (ok work), through w)
    unfolding restore_for_attempt
    restore-eq e =
        ap
          (λ x.
            let y = continue x.0 (λ z. pure (ok z)) x.1 in
            handled y.0 (restore_failed deployed) y.1)
          (reading w h inside (deployed.restore m) work e)

  module _ (deployed : Deployment d) (m : Message) (work : Work d) (w : World d) (current : Name)
      (guarded : guard_accepts work.transition.in_progress_state work.transition.sources current
        ≡ true) where
    -- What `run_locked` does with what it restored.
    abbrev after : Option Error → Result (Work d) → M d (Outcome d)
    after o restored = elim restored [
      | ok z ↦ run_guarded deployed m z o
      | err e ↦ handle_restore_failure m e
    ]

    -- What a locked row comes to, once it is decoded and restored.
    run_locked-eq :
        IsHealthy w
        → (sees w).in_atomic_block ≡ true
        → deployed.decode m (entered w) ≡ (ok tt, entered w)
        → deployed.restore m (entered (through w)) ≡ (ok work, entered (through w))
        → (sees w).columns work.state.instance_key ≡ some current
        → (run_locked deployed m w ≡ run_restored deployed m work none (through (through w)))
          × (sees (through (through w)) ≡ sees w)
    unfolding run_locked
    run_locked-eq h inside a b p =
        let v = sees-through w h inside in
        let h₁ : IsHealthy (through w) = rw v h in
        let inside₁ = ap (λ x. x.in_atomic_block) v ∙ inside in
        let v₁ = sees-through (through w) h₁ inside₁ ∙ v in
        let h₂ : IsHealthy (through (through w)) = rw v₁ h in
        (
          ap (λ y. continue y.0 (λ o. restore_for_attempt deployed m >>= after o) y.1)
                (decode-eq deployed m work w h inside a)
              ∙ ap (λ y. continue y.0 (after none) y.1)
                  (restore-eq deployed m work (through w) h₁ inside₁ b)
              ∙ run_guarded-matches deployed m work (through (through w)) current h₂ (rw v₁ p)
                  guarded none,
          v₁,
        )

  module _ (deployed : Deployment d) (m : Message) (work : Work d) (w : World d) (current : Name)
      (guarded : guard_accepts work.transition.in_progress_state work.transition.sources current
        ≡ true) where
    -- The world in which the side-effects of the attempt start.
    abbrev pub attempt_world : World d
    attempt_world = through (through (entered w))

    lock-eq :
        IsHealthy w
        → row_of m.pk (sees w).rows ≡ some m
        → m.is_completed ≡ false
        → d.row_locked m.pk (entered w).conn ≡ false
        → lock_uncompleted_row m.pk (entered w) ≡ (ok m, entered w)
    unfolding lock_uncompleted_row lock_row lock_found
    lock-eq h e u f = rw (
      query-healthy (entered w) (rw (sees-entered w h) h),
      sees-entered w h,
      uncompleted-row_of m.pk (sees w).rows m e u,
      f,
    )

    -- The row is uncompleted and not locked, its keyword arguments decode, it is restored, and its
    -- instance is where enqueue left it.
    pub record IsRunnable : Type 0 where
      pub healthy : IsHealthy w
      pub found : row_of m.pk (sees w).rows ≡ some m
      pub uncompleted : m.is_completed ≡ false
      pub unlocked : d.row_locked m.pk (entered w).conn ≡ false
      pub decodes : deployed.decode m (entered (entered w)) ≡ (ok tt, entered (entered w))
      pub restores :
          deployed.restore m (entered (through (entered w)))
          ≡ (ok work, entered (through (entered w)))
      pub placed : (sees w).columns work.state.instance_key ≡ some current

    -- What a runnable row comes to inside the block of the attempt.
    runnable-eq :
        IsRunnable
        → ((lock_uncompleted_row m.pk >>= run_locked deployed) (entered w)
            ≡ run_restored deployed m work none attempt_world)
          × (sees attempt_world ≡ record (sees w) { in_atomic_block = true })
          × IsHealthy attempt_world
    runnable-eq v =
        let u = sees-entered w v.healthy in
        let h₁ : IsHealthy (entered w) = rw u v.healthy in
        let inside : (sees (entered w)).in_atomic_block ≡ true = ap (λ y. y.in_atomic_block) u in
        let placed = v.placed in
        let (k, u₂) =
          run_locked-eq deployed m work (entered w) current guarded h₁ inside v.decodes v.restores
            (rw u placed) in
        (rw (lock-eq v.healthy v.found v.uncompleted v.unlocked) k, u₂ ∙ u, rw u₂ h₁)

    -- A whole attempt that fails with retries left, from the row lock to the commit: the row is
    -- uncompleted and not locked, its keyword arguments decode, it is restored and its instance is
    -- where enqueue left it. What is committed is the error counted on its row, and nothing else.
    pub run_atomic-retried :
        (x : Error)
        → IsHealthy w
        → row_of m.pk (sees w).rows ≡ some m
        → m.is_completed ≡ false
        → d.row_locked m.pk (entered w).conn ≡ false
        → deployed.decode m (entered (entered w)) ≡ (ok tt, entered (entered w))
        → deployed.restore m (entered (through (entered w)))
          ≡ (ok work, entered (through (entered w)))
        → (sees w).columns work.state.instance_key ≡ some current
        → (execute_attempt work.transition work.state attempt_world).0 ≡ err x
        → is_retried work x m ≡ true
        → let w' = (run_atomic deployed m.pk w).1 in
          let now = (execute_attempt work.transition work.state attempt_world).1.now in
          ((run_atomic deployed m.pk w).0 ≡ ok (failed_outcome work x false))
          × ((sees w').rows ≡ rewrite_row m.pk (count_error now x) (sees w).rows)
          × ((sees w').columns ≡ (sees w).columns)
    unfolding run_atomic
    run_atomic-retried x h found u f a b p e r =
        let runnable : IsRunnable = record {
          healthy = h;
          found = found;
          uncompleted = u;
          unlocked = f;
          decodes = a;
          restores = b;
          placed = p;
        } in
        let (k, v, h₂) = runnable-eq runnable in
        let (res, rows, columns, h₃) =
          run_restored-retried deployed m work attempt_world x m h₂ e (rw v found) r in
        let w₃ = (run_restored deployed m work none attempt_world).1 in
        let body =
          with_atomic-kept (lock_uncompleted_row m.pk >>= run_locked deployed) w
            (failed_outcome work x false) w₃ (k ∙ λ j. (res j, w₃)) h₃ in
        (body.0, body.1 ∙ rows ∙ rw v refl, body.2 ∙ columns ∙ rw v refl)

    -- A whole attempt of a background transition on a runnable row whose side-effects and target
    -- write return, and leave the row there: what is committed is the target in the state column, and
    -- the rows that the attempt left with its own row completed, its errors as they were.
    pub run_atomic-finished :
        (r : Message)
        → IsRunnable
        → (execute_attempt work.transition work.state attempt_world).0 ≡ ok tt
        → is_background_action work.transition.kind ≡ false
        → row_of m.pk (sees (execute_attempt work.transition work.state attempt_world).1).rows
          ≡ some r
        → let w' = (run_atomic deployed m.pk w).1 in
          let w₁ = (execute_attempt work.transition work.state attempt_world).1 in
          let c = complete w₁.now false (measured true m.started_at w₁.now) in
          ((sees w').columns work.state.instance_key ≡ some work.transition.target)
          × ((sees w').rows ≡ rewrite_row m.pk c (sees w₁).rows)
          × (row_of m.pk (sees w').rows ≡ some (c r))
    unfolding run_atomic
    run_atomic-finished r v e b there =
        let (k, _, h₂) = runnable-eq v in
        let (res, rows, column, h₃) =
          run_restored-completed deployed m work attempt_world r h₂ e b there in
        let w₁ = (execute_attempt work.transition work.state attempt_world).1 in
        let c = complete w₁.now false (measured true m.started_at w₁.now) in
        let w₃ = (run_restored deployed m work none attempt_world).1 in
        let body =
          with_atomic-kept (lock_uncompleted_row m.pk >>= run_locked deployed) w _ w₃
            (k ∙ λ j. (res j, w₃)) h₃ in
        (
          ap (λ y. y work.state.instance_key) body.2 ∙ column,
          body.1 ∙ rows,
          rw (body.1, rows) (row_of-rewrite_row m.pk c (λ x. refl) (sees w₁).rows r there),
        )
