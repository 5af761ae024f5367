-- ===== src/Background/Finalize/Abandoned.antt =====
-- The safety nets on a row that no worker holds: an attempt is charged once, and a row that cannot
-- be restored still comes to its end.
use django_logic.Prelude.{
  ℕ, ◌+◌, ◌≡◌, refl, sym, ap, ◌∙◌, Bool, true, false, Option, none, some, List, [], ◌∷◌, ◌==◌,
  ==_iff, ◌&&◌, not, some_injective, subst⁻¹, leb, find, arith, Bool-cases, inl, inr,
}
use django_logic.Errors.{Error, timeout_error}
use django_logic.Exec.{continue, ok, err, pure, ◌>>=◌, ◌>>◌}
use django_logic.Django.{Django, Message}
use django_logic.World.{World, sees}
use django_logic.Atomic.{with_atomic}
use django_logic.Atomic.Laws.{
  IsHealthy, entered, sees-entered, query-healthy, with_atomic-kept, with_atomic-rolled_back,
}
use django_logic.Message.{
  is_uncompleted, count_error, complete, mark_as_completed, lock_row, lock_found,
}
use django_logic.Message.Rows.{
  uncompleted-row_of, row_of, rewrite_row, rewritten, sees-rewritten, row_of-rewrite_row,
  mark_as_completed-eq, record_error-eq,
}
use django_logic.Background.Deployment.{Deployment}
use django_logic.Background.Finalize.{
  is_overdue, is_charged, lock_for_net, finalize_outcome, finalize_terminal_from_watchdog, charge,
  charge_if_abandoned, abandon_block, run_hooks_after, abandon_timed_out_attempt,
}

pk-row_of : (pk : ℕ) (ms : List Message) (m : Message) → row_of pk ms ≡ some m → m.pk ≡ pk
pk-row_of pk [] m e = cc e
pk-row_of pk (r ∷ ms) m e = elim (Bool-cases (r.pk == pk)) [
  | inl b ↦ sym (ap (λ x. x.pk) (some_injective (rw b at e))) ∙ (==_iff r.pk pk).0 b
  | inr b ↦ pk-row_of pk ms m (rw b at e)
]

and_split : (a b : Bool) → (a && b) ≡ true → (a ≡ true) × (b ≡ true)
and_split true b e = (refl, e)
and_split false b e = cc e

-- An attempt that is overdue is charged once its error is recorded.
is_charged-now :
    (now : ℕ) (started timeout : Option ℕ)
    → is_overdue now started timeout ≡ true
    → is_charged (some now) started ≡ true
is_charged-now now none timeout e = cc e
is_charged-now now (some started) none e = cc e
is_charged-now now (some started) (some timeout) e = ground arith

module _ {d : Django} (deployed : Deployment d) where
  lock_for_net-eq :
      (pk : ℕ) (m : Message) (w : World d)
      → IsHealthy w
      → find (is_uncompleted pk) (sees w).rows ≡ some m
      → d.row_locked m.pk w.conn ≡ false
      → lock_for_net pk w ≡ (ok (some m), w)
  unfolding lock_for_net lock_row lock_found
  lock_for_net-eq pk m w h e f = rw (query-healthy w h, e, f)

  finalize-unrestorable :
      (message : Message) (error e : Error) (w w₁ : World d)
      → with_atomic (deployed.restore message) w ≡ (err e, w₁)
      → finalize_terminal_from_watchdog deployed message error w
        ≡ (mark_as_completed false true message >> pure none) w₁
  unfolding finalize_terminal_from_watchdog finalize_outcome
  finalize-unrestorable message error e w w₁ k =
      ap (λ x. finalize_outcome deployed message error x.0 x.1) k

  -- A row that cannot be restored, whatever the reason and whatever the attempt wrote, is completed
  -- as a failure: its errors, every other row's and all state columns stay as they were.
  pub finalize_terminal-unrestorable :
      (message r : Message) (error e : Error) (w w' : World d)
      → IsHealthy w
      → row_of message.pk (sees w).rows ≡ some r
      → deployed.restore message (entered w) ≡ (err e, w')
      → let (res, w'') = finalize_terminal_from_watchdog deployed message error w in
        (res ≡ ok none)
        × ((sees w'').rows ≡ rewrite_row message.pk (complete w'.now true none) (sees w).rows)
        × ((sees w'').columns ≡ (sees w).columns)
  finalize_terminal-unrestorable message r error e w w' h found f =
      let x = with_atomic-rolled_back (deployed.restore message) w (err e) w' f h refl in
      let w₁ : World d = record w' { conn = d.exit true w.conn w'.conn } in
      let h₁ : IsHealthy w₁ = rw x.1 h in
      let found₁ : row_of message.pk (sees w₁).rows ≡ some r = rw x.1 found in
      let v = sees-rewritten w₁ h₁ message.pk (complete w'.now true none) in
      rw
        (
          finalize-unrestorable message error e w w₁ x.0,
          mark_as_completed-eq w₁ h₁ message r found₁ false true,
        )
        (refl, rw (v, x.1), rw (v, x.1))

  module _ (pk : ℕ) (m : Message) where
    -- The row `m` of primary key `pk` is there, uncompleted and held by no worker.
    pub record IsIdle (w : World d) : Type 0 where
      pub healthy : IsHealthy w
      pub found : row_of pk (sees w).rows ≡ some m
      pub uncompleted : m.is_completed ≡ false
      pub unlocked : d.row_locked m.pk (entered w).conn ≡ false

    spared :
        (w : World d)
        → (is_overdue w.now m.started_at m.timeout_seconds
            && not (is_charged m.last_error_dt m.started_at))
          ≡ false
        → charge_if_abandoned deployed (some m) w ≡ (ok (false, none), w)
    unfolding charge_if_abandoned
    spared w b = elim (Bool-cases (is_overdue w.now m.started_at m.timeout_seconds)) [
      | inr o ↦ rw o
      | inl o ↦ elim (Bool-cases (is_charged m.last_error_dt m.started_at)) [
        | inl c ↦ rw (o, c)
        | inr c ↦ cc (rw (o, c) at b)
      ]
    ]

    charged :
        (w : World d) (h : IsHealthy w)
        → row_of m.pk (sees w).rows ≡ some m
        → (is_overdue w.now m.started_at m.timeout_seconds
            && not (is_charged m.last_error_dt m.started_at))
          ≡ true
        → leb d.settings.max_errors (m.errors_count + 1) ≡ false
        → charge_if_abandoned deployed (some m) w
          ≡ (ok (true, none), rewritten w h m.pk (count_error w.now timeout_error))
    unfolding charge_if_abandoned charge
    charged w h found b c =
        let (o, n) =
          and_split (is_overdue w.now m.started_at m.timeout_seconds)
            (not (is_charged m.last_error_dt m.started_at)) b in
        elim (Bool-cases (is_charged m.last_error_dt m.started_at)) [
          | inl x ↦ cc (rw x at n)
          | inr x ↦ rw (o, x, record_error-eq w h m m found timeout_error, c)
        ]

    locked-eq : (w : World d) → IsIdle w → lock_for_net pk (entered w) ≡ (ok (some m), entered w)
    locked-eq w i =
        let v = sees-entered w i.healthy in
        lock_for_net-eq pk m (entered w) (rw v i.healthy)
          (rw v (uncompleted-row_of pk (sees w).rows m i.found i.uncompleted)) i.unlocked

    module _ (w : World d) (i : IsIdle w) where
      entered-IsHealthy : IsHealthy (entered w)
      entered-IsHealthy = rw (sees-entered w i.healthy) i.healthy

      abandoned-eq :
          (b : Bool) (w₁ : World d)
          → abandon_block deployed pk w ≡ (ok (b, none), w₁)
          → abandon_timed_out_attempt deployed pk w ≡ (ok b, w₁)
      unfolding abandon_timed_out_attempt run_hooks_after
      abandoned-eq b w₁ e = ap (λ x. continue x.0 (λ o. run_hooks_after o.1 >> pure o.0) x.1) e

      block-kept :
          (b : Bool) (w' : World d)
          → charge_if_abandoned deployed (some m) (entered w) ≡ (ok (b, none), w')
          → IsHealthy w'
          → ((abandon_block deployed pk w).0 ≡ ok (b, none))
            × ((sees (abandon_block deployed pk w).1).rows ≡ (sees w').rows)
            × ((sees (abandon_block deployed pk w).1).columns ≡ (sees w').columns)
      unfolding abandon_block
      block-kept b w' e h =
          let k =
            with_atomic-kept (lock_for_net pk >>= charge_if_abandoned deployed) w (b, none) w'
              (rw (locked-eq w i) e) h in
          (k.0, k.1, k.2)

      -- A block that ends without hooks, and the call around it.
      abandoned :
          (b : Bool) (w' : World d)
          → charge_if_abandoned deployed (some m) (entered w) ≡ (ok (b, none), w')
          → IsHealthy w'
          → ((abandon_timed_out_attempt deployed pk w).0 ≡ ok b)
            × ((sees (abandon_timed_out_attempt deployed pk w).1).rows ≡ (sees w').rows)
            × ((sees (abandon_timed_out_attempt deployed pk w).1).columns ≡ (sees w').columns)
      abandoned b w' e h =
          let (k, rows, columns) = block-kept b w' e h in
          let w₁ = (abandon_block deployed pk w).1 in
          rw (abandoned-eq b w₁ (λ j. (k j, w₁))) (refl, rows, columns)

      -- A row whose current attempt is inside its timeout, or is charged already, is left alone.
      pub abandon_timed_out_attempt-spares :
          (is_overdue w.now m.started_at m.timeout_seconds
              && not (is_charged m.last_error_dt m.started_at))
            ≡ false
          → ((abandon_timed_out_attempt deployed pk w).0 ≡ ok false)
            × ((sees (abandon_timed_out_attempt deployed pk w).1).rows ≡ (sees w).rows)
            × ((sees (abandon_timed_out_attempt deployed pk w).1).columns ≡ (sees w).columns)
      abandon_timed_out_attempt-spares b =
          let k = abandoned false (entered w) (spared (entered w) b) entered-IsHealthy in
          let v = sees-entered w i.healthy in
          (k.0, k.1 ∙ ap (λ x. x.rows) v, k.2 ∙ ap (λ x. x.columns) v)

      -- An overdue attempt with retries left is charged one timeout error on its row and nothing
      -- else, and the row is then charged: the next round of the watchdog leaves it alone.
      pub abandon_timed_out_attempt-charges :
          (is_overdue w.now m.started_at m.timeout_seconds
              && not (is_charged m.last_error_dt m.started_at))
            ≡ true
          → leb d.settings.max_errors (m.errors_count + 1) ≡ false
          → let w' = (abandon_timed_out_attempt deployed pk w).1 in
            let r = count_error w.now timeout_error m in
            ((abandon_timed_out_attempt deployed pk w).0 ≡ ok true)
            × ((sees w').rows ≡ rewrite_row pk (count_error w.now timeout_error) (sees w).rows)
            × ((sees w').columns ≡ (sees w).columns)
            × (row_of pk (sees w').rows ≡ some r)
            × (is_charged r.last_error_dt r.started_at ≡ true)
      abandon_timed_out_attempt-charges b c =
          let f = count_error w.now timeout_error in
          let v = sees-entered w i.healthy in
          let h = entered-IsHealthy in
          let pk_eq = pk-row_of pk (sees w).rows m i.found in
          let found : row_of m.pk (sees (entered w)).rows ≡ some m =
            subst⁻¹ (λ k. row_of k (sees (entered w)).rows ≡ some m) pk_eq (rw v i.found) in
          let u = sees-rewritten (entered w) h m.pk f in
          let o =
            and_split (is_overdue w.now m.started_at m.timeout_seconds)
              (not (is_charged m.last_error_dt m.started_at)) b in
          let k =
            abandoned true (rewritten (entered w) h m.pk f) (charged (entered w) h found b c)
              (rw u h) in
          let rows : (sees (abandon_timed_out_attempt deployed pk w).1).rows
              ≡ rewrite_row pk f (sees w).rows =
            k.1 ∙ rw (u, v, pk_eq) in
          (
            k.0,
            rows,
            k.2 ∙ rw (u, v),
            rw rows (row_of-rewrite_row pk f (λ x. refl) (sees w).rows m i.found),
            is_charged-now w.now m.started_at m.timeout_seconds o.0,
          )
