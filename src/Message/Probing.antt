-- ===== src/Message/Probing.antt =====
-- `retry_status` and its probe of the row's lock leave the world as it was.
use django_logic.Prelude.{
  ℕ, ◌≡◌, refl, ap, ap₂, sym, ◌∙◌, Bool, true, false, some, [], filter, find, Bool-cases, inl, inr,
}
use django_logic.Errors.{Error, operational_error}
use django_logic.Exec.{Result, ok, err, handled, continue, pure}
use django_logic.Django.{Django, Name, Message, View}
use django_logic.World.{World, M, sees}
use django_logic.Atomic.{with_atomic, run_hooks}
use django_logic.Atomic.Laws.{
  IsHealthy, entered, sees-entered, with_atomic-rolled_back, with_atomic-committed,
  with_atomic-outermost, left,
}
use django_logic.Message.{
  is_uncompleted, occupies, newest, within_budget, except_operational, worker_holds_row, classify,
  classify_newest, retry_status,
}
use django_logic.Message.Classification.{
  in_flight_for-eq, is_stale, asks, asked, worker_holds_row-held,
}

continue-pure :
    {A B S : Type 0} (r : Result A) (f : A → B) (s : S) → (continue r (λ a. pure (f a)) s).1 ≡ s
continue-pure (ok a) f s = refl
continue-pure (err e) f s = refl

module _ {d : Django} where
  -- The same world but for the connection, on which everything is as before.
  abbrev pub Probed : World d → World d → Type 0
  Probed w w' = (c : d.Conn) × (w' ≡ record w { conn = c }) × (d.view c ≡ sees w)

  -- Outside a transaction no callable waits for a commit.
  abbrev pub IsQuiet : World d → Type 0
  IsQuiet w = (sees w).in_atomic_block ≡ false → (sees w).hooks ≡ []

  module _ (row : Message) (w : World d) (h : IsHealthy w) (quiet : IsQuiet w)
      (there : find (is_uncompleted row.pk) (sees w).rows ≡ some row) where
    abbrev probe : M d Bool
    probe = asks row w h there

    unheld :
        d.row_locked row.pk (entered w).conn ≡ false
        → (b : Bool) → (sees w).in_atomic_block ≡ b
        → (c : d.Conn) × (with_atomic probe w ≡ (ok false, record w { conn = c }))
          × (d.view c ≡ sees w)
    unfolding run_hooks
    unheld e true b =
        let inside = λ (x : View). record x { in_atomic_block = true } in
        let (k, v) =
          with_atomic-committed probe w false (entered w) (asked row w h there false e)
            (rw (sees-entered w h) h) b in
        (
          (left probe w (ok false) (entered w)).conn,
          k,
          v
              ∙ ap inside (sees-entered w h)
              ∙ ap (λ x. record (sees w) { in_atomic_block = x }) (sym b),
        )
    unheld e false b =
        let (k, v) =
          with_atomic-outermost probe w false (entered w) (asked row w h there false e)
            (rw (sees-entered w h) h) b in
        let outside = λ (x : View). record x { hooks = []; in_atomic_block = false } in
        let none_waits : (sees (entered w)).hooks ≡ [] = rw (sees-entered w h) (quiet b) in
        let k' : with_atomic probe w ≡ (ok false, left probe w (ok false) (entered w)) =
          rw none_waits at k in
        (
          (left probe w (ok false) (entered w)).conn,
          k',
          sym (ap (λ y. sees y.1) k')
              ∙ v
              ∙ ap outside (sees-entered w h)
              ∙ ap₂ (λ x y. record (sees w) { hooks = x; in_atomic_block = y }) (sym (quiet b))
                  (sym b),
        )

    -- What the probe answers is the world of its block.
    answered :
        {r : Result Bool} {w' : World d} (f : Error → M d Bool)
        → with_atomic probe w ≡ (r, w')
        → (handled (with_atomic probe w).0 f (with_atomic probe w).1).1 ≡ (handled r f w').1
    answered f k = ap (λ y. (handled y.0 f y.1).1) k

    worker_holds_row-Probed :
        (held : Bool)
        → d.row_locked row.pk (entered w).conn ≡ held
        → Probed w (worker_holds_row row.pk w).1
    unfolding worker_holds_row asks
    worker_holds_row-Probed true e =
        let (k, v) =
          with_atomic-rolled_back probe w (err operational_error) (entered w)
            (asked row w h there true e) h refl in
        (
          (left probe w (err operational_error) (entered w)).conn,
          answered (except_operational true) k,
          v,
        )
    worker_holds_row-Probed false e =
        let (c, k, v) = unheld e (sees w).in_atomic_block refl in
        (c, answered (except_operational true) k, v)

    module _ (held : Bool) (e : d.row_locked row.pk (entered w).conn ≡ held) where
      classify-Probed : Probed w (classify row w).1
      unfolding classify
      classify-Probed = elim (Bool-cases (within_budget w.now row.started_at row.timeout_seconds)) [
        | inl b ↦ rw b (w.conn, refl, refl)
        | inr b ↦ elim (Bool-cases (is_stale row w h there)) [
          | inr fresh ↦ rw (b, fresh) (w.conn, refl, refl)
          | inl stale ↦
              rw (b, stale, worker_holds_row-held row w h there held e)
                (worker_holds_row-Probed held e)
        ]
      ]

      pub retry_status-Probed :
          (i : ℕ) (p : Name)
          → newest (filter (occupies i p) (sees w).rows) ≡ some row
          → Probed w (retry_status i p w).1
      unfolding retry_status classify_newest
      retry_status-Probed i p first =
          rw
            (
              in_flight_for-eq i p w h,
              first,
              continue-pure (classify row w).0 some (classify row w).1,
            )
            classify-Probed
