-- ===== src/Background/Enqueue/Acceptance.antt =====
-- What an enqueue leaves behind: the row with the in-progress state, or nothing.
use django_logic.Prelude.{
  ℕ, ◌≡◌, refl, true, false, Option, none, some, List, [], ◌∷◌, ◌++◌, any, elem, truthy, update,
  Bool-cases, inl, inr, if◌then◌else◌,
}
use django_logic.Errors.{Error, already_in_progress, source_state_changed, integrity_error}
use django_logic.Exec.{when, Result, ok, err}
use django_logic.Django.{Django, Name, State, Message}
use django_logic.World.{World, M, sees}
use django_logic.State.{set_state}
use django_logic.State.Writing.{get_persisted_state-some, set_state-accepted}
use django_logic.Atomic.{with_atomic}
use django_logic.Atomic.Laws.{
  IsHealthy, entered, query-healthy, with_atomic-result, change_rows-healthy,
  with_atomic-rolled_back,
}
use django_logic.Message.{occupies}
use django_logic.Transition.{Transition}
use django_logic.Background.Enqueue.{Submission, new_row, create, enqueue_block, enqueue_atomic}

-- The state columns after an accepted enqueue.
abbrev pub in_progress_or :
    {d : Django} → Transition d → State → (ℕ → Option Name) → ℕ → Option Name
in_progress_or t s columns =
    if truthy t.in_progress_state
    then update columns s.instance_key (some t.in_progress_state)
    else columns

module _ {d : Django} where
  atomic-err :
      {A : Type 0} (m : M d A) (w : World d)
      → IsHealthy w
      → (r : Result A) (w' : World d) → m (entered w) ≡ (r, w')
      → {e : Error} → (with_atomic m w).0 ≡ err e
      → sees (with_atomic m w).1 ≡ sees w
  atomic-err m w h (ok a) w' k e = cc (e, with_atomic-result m w w' (ok a) k)
  atomic-err m w h (err x) w' k e =
      let y = with_atomic-rolled_back m w (err x) w' k h refl in rw y.0 y.1

  module _ (t : Transition d) (s : State) (sub : Submission d) (w : World d) where
    pub enqueue_atomic-block :
        (kwargs : List ℕ)
        → sub.serialized ≡ ok kwargs
        → enqueue_atomic t s sub w
          ≡ with_atomic (enqueue_block t s (new_row t s sub.owning_process_class kwargs w.now)) w
    unfolding enqueue_atomic
    enqueue_atomic-block kwargs e = rw e

    enqueue_atomic-unserialized :
        (x : Error) → sub.serialized ≡ err x → enqueue_atomic t s sub w ≡ (err x, w)
    unfolding enqueue_atomic
    enqueue_atomic-unserialized x e = rw e

    module _ (e : Error) (h : IsHealthy w) where
      serialized-err :
          (r : Result (List ℕ))
          → sub.serialized ≡ r
          → (enqueue_atomic t s sub w).0 ≡ err e
          → sees (enqueue_atomic t s sub w).1 ≡ sees w
      serialized-err (err x) k f = rw (enqueue_atomic-unserialized x k)
      serialized-err (ok kwargs) k f =
          let m = enqueue_block t s (new_row t s sub.owning_process_class kwargs w.now) in
          let x = enqueue_atomic-block kwargs k in
          rw x (atomic-err m w h (m (entered w)).0 (m (entered w)).1 refl (rw x at f))

      -- An enqueue that raises leaves no row and no state: rows, state columns, hooks and flags of
      -- the connection are as before it.
      pub enqueue_atomic-err :
          (enqueue_atomic t s sub w).0 ≡ err e → sees (enqueue_atomic t s sub w).1 ≡ sees w
      enqueue_atomic-err f = serialized-err sub.serialized refl f

  module _ (w : World d) (row : ℕ → Message) where
    -- The world after the insert has waited.
    abbrev pub waited : World d
    waited = record w { conn = d.wait (row (d.next_pk w.conn)) w.conn }

    abbrev pub inserted : Message
    inserted = row (d.next_pk waited.conn)

    waited-IsHealthy : IsHealthy w → IsHealthy waited
    waited-IsHealthy h = rw (d.wait_lem (row (d.next_pk w.conn)) w.conn) h

    pub create-inserts :
        IsHealthy w
        → any (occupies inserted.instance inserted.process_name) (sees waited).rows ≡ false
        → create row w ≡ (
          ok inserted,
          record waited { conn = d.put_rows ((sees waited).rows ++ inserted ∷ []) waited.conn },
        )
    unfolding create
    create-inserts h e = rw (
      query-healthy w h,
      query-healthy waited (waited-IsHealthy h),
      e,
      change_rows-healthy (λ ms. ms ++ inserted ∷ []) waited (waited-IsHealthy h),
    )

    pub create-conflict :
        IsHealthy w
        → any (occupies inserted.instance inserted.process_name) (sees waited).rows ≡ true
        → create row w
          ≡ (err integrity_error, record waited { conn = d.mark_for_rollback waited.conn })
    unfolding create
    create-conflict h e = rw (query-healthy w h, query-healthy waited (waited-IsHealthy h), e)

    -- The world after the insert.
    abbrev pub added : World d
    added = record waited { conn = d.put_rows ((sees waited).rows ++ inserted ∷ []) waited.conn }

    pub sees-added :
        sees added ≡ record (sees waited) { rows = (sees waited).rows ++ inserted ∷ [] }
    sees-added = d.put_rows_lem ((sees waited).rows ++ inserted ∷ []) waited.conn

    module _ (t : Transition d) (s : State) (healthy : IsHealthy w) where
      pub added-IsHealthy : IsHealthy added
      added-IsHealthy = rw sees-added (waited-IsHealthy healthy)

      in_progress-written :
          (d.save s.instance_key t.in_progress_state added.conn).0 ≡ none
          → (w' : World d) × (when
                (truthy t.in_progress_state)
                (set_state s t.in_progress_state)
                added
              ≡ (ok tt, w'))
            × (sees w' ≡ record (sees added) { columns = in_progress_or t s (sees added).columns })
      in_progress-written accepted = elim (Bool-cases (truthy t.in_progress_state)) [
        | inl b ↦
            let x = set_state-accepted s t.in_progress_state added added-IsHealthy accepted in
            let w' = (set_state s t.in_progress_state added).1 in
            (w', rw b (λ i. (x.0 i, w')), rw b x.1)
        | inr b ↦ (added, rw b, rw b)
      ]

      module _ (current : Name) where
        pub enqueue_block-accepted :
            any (occupies inserted.instance inserted.process_name) (sees waited).rows ≡ false
            → (sees waited).columns s.instance_key ≡ some current
            → elem current t.sources ≡ true
            → (d.save s.instance_key t.in_progress_state added.conn).0 ≡ none
            → (w' : World d) × (enqueue_block t s row w ≡ (ok inserted, w'))
              × (sees w'
                  ≡ record (sees added) { columns = in_progress_or t s (sees added).columns })
        unfolding enqueue_block
        enqueue_block-accepted u p b accepted =
            let (w', e, v) = in_progress-written accepted in
            (
              w',
              rw (
                create-inserts healthy u,
                get_persisted_state-some s current added added-IsHealthy (rw sees-added p),
                b,
                e,
              ),
              v,
            )

        pub enqueue_block-moved :
            any (occupies inserted.instance inserted.process_name) (sees waited).rows ≡ false
            → (sees waited).columns s.instance_key ≡ some current
            → elem current t.sources ≡ false
            → enqueue_block t s row w ≡ (err source_state_changed, added)
        unfolding enqueue_block
        enqueue_block-moved u p b = rw (
          create-inserts healthy u,
          get_persisted_state-some s current added added-IsHealthy (rw sees-added p),
          b,
        )

      pub enqueue_block-conflict :
          any (occupies inserted.instance inserted.process_name) (sees waited).rows ≡ true
          → (enqueue_block t s row w).0 ≡ err already_in_progress
      unfolding enqueue_block
      enqueue_block-conflict u = rw (create-conflict healthy u)
