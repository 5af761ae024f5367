-- ===== src/Background/Enqueue/Admission.antt =====
-- Which enqueue is admitted, and what it leaves for the worker and for the next caller.
use django_logic.Prelude.{
  ℕ, ◌≡◌, refl, ap, ◌∙◌, Bool, true, false, none, some, List, [], ◌∷◌, ◌++◌, any, elem,
}
use django_logic.Errors.{Error, already_in_progress, source_state_changed}
use django_logic.Exec.{ok, err}
use django_logic.Django.{Django, Name, State, Message}
use django_logic.World.{World, sees}
use django_logic.State.Ownership.{Holds}
use django_logic.Atomic.Laws.{
  conn-unlock, IsHealthy, entered, sees-entered, with_atomic-kept, with_atomic-result,
}
use django_logic.Commands.Savepoint.{unlock-ok}
use django_logic.Commands.Deferred.{unlock-releases}
use django_logic.Message.{occupies}
use django_logic.Transition.{Transition}
use django_logic.Background.Enqueue.{
  enqueue_checked, Submission, new_row, enqueue_block, enqueue_atomic, enqueue_locked,
}
use django_logic.Background.Enqueue.Acceptance.{
  enqueue_atomic-block, enqueue_atomic-err, waited, inserted, added, sees-added, added-IsHealthy,
  in_progress_or, enqueue_block-accepted, enqueue_block-moved, enqueue_block-conflict,
}

module _ {d : Django} (t : Transition d) (s : State) (sub : Submission d) (w : World d) where
  -- The row that the caller submits, by its primary key.
  abbrev pub submitted : List ℕ → ℕ → Message
  submitted kwargs = new_row t s sub.owning_process_class kwargs w.now

  -- What the connection shows inside the block once the insert has waited for the open transactions
  -- of other connections.
  abbrev pub after_wait : List ℕ → World d
  after_wait kwargs = waited (entered w) (submitted kwargs)

  -- Whether an uncompleted row of the instance and process is there by then.
  abbrev pub is_taken : List ℕ → Bool
  is_taken kwargs = any (occupies s.instance s.process_name) (sees (after_wait kwargs)).rows

  module _ (kwargs : List ℕ) (serialized : sub.serialized ≡ ok kwargs) (healthy : IsHealthy w) where
    entered-IsHealthy : IsHealthy (entered w)
    entered-IsHealthy = rw (sees-entered w healthy) healthy

    refused :
        (e : Error)
        → (enqueue_block t s (submitted kwargs) (entered w)).0 ≡ err e
        → ((enqueue_atomic t s sub w).0 ≡ err e) × (sees (enqueue_atomic t s sub w).1 ≡ sees w)
    refused e f =
        let m = enqueue_block t s (submitted kwargs) in
        let x = enqueue_atomic-block t s sub w kwargs serialized in
        let k =
          ap (λ y. y.0) x
          ∙ with_atomic-result m w (m (entered w)).1 (err e) (λ i. (f i, (m (entered w)).1)) in
        (k, enqueue_atomic-err t s sub w e healthy k)

    module _ (current : Name)
        (persisted : (sees (after_wait kwargs)).columns s.instance_key ≡ some current) where
      -- An enqueue on an instance without an uncompleted row, whose row is in a source state after
      -- the wait and whose in-progress state is saved: it returns the new row, and row and state
      -- are written together.
      pub enqueue_atomic-accepted :
          is_taken kwargs ≡ false
          → elem current t.sources ≡ true
          → (d.save s.instance_key t.in_progress_state
              (added (entered w) (submitted kwargs)).conn).0
            ≡ none
          → let m = inserted (entered w) (submitted kwargs) in
            let w' = (enqueue_atomic t s sub w).1 in
            ((enqueue_atomic t s sub w).0 ≡ ok m)
            × ((sees w').rows ≡ (sees (after_wait kwargs)).rows ++ m ∷ [])
            × ((sees w').columns ≡ in_progress_or t s (sees (after_wait kwargs)).columns)
      enqueue_atomic-accepted u b accepted =
          let (w', e, v) =
            enqueue_block-accepted (entered w) (submitted kwargs) t s entered-IsHealthy current u
              persisted b accepted in
          let a = sees-added (entered w) (submitted kwargs) in
          let h : IsHealthy w' =
            rw v (added-IsHealthy (entered w) (submitted kwargs) t s entered-IsHealthy) in
          let k = with_atomic-kept (enqueue_block t s (submitted kwargs)) w _ w' e h in
          rw (enqueue_atomic-block t s sub w kwargs serialized)
            (k.0, k.1 ∙ rw (v, a), k.2 ∙ rw (v, a))

      -- An enqueue that was admitted after waiting, on an instance that another worker moved out of
      -- the source states meanwhile, is refused.
      enqueue_atomic-moved :
          is_taken kwargs ≡ false
          → elem current t.sources ≡ false
          → (enqueue_atomic t s sub w).0 ≡ err source_state_changed
      enqueue_atomic-moved u b =
          (refused source_state_changed (
            ap (λ x. x.0)
              (enqueue_block-moved (entered w) (submitted kwargs) t s entered-IsHealthy current u
                persisted b))).0

    -- While an uncompleted row of the same instance and process is there, a second enqueue is
    -- refused, and adds neither a row nor a state.
    pub enqueue_atomic-conflict :
        is_taken kwargs ≡ true
        → ((enqueue_atomic t s sub w).0 ≡ err already_in_progress)
          × (sees (enqueue_atomic t s sub w).1 ≡ sees w)
    enqueue_atomic-conflict u =
        refused already_in_progress
          (enqueue_block-conflict (entered w) (submitted kwargs) t s entered-IsHealthy u)

  -- Whatever comes of an enqueue under its lock, that lock does not stay behind; the outcome and the
  -- database are those of the enqueue.
  pub enqueue_locked-releases :
      ((enqueue_locked t s sub w).0 ≡ (enqueue_checked t s sub w).0)
      × (sees (enqueue_locked t s sub w).1 ≡ sees (enqueue_checked t s sub w).1)
      × (¬ Holds s (enqueue_locked t s sub w).1)
  unfolding enqueue_locked
  enqueue_locked-releases =
      let w' = (enqueue_checked t s sub w).1 in
      rw (unlock-ok s w') (refl, ap d.view (conn-unlock s w'), unlock-releases s w')
