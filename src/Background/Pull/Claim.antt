-- ===== src/Background/Pull/Claim.antt =====
-- Which row a worker claims.
use django_logic.Prelude.{
  some_injective, ℕ, ◌≤◌, ◌≡◌, refl, sym, ap, ◌∙◌, Bool, true, not, Option, some, List, find, Among,
  Option-cases, inl, inr,
}
use django_logic.Exec.{continue, Result, ok, ok_injective}
use django_logic.Django.{Django, Name, Message}
use django_logic.World.{World, sees}
use django_logic.Atomic.Laws.{IsHealthy, entered, query-healthy, sees-entered, with_atomic-result}
use django_logic.Background.SafetyNets.{claimable, is_claimable}
use django_logic.Background.SafetyNets.Claimable.{
  find-oldest, find-some, find-Among, claimable-IsSorted, Among-claimable, Among-of-claimable,
}
use django_logic.Background.Pull.{with_atomic, pure, pk_of, first_unlocked, claim_next}

-- No other connection holds the row.
abbrev pub is_free : {d : Django} → World d → Message → Bool
is_free {d} w m = not (d.row_locked m.pk (d.enter w.conn))

module _ {d : Django} (w : World d) (queues : List Name) where
  abbrev candidates : List Message
  candidates = claimable d.settings w.now (some queues) (sees w).rows

  module _ (healthy : IsHealthy w) where
    first_unlocked-eq :
        first_unlocked queues (entered w) ≡ (ok (find (is_free w) candidates), entered w)
    unfolding first_unlocked
    first_unlocked-eq =
        let e = sees-entered w healthy in
        let h : IsHealthy (entered w) = rw e healthy in rw (query-healthy (entered w) h, e) refl

    claim_next-eq : (claim_next queues w).0 ≡ ok (pk_of (find (is_free w) candidates))
    unfolding claim_next
    claim_next-eq =
        let e =
          with_atomic-result (first_unlocked queues) w (entered w)
            (ok (find (is_free w) candidates)) first_unlocked-eq in
        ap
          (λ (r : Result (Option Message)).
            (continue r (λ found. pure (pk_of found)) (with_atomic (first_unlocked queues) w).1).0)
          e

    -- A claimed row is stored and may be taken.
    pub claim_next-claimable :
        (pk : ℕ)
        → (claim_next queues w).0 ≡ ok (some pk)
        → (m : Message) × (m.pk ≡ pk)
          × Among m (sees w).rows
          × (is_claimable d.settings w.now (some queues) m ≡ true)
    claim_next-claimable pk e = elim (Option-cases (find (is_free w) candidates)) [
      | inl missing ↦ cc (claim_next-eq, e, ap pk_of missing)
      | inr found ↦
          let m = found.0 in
          let listed = (find-Among (is_free w) candidates m found.1).0 in
          let (stored, may) =
            Among-of-claimable d.settings w.now (some queues) (sees w).rows m listed in
          (
            m,
            some_injective (ap pk_of (sym found.1) ∙ ok_injective (sym claim_next-eq ∙ e)),
            stored,
            may,
          )
    ]

    -- On a healthy connection, where some row may be taken and is not locked, a worker
    -- claims a stored row that may be taken, is not locked, and is at least as old.
    pub claim_next-oldest :
        (r : Message)
        → Among r (sees w).rows
        → is_claimable d.settings w.now (some queues) r ≡ true
        → is_free w r ≡ true
        → (m : Message) × ((claim_next queues w).0 ≡ ok (some m.pk))
          × Among m (sees w).rows
          × (is_claimable d.settings w.now (some queues) m ≡ true)
          × (is_free w m ≡ true)
          × (m.created ≤ r.created)
    claim_next-oldest r a c f =
        let waiting = Among-claimable d.settings w.now (some queues) (sees w).rows r a c in
        let (m, found) = find-some (is_free w) candidates r waiting f in
        let (listed, free) = find-Among (is_free w) candidates m found in
        let (stored, may) =
          Among-of-claimable d.settings w.now (some queues) (sees w).rows m listed in
        let sorted = claimable-IsSorted d.settings w.now (some queues) (sees w).rows in
        (
          m,
          claim_next-eq ∙ ap (λ o. ok (pk_of o)) found,
          stored,
          may,
          free,
          find-oldest (is_free w) candidates m r sorted found waiting f,
        )
