-- ===== src/Background/Pull/Death.antt =====
-- What the death of an attempt's process leaves on its row.
use django_logic.Prelude.{
  All-Among, ◌≢◌, All, ◌≤◌, ap, ℕ, ◌+◌, ◌≡◌, refl, true, false, Option, some, List, [], ◌∷◌, map,
  Among, Bool-cases, subst, subst⁻¹, inl, inr, arith, if◌then◌else◌,
}
use django_logic.Exec.{Result, ok}
use django_logic.Django.{Django, Name, Settings, Message}
use django_logic.World.{World, sees}
use django_logic.Atomic.Laws.{IsHealthy}
use django_logic.Message.{minutes, is_uncompleted}
use django_logic.Background.SafetyNets.{is_claimable}
use django_logic.Background.Pull.Claim.{claim_next-claimable}
use django_logic.Background.Pull.{query, claim_next, charge_death, record_child_death}

module _ (settings : Settings) (now later pk : ℕ) (queues : Option (List Name)) where
  abbrev charged : Message → Message
  charged m = if is_uncompleted pk m then charge_death now m else m

  -- A row of that key may not be taken.
  abbrev Waits : Message → Type 0
  Waits m = m.pk ≡ pk → is_claimable settings later queues m ≡ false

  charged-Waits : (m : Message) → later ≤ now + minutes settings.retry_minutes → Waits (charged m)
  unfolding is_claimable
  charged-Waits m soon = elim (Bool-cases (is_uncompleted pk m)) [
    | inl b ↦ rw b (λ same. ground (arith, soon))
    | inr b ↦
        rw b (λ same. let done : m.is_completed ≡ true = ground (arith, b, same) in rw done refl)
  ]

  charged-All :
      (ms : List Message)
      → later ≤ now + minutes settings.retry_minutes
      → All Waits (map charged ms)
  charged-All [] soon = tt
  charged-All (m ∷ ms) soon = (charged-Waits m soon, charged-All ms soon)

-- The world at a later time, once the death is recorded.
abbrev pub after_death : {d : Django} → World d → ℕ → ℕ → World d
after_death w pk later = record (record_child_death pk w).1 { now = later }

module _ {d : Django} (w : World d) (healthy : IsHealthy w) (pk later : ℕ)
    (queues : List Name) where
  abbrev recorded : World d
  recorded = record w {
    conn = d.put_rows (map (charged d.settings w.now later pk (some queues)) (sees w).rows) w.conn;
  }

  record_child_death-eq : record_child_death pk w ≡ (ok tt, recorded)
  unfolding record_child_death
  record_child_death-eq = rw (d.ready_lem w.conn healthy, query) refl

  recorded-IsHealthy : IsHealthy (record recorded { now = later })
  recorded-IsHealthy =
      rw
        (d.put_rows_lem (map (charged d.settings w.now later pk (some queues)) (sees w).rows)
          w.conn)
        healthy

  recorded-claim :
      later ≤ w.now + minutes d.settings.retry_minutes
      → (claim_next queues (record recorded { now = later })).0 ≢ ok (some pk)
  recorded-claim soon e =
      let w' : World d = record recorded { now = later } in
      let (m, same, stored, may) = claim_next-claimable w' queues recorded-IsHealthy pk e in
      let rows =
        ap (λ v. v.rows)
          (d.put_rows_lem (map (charged d.settings w.now later pk (some queues)) (sees w).rows)
            w.conn) in
      let waits = charged-All d.settings w.now later pk (some queues) (sees w).rows soon in
      cc (
        All-Among (Waits d.settings w.now later pk (some queues))
            (map (charged d.settings w.now later pk (some queues)) (sees w).rows) waits
            (subst (Among m) rows stored) same,
        may,
      )

  -- On a healthy connection, once a death is recorded for a row, no claim returns that row
  -- until `RETRY_MINUTES` have passed, if nothing else has changed the tables.
  pub record_child_death-paced :
      later ≤ w.now + minutes d.settings.retry_minutes
      → (claim_next queues (after_death w pk later)).0 ≢ ok (some pk)
  record_child_death-paced soon =
      subst⁻¹
        (λ (r : Result (Unit {0}) × World d).
          (claim_next queues (record r.1 { now = later })).0 ≢ ok (some pk))
        record_child_death-eq (recorded-claim soon)
