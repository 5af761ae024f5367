-- ===== src/Background/Enqueue/Uniqueness.antt =====
-- At most one uncompleted row per instance and process: the insert keeps it, as the partial unique
-- constraint of the table demands.
use django_logic.Prelude.{
  ℕ, ◌≡◌, true, false, List, [], ◌∷◌, ◌++◌, any, All, All-append, arith, Bool-cases, inl, inr,
  ==_iff,
}
use django_logic.Django.{Django, Message}
use django_logic.World.{World, sees}
use django_logic.Atomic.Laws.{IsHealthy}
use django_logic.Message.{occupies}
use django_logic.Background.Enqueue.{create}
use django_logic.Background.Enqueue.Acceptance.{
  waited, inserted, sees-added, create-inserts, create-conflict,
}

-- Two uncompleted rows of one instance and process.
pub record Clash (m r : Message) : Type 0 where
  pub instance : m.instance ≡ r.instance
  pub process_name : m.process_name ≡ r.process_name
  pub first : m.is_completed ≡ false
  pub second : r.is_completed ≡ false

-- No row clashes with one after it.
abbrev pub IsExclusive : List Message → Type 0
IsExclusive [] = Unit
IsExclusive (m ∷ ms) = All (λ r. ¬ Clash m r) ms × IsExclusive ms

-- An uncompleted row holds its instance and process.
Clash-occupies : (m r : Message) → Clash r m → occupies m.instance m.process_name r ≡ true
unfolding occupies
Clash-occupies m r c = rw (
  c.first,
  (==_iff r.instance m.instance).1 c.instance,
  (==_iff r.process_name m.process_name).1 c.process_name,
)

append-IsExclusive :
    (rows : List Message) (m : Message)
    → any (occupies m.instance m.process_name) rows ≡ false
    → IsExclusive rows
    → IsExclusive (rows ++ m ∷ [])
append-IsExclusive [] m free x = (tt, tt)
append-IsExclusive (r ∷ rows) m free (apart, x) =
    let here : occupies m.instance m.process_name r ≡ false = ground (arith, free) in
    let later : any (occupies m.instance m.process_name) rows ≡ false = ground (arith, free) in
    (
      All-append (λ y. ¬ Clash r y) rows (m ∷ []) apart (λ c. cc (Clash-occupies m r c, here), tt),
      append-IsExclusive rows m later x,
    )

module _ {d : Django} (w : World d) (row : ℕ → Message) where
  -- The insert keeps the rows exclusive, whatever the transactions that it waited for left: it adds
  -- a row to an instance and process that has none, and is refused where one is there.
  pub create-IsExclusive :
      IsHealthy w
      → IsExclusive (sees (waited w row)).rows
      → IsExclusive (sees (create row w).1).rows
  create-IsExclusive h x =
      let m = inserted w row in
      elim (Bool-cases (any (occupies m.instance m.process_name) (sees (waited w row)).rows)) [
        | inl taken ↦
            rw (create-conflict w row h taken, d.mark_for_rollback_lem (waited w row).conn) x
        | inr free ↦
            rw (create-inserts w row h free, sees-added w row)
              (append-IsExclusive (sees (waited w row)).rows m free x)
      ]
