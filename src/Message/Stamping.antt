-- ===== src/Message/Stamping.antt =====
-- `stamp_attempt_started` on a row that is there and free.
use django_logic.Prelude.{
  ℕ, ◌≡◌, refl, ap, ◌∙◌, Bool, true, false, some, some_injective, List, [], ◌∷◌, map, Bool-cases,
  inl, inr, ◌==◌, subst, subst⁻¹, if◌then◌else◌, is_some,
}
use django_logic.Exec.{ok, handled, pure, ◌>>=◌, ◌>>◌}
use django_logic.Django.{Django, Message}
use django_logic.World.{World, M, sees}
use django_logic.Atomic.{with_atomic}
use django_logic.Atomic.Laws.{
  IsHealthy, entered, sees-entered, change_rows-healthy, with_atomic-kept,
}
use django_logic.Message.{
  is_uncompleted, stamp, lock_row, update_rows, except_operational, stamp_attempt_started,
}
use django_logic.Message.Classification.{probed}
use django_logic.Message.Rows.{row_of, uncompleted-row_of}

-- The first row of a primary key, if it is not completed, is among those that are rewritten.
row_of-stamped :
    (pk now : ℕ) (ms : List Message) (m : Message)
    → row_of pk ms ≡ some m
    → m.is_completed ≡ false
    → row_of pk (map (λ x. if is_uncompleted pk x then stamp now x else x) ms) ≡ some (stamp now m)
row_of-stamped pk now [] m e u = cc e
row_of-stamped pk now (x ∷ ms) m e u = elim (Bool-cases (x.pk == pk)) [
  | inl b ↦
      let same : x ≡ m = some_injective (rw b at e) in
      let b' : (m.pk == pk) ≡ true = subst (λ y. (y.pk == pk) ≡ true) same b in
      subst⁻¹
        (λ y.
          row_of pk (map (λ z. if is_uncompleted pk z then stamp now z else z) (y ∷ ms))
          ≡ some (stamp now m))
        same (rw (b', u, b') refl)
  | inr b ↦ rw (b, b) (row_of-stamped pk now ms m (rw b at e) u)
]

module _ {d : Django} (m : Message) (w : World d) (h : IsHealthy w)
    (found : row_of m.pk (sees w).rows ≡ some m) (open_ : m.is_completed ≡ false)
    (free : d.row_locked m.pk (entered w).conn ≡ false) where
  -- The row as the attempt finds it, everything else as before.
  pub record Stamped (w' : World d) : Type 0 where
    pub healthy : IsHealthy w'
    pub row : row_of m.pk (sees w').rows ≡ some (stamp w.now m)
    pub columns : (sees w').columns ≡ (sees w).columns

  stamping : (w' : World d) × (stamp_attempt_started m.pk w ≡ (ok true, w')) × Stamped w'
  unfolding stamp_attempt_started update_rows
  stamping =
      let there = uncompleted-row_of m.pk (sees w).rows m found open_ in
      let u = sees-entered w h in
      let f = map (λ x. if is_uncompleted m.pk x then stamp w.now x else x) in
      let w₁ : World d = record (entered w) {
        conn = d.put_rows (f (sees (entered w)).rows) (entered w).conn;
      } in
      let v = d.put_rows_lem (f (sees (entered w)).rows) (entered w).conn in
      let h₁ : IsHealthy w₁ = rw (v, u) h in
      let body : M d Bool = lock_row m.pk >>= λ held.
      if is_some held
      then (update_rows (is_uncompleted m.pk) (stamp w.now) >> pure true)
      else pure false in
      let e : body (entered w) ≡ (ok true, w₁) =
        rw (probed m w h there false free, change_rows-healthy f (entered w) (rw u h)) in
      let k = with_atomic-kept body w true w₁ e h₁ in
      let rows = row_of-stamped m.pk w.now (sees w).rows m found open_ in
      (
        (with_atomic body w).1,
        ap (λ r. handled r (except_operational false) (with_atomic body w).1) k.0,
        record {
          healthy = k.4;
          row = ap (row_of m.pk) (k.1 ∙ ap (λ x. x.rows) v ∙ ap (λ x. f x.rows) u) ∙ rows;
          columns = k.2 ∙ ap (λ x. x.columns) v ∙ ap (λ x. x.columns) u;
        },
      )

  -- The stamp is written and reported.
  pub stamp_attempt_started-Stamped :
      ((stamp_attempt_started m.pk w).0 ≡ ok true) × Stamped (stamp_attempt_started m.pk w).1
  stamp_attempt_started-Stamped = let (w', k, v) = stamping in rw k (refl, v)
