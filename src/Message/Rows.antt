-- ===== src/Message/Rows.antt =====
-- The accounting statements on a row that is there: each writes its own columns of that row, keeps
-- every other row and every state column, and does not raise.
use django_logic.Prelude.{
  not, some_injective, subst⁻¹, inl, inr, Bool-cases, ap, ◌∙◌, ℕ, ◌+◌, ◌≡◌, refl, Bool, true, false,
  Option, some, List, [], ◌∷◌, map, any, find, ◌==◌, arith, if◌then◌else◌,
}
use django_logic.Errors.{Error}
use django_logic.Exec.{ok}
use django_logic.Django.{Django, Message, text}
use django_logic.World.{World, sees}
use django_logic.Atomic.Laws.{IsHealthy}
use django_logic.Message.{
  is_uncompleted, count_error, complete, measured, update_rows, save_row, record_error,
  mark_as_completed,
}

abbrev pub has_pk : ℕ → Message → Bool
has_pk pk m = m.pk == pk

-- The row with this primary key.
abbrev pub row_of : ℕ → List Message → Option Message
row_of pk = find (has_pk pk)

-- One row rewritten, the others kept.
abbrev pub rewrite_row : ℕ → (Message → Message) → List Message → List Message
rewrite_row pk f = map (λ m. if has_pk pk m then f m else m)

pub any-row_of :
    (pk : ℕ) (ms : List Message) (r : Message) → row_of pk ms ≡ some r → any (has_pk pk) ms ≡ true
any-row_of pk [] r e = cc
any-row_of pk (m ∷ ms) r e = ground (arith, any-row_of pk ms r)

-- The first row of a primary key, if it is not completed, is the one that a locking query finds.
pub uncompleted-row_of :
    (pk : ℕ) (ms : List Message) (m : Message)
    → row_of pk ms ≡ some m
    → m.is_completed ≡ false
    → find (is_uncompleted pk) ms ≡ some m
uncompleted-row_of pk [] m e u = cc e
uncompleted-row_of pk (r ∷ ms) m e u = elim (Bool-cases (r.pk == pk)) [
  | inl b ↦
      let open_ = ap (λ x. x.is_completed) (some_injective (rw b at e)) ∙ u in
      rw b (
        subst⁻¹ (λ x. (if not x then some r else find (is_uncompleted pk) ms) ≡ some m) open_
          (rw b at e))
  | inr b ↦ rw b (uncompleted-row_of pk ms m (rw b at e) u)
]

module _ (pk : ℕ) (f : Message → Message) (keeps : (m : Message) → (f m).pk ≡ m.pk) where
  pub row_of-rewrite_row :
      (ms : List Message) (r : Message)
      → row_of pk ms ≡ some r
      → row_of pk (rewrite_row pk f ms) ≡ some (f r)
  row_of-rewrite_row [] r e = cc
  row_of-rewrite_row (m ∷ ms) r e = ground (arith, row_of-rewrite_row ms r, keeps m)

  pub row_of-rewrite_row_ne :
      (j : ℕ) (ms : List Message) → (j == pk) ≡ false → row_of j (rewrite_row pk f ms) ≡ row_of j ms
  row_of-rewrite_row_ne j [] e = refl
  row_of-rewrite_row_ne j (m ∷ ms) e = ground (arith, row_of-rewrite_row_ne j ms e, keeps m)

module _ {d : Django} (w : World d) (h : IsHealthy w) where
  -- The world after a statement that rewrites one row.
  abbrev pub rewritten : ℕ → (Message → Message) → World d
  rewritten pk f = record w { conn = d.put_rows (rewrite_row pk f (sees w).rows) w.conn }

  pub sees-rewritten :
      (pk : ℕ) (f : Message → Message)
      → sees (rewritten pk f) ≡ record (sees w) { rows = rewrite_row pk f (sees w).rows }
  sees-rewritten pk f = d.put_rows_lem (rewrite_row pk f (sees w).rows) w.conn

  pub update_rows-eq :
      (pk : ℕ) (f : Message → Message) → update_rows (has_pk pk) f w ≡ (ok tt, rewritten pk f)
  unfolding update_rows
  update_rows-eq pk f = ground (arith, d.ready_lem w.conn h)

  pub save_row-eq :
      (pk : ℕ) (f : Message → Message) (r : Message)
      → row_of pk (sees w).rows ≡ some r
      → save_row pk f w ≡ (ok tt, rewritten pk f)
  unfolding save_row
  save_row-eq pk f r e = ground (arith, d.ready_lem w.conn h, any-row_of pk (sees w).rows r e)

  module _ (self r : Message) (e : row_of self.pk (sees w).rows ≡ some r) where
    pub mark_as_completed-eq :
        (measure failed : Bool)
        → let change = complete w.now failed (measured measure self.started_at w.now) in
          mark_as_completed measure failed self w ≡ (ok (change self), rewritten self.pk change)
    unfolding mark_as_completed
    mark_as_completed-eq measure failed =
        rw
          (save_row-eq self.pk (complete w.now failed (measured measure self.started_at w.now)) r e)

    pub record_error-eq :
        (x : Error)
        → record_error x self w ≡ (
          ok (record self {
            errors_count = r.errors_count + 1;
            last_error_message = text x;
            last_error_dt = some w.now;
            modified = w.now;
          }),
          rewritten self.pk (count_error w.now x),
        )
    unfolding record_error
    record_error-eq x =
        let f = count_error w.now x in
        let v = sees-rewritten self.pk f in
        let c : d.Conn = (rewritten self.pk f).conn in
        let found : row_of self.pk (d.view c).rows ≡ some (f r) =
          rw v (row_of-rewrite_row self.pk f (λ m. refl) (sees w).rows r e) in
        rw (update_rows-eq self.pk f) (ground (arith, d.ready_lem c (rw v h), found))
