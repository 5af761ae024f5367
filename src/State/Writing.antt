-- ===== src/State/Writing.antt =====
-- `State.set_state`: the row and the attribute change together, or neither does.
use django_logic.Prelude.{
  ℕ, ◌≡◌, refl, ◌∙◌, ap, false, Option-cases, none, some, update, update_self, inl, inr, arith,
}
use django_logic.Errors.{Error}
use django_logic.Exec.{Result, ok, err, is_err}
use django_logic.Django.{Django, Name, State}
use django_logic.World.{World, sees, query}
use django_logic.State.{get_persisted_state, refresh_field, set_state}

-- `memory` with one attribute set.
abbrev pub at_attribute : (ℕ → Name) → State → Name → ℕ → Name
at_attribute memory s n = update memory s.attribute n

module _ {d : Django} where
  module _ (s : State) (n : Name) (w : World d) (h : (sees w).needs_rollback ≡ false) where
    pub get_persisted_state-some :
        (sees w).columns s.instance_key ≡ some n → get_persisted_state s w ≡ (ok n, w)
    unfolding get_persisted_state
    get_persisted_state-some e = ground (arith, d.ready_lem w.conn h)

    refresh_field-some :
        (sees w).columns s.instance_key ≡ some n
        → refresh_field s w ≡ (ok tt, record w { memory = update w.memory s.attribute n })
    unfolding refresh_field
    refresh_field-some e = rw (get_persisted_state-some e)

  module _ (s : State) (n : Name) (w : World d) (h : (sees w).needs_rollback ≡ false) where
    -- The connection after the write.
    abbrev pub saved : d.Conn
    saved = (d.save s.instance_key n w.conn).1

    -- A write that the model and the database accept: the row holds the new state, and so does the
    -- attribute; nothing else changes.
    pub set_state-accepted :
        (d.save s.instance_key n w.conn).0 ≡ none
        → ((set_state s n w).0 ≡ ok tt)
          × (sees (set_state s n w).1
              ≡ record (sees w) { columns = update (sees w).columns s.instance_key (some n) })
          × ((set_state s n w).1.memory s.attribute ≡ n)
    unfolding set_state query
    set_state-accepted e =
        let v = d.save_ok s.instance_key n w.conn e in
        let k = update_self (sees w).columns s.instance_key (some n) in
        let m = update_self w.memory s.attribute n in
        let w' : World d = record w { conn = saved; memory = update w.memory s.attribute n } in
        let r = refresh_field-some s n w' (rw v h) (rw v k) in
        (
          rw (m, e, r),
          rw (m, e, r) v,
          rw (m, e, r) (update_self (update w.memory s.attribute n) s.attribute n),
        )

    -- A write that the model or the database refuses: the call raises what refused it, the attribute is
    -- put back, and no state column and no row changes.
    pub set_state-refused :
        {x : Error}
        → (d.save s.instance_key n w.conn).0 ≡ some x
        → ((set_state s n w).0 ≡ err x)
          × ((set_state s n w).1.memory s.attribute ≡ w.memory s.attribute)
          × ((sees (set_state s n w).1).columns ≡ (sees w).columns)
          × ((sees (set_state s n w).1).rows ≡ (sees w).rows)
    unfolding set_state
    set_state-refused e =
        let v = d.save_refused s.instance_key n w.conn e in
        let m = update_self w.memory s.attribute n in
        (
          rw (m, e),
          rw (m, e)
              (update_self (update w.memory s.attribute n) s.attribute (w.memory s.attribute)),
          rw (m, e, v),
          rw (m, e, v),
        )

module _ {d : Django} (s : State) where
  conn-refresh_field : (w : World d) → (refresh_field s w).1.conn ≡ w.conn
  unfolding refresh_field
  conn-refresh_field w = ground arith

  module _ (n : Name) (w : World d) where
    -- Whatever the state of the connection, a call that returns has written the column.
    pub set_state-ok :
        (set_state s n w).0 ≡ ok tt
        → sees (set_state s n w).1
          ≡ record (sees w) { columns = update (sees w).columns s.instance_key (some n) }
    unfolding set_state
    set_state-ok e =
        let m = update_self w.memory s.attribute n in
        elim (Option-cases (d.save s.instance_key n w.conn).0) [
          | inl a ↦
              rw (m, a)
                (ap d.view (
                    conn-refresh_field (record w {
                      conn = (d.save s.instance_key n w.conn).1;
                      memory = update w.memory s.attribute n;
                    }))
                  ∙ d.save_ok s.instance_key n w.conn a)
          | inr (x, r) ↦ cc (rw (m, r) at e)
        ]

    set_state-target_after :
        (r : Result Unit)
        → (set_state s n w).0 ≡ r
        → is_err r ≡ false
        → (sees (set_state s n w).1).columns s.instance_key ≡ some n
    set_state-target_after (ok _) e h =
        ap (λ v. v.columns s.instance_key) (set_state-ok e)
        ∙ update_self (sees w).columns s.instance_key (some n)
    set_state-target_after (err x) e h = cc h

    pub set_state-target :
        is_err (set_state s n w).0 ≡ false
        → (sees (set_state s n w).1).columns s.instance_key ≡ some n
    set_state-target e = set_state-target_after (set_state s n w).0 refl e
