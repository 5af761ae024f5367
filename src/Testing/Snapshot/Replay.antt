-- ===== src/Testing/Snapshot/Replay.antt =====
-- What a snapshot of a row is restored to.
use django_logic.Prelude.{
  ap, ◌∙◌, subst⁻¹, filter-append, ==_refl, ℕ, ◌≡◌, refl, true, false, not, Option, none, some,
  List, [], ◌∷◌, ◌++◌, any, filter, truthy, arith,
}
use django_logic.Exec.{ok}
use django_logic.Django.{View, Django, Name, Settings, Message}
use django_logic.World.{World, sees}
use django_logic.Atomic.Laws.{IsHealthy, change_rows-healthy, query-healthy}
use django_logic.Message.{occupies}
use django_logic.Values.{Text, Value, null, text, datetime}
use django_logic.Serializers.{Python}
use django_logic.Background.Enqueue.Acceptance.{waited, inserted, sees-added, create-inserts}
use django_logic.Background.Enqueue.{create}
use django_logic.Testing.Snapshot.{
  latest, Recorded, record_message, datetime_of, restore_dt, replayed, is_for, latest_message,
  restore_message, jsonable,
}

-- `parse_datetime` reads what `isoformat` prints, and that is not empty.
pub record ReadsDates (py : Python) : Type 0 where
  pub printed : ℕ → ℕ × Text
  pub nonempty : (t : ℕ) → py.print datetime t ≡ (printed t).0 ∷ (printed t).1
  pub parsed : (t : ℕ) → py.parse datetime (text (py.print datetime t)) ≡ some t

-- A row of the instance with everything that the snapshot holds of another.
abbrev pub replay_of : ℕ → ℕ → ℕ → Message → Message
replay_of now instance pk m = record m {
  pk = pk;
  instance = instance;
  ended_in_failure = false;
  created = now;
  modified = now;
}

module _ (py : Python) (reads : ReadsDates py) where
  -- A date as the snapshot holds it.
  abbrev held : Option ℕ → Value
  held none = null
  held (some t) = text (py.print datetime t)

  dated : (t : Option ℕ) → jsonable py (datetime_of t) ≡ ok (held t)
  unfolding jsonable
  dated none = refl
  dated (some t) = refl

  redated : (t : Option ℕ) → restore_dt py (held t) ≡ t
  unfolding restore_dt
  redated none = refl
  redated (some t) =
      let read = reads.parsed t in rw (reads.nonempty t) (rw (reads.nonempty t) at read)

  record_message-replayed :
      (settings : Settings) (m : Message) (now instance : ℕ)
      → truthy m.queue_name ≡ true
      → (recorded : Recorded) × (record_message py m ≡ ok recorded)
        × (recorded.process_name ≡ m.process_name)
        × ((pk : ℕ) → replayed py settings now instance recorded pk ≡ replay_of now instance pk m)
  unfolding record_message replayed
  record_message-replayed settings m now instance queued =
      rw (dated m.last_error_dt, dated m.started_at, dated m.completed_at)
        (
          _,
          refl,
          refl,
          λ pk.
              rw (redated m.last_error_dt, redated m.started_at, redated m.completed_at, queued)
                refl,
        )

-- Once the rows of a process are deleted, no row of it is uncompleted.
free_after :
    (instance : ℕ) (name : Name) (ms : List Message)
    → any (occupies instance name) (filter (λ m. not (is_for instance name m)) ms) ≡ false
unfolding occupies
free_after instance name [] = refl
free_after instance name (m ∷ ms) = ground (arith, free_after instance name ms)

none_left :
    (instance : ℕ) (name : Name) (ms : List Message)
    → filter (is_for instance name) (filter (λ m. not (is_for instance name m)) ms) ≡ []
none_left instance name [] = refl
none_left instance name (m ∷ ms) = ground (arith, none_left instance name ms)

latest-appended :
    (instance : ℕ) (name : Name) (ms : List Message) (r : Message)
    → is_for instance name r ≡ true
    → latest
        (filter (is_for instance name) (filter (λ m. not (is_for instance name m)) ms ++ r ∷ []))
      ≡ some r
unfolding latest
latest-appended instance name ms r e =
    rw
      (
        filter-append (is_for instance name) (filter (λ m. not (is_for instance name m)) ms)
            (r ∷ []),
        none_left instance name ms,
        e,
      )
      refl

module _ {d : Django} (py : Python) (reads : ReadsDates py) (w : World d) (healthy : IsHealthy w)
    (instance : ℕ) (m : Message) (queued : truthy m.queue_name ≡ true) where
  -- The world once the rows of the process are deleted.
  abbrev pub cleared : World d
  cleared = record w {
    conn = d.put_rows (filter (λ r. not (is_for instance m.process_name r)) (sees w).rows) w.conn;
  }

  -- The other rows.
  abbrev others : List Message
  others = filter (λ r. not (is_for instance m.process_name r)) (sees w).rows

  module _ (quiet : (x : Message) → d.view (d.wait x cleared.conn) ≡ sees cleared)
      (row : ℕ → Message) (same : (pk : ℕ) → row pk ≡ replay_of w.now instance pk m) where
    cleared-rows : sees cleared ≡ record (sees w) {
      rows = filter (λ r. not (is_for instance m.process_name r)) (sees w).rows;
    }
    cleared-rows =
        d.put_rows_lem (filter (λ r. not (is_for instance m.process_name r)) (sees w).rows) w.conn

    cleared-IsHealthy : IsHealthy cleared
    cleared-IsHealthy = rw cleared-rows healthy

    create-replay :
        let pk = d.next_pk (waited cleared row).conn in
        let (r, w') = create row cleared in
        (r ≡ ok (replay_of w.now instance pk m))
        × (sees w' ≡ record (sees w) {
          rows =
              filter (λ r. not (is_for instance m.process_name r)) (sees w).rows
              ++ replay_of w.now instance pk m ∷ [];
        })
    create-replay =
        let e = same (d.next_pk (waited cleared row).conn) in
        let v = quiet (row (d.next_pk cleared.conn)) ∙ cleared-rows in
        let free =
          subst⁻¹
            (λ z. any (occupies z.instance z.process_name) (sees (waited cleared row)).rows ≡ false)
            e (rw v (free_after instance m.process_name (sees w).rows)) in
        rw (create-inserts cleared row cleared-IsHealthy free) (
          ap ok e,
          sees-added cleared row
              ∙ ap {A = View} (λ z. record z { rows = z.rows ++ inserted cleared row ∷ [] }) v
              ∙ ap (λ z. record (sees w) { rows = others ++ z ∷ [] }) e,
        )

  -- With a healthy connection and no other that writes meanwhile, a snapshot of a row, whose queue
  -- has a name, is restored to an instance as that row under a new key, made now and without its
  -- mark of a failed end; it replaces each row that the process had, is the latest then, and the
  -- other rows stay.
  pub restore_message-record_message :
      ((x : Message) → d.view (d.wait x cleared.conn) ≡ sees cleared)
      → (recorded : Recorded) × (record_message py m ≡ ok recorded)
        × (pk : ℕ) × (let r = replay_of w.now instance pk m in
            let (res, w') = restore_message py instance recorded w in
            (res ≡ ok r)
            × ((sees w').rows
                ≡ filter (λ x. not (is_for instance m.process_name x)) (sees w).rows ++ r ∷ [])
            × ((latest_message instance m.process_name w').0 ≡ ok (some r)))
  unfolding restore_message latest_message
  restore_message-record_message quiet =
      let (recorded, written, name, same) =
        record_message-replayed py reads d.settings m w.now instance queued in
      let row = replayed py d.settings w.now instance recorded in
      let (created, seen) = create-replay quiet row same in
      (
        recorded,
        written,
        d.next_pk (waited cleared row).conn,
        rw
            (
              name,
              change_rows-healthy (filter (λ x. not (is_for instance m.process_name x))) w healthy,
            )
            (
              created,
              ap (λ v. v.rows) seen,
              rw (query-healthy (create row cleared).1 (rw seen healthy), seen)
                  (ap ok (
                    latest-appended instance m.process_name (sees w).rows
                      (replay_of w.now instance (d.next_pk (waited cleared row).conn) m)
                      (rw (==_refl instance, ==_refl m.process_name) refl))),
            ),
      )
