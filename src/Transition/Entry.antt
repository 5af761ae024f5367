-- ===== src/Transition/Entry.antt =====
-- The way into a synchronous run: what refuses it, and the world in which its side-effects start.
use django_logic.Prelude.{
  ℕ, suc, ◌≡◌, refl, sym, ap, ◌∙◌, Bool, true, false, none, some, any, filter, elem, update, find,
  if◌then◌else◌, Bool-cases, inl, inr, ==_refl, update_self,
}
use django_logic.Errors.{
  Error, transition_not_allowed, state_is_locked, not_a_source, temporarily_unavailable,
}
use django_logic.Errors
use django_logic.Exec.{ok, err, pure, ◌>>=◌}
use django_logic.Django.{Django, Name, State, Message}
use django_logic.World.{World, sees}
use django_logic.State.{lock, unlock}
use django_logic.State.Writing.{get_persisted_state-some}
use django_logic.State.Ownership.{lock-free, lock-held, unlock-held}
use django_logic.Atomic.Laws.{IsHealthy, entered}
use django_logic.Message.{
  Status, retrying, stranded, is_stranded, is_uncompleted, occupies, newest, retry_status,
}
use django_logic.Message.Classification.{IsLost, retry_status-none, retry_status-classifies}
use django_logic.Message.Probing.{IsQuiet, retry_status-Probed}
use django_logic.Transition.{
  Transition, Call, engine_param_kwargs, refuse_engine_param_kwargs, ensure_db_state_in_sources,
  ensure_no_background_in_flight, refuse_status, revalidate, change_state,
}

module _ {d : Django} where
  -- The world after a free lock is taken.
  abbrev pub locked : State → World d → World d
  locked s w = record w {
    cache = (d.add s.instance_key w.supply d.settings.lock_timeout w.cache).1;
    supply = suc w.supply;
    tokens = update w.tokens s.ref (some w.supply);
  }

  ensure_no_background-eq :
      (s : State) (w : World d) (b : Bool)
      → d.settings.background_installed ≡ b
      → ensure_no_background_in_flight s w
        ≡ (if b then (retry_status s.instance s.process_name >>= refuse_status) else pure tt) w
  unfolding ensure_no_background_in_flight
  ensure_no_background-eq s w b e =
      ap
        (λ x. (if x then (retry_status s.instance s.process_name >>= refuse_status) else pure tt) w)
        e

  ensure_no_background-ok :
      (s : State) (w : World d)
      → IsHealthy w
      → any (occupies s.instance s.process_name) (sees w).rows ≡ false
      → ensure_no_background_in_flight s w ≡ (ok tt, w)
  ensure_no_background-ok s w h u = elim (Bool-cases d.settings.background_installed) [
    | inl i ↦
        ensure_no_background-eq s w true i ∙ rw (retry_status-none s.instance s.process_name w h u)
    | inr i ↦ ensure_no_background-eq s w false i
  ]

  ensure_no_background-refused :
      (s : State) (w : World d) (status : Status)
      → d.settings.background_installed ≡ true
      → (retry_status s.instance s.process_name w).0 ≡ ok (some status)
      → ensure_no_background_in_flight s w ≡ (
        err (
            if is_stranded (some status)
            then transition_not_allowed Errors.stranded
            else temporarily_unavailable),
        (retry_status s.instance s.process_name w).1,
      )
  ensure_no_background-refused s w retrying i e = ensure_no_background-eq s w true i ∙ rw e
  ensure_no_background-refused s w stranded i e = ensure_no_background-eq s w true i ∙ rw e

  module _ (t : Transition d) (s : State) where
    source-eq :
        (w : World d) (current : Name)
        → IsHealthy w
        → (sees w).columns s.instance_key ≡ some current
        → (b : Bool) → elem current t.sources ≡ b
        → ensure_db_state_in_sources t.sources s w
          ≡ ((if b then ok tt else err (transition_not_allowed not_a_source)), w)
    unfolding ensure_db_state_in_sources
    source-eq w current h e true b = rw (get_persisted_state-some s current w h e, b)
    source-eq w current h e false b = rw (get_persisted_state-some s current w h e, b)

    -- What the run needs of the world when it is called.
    pub record IsReady (call : Call d) (w : World d) : Type 0 where
      pub kwargs : any (λ k. elem k engine_param_kwargs) call.kwargs ≡ false
      pub healthy : IsHealthy w
      pub free : d.get s.instance_key w.cache ≡ none
      pub current : Name
      pub persisted : (sees w).columns s.instance_key ≡ some current
      pub is_source : elem current t.sources ≡ true
      pub unoccupied : any (occupies s.instance s.process_name) (sees w).rows ≡ false

    revalidate-ok :
        (w : World d) (current : Name)
        → IsHealthy w
        → (sees w).columns s.instance_key ≡ some current
        → elem current t.sources ≡ true
        → any (occupies s.instance s.process_name) (sees w).rows ≡ false
        → revalidate t s w ≡ (ok tt, w)
    unfolding revalidate
    revalidate-ok w current h p b u =
        rw (source-eq w current h p true b, ensure_no_background-ok s w h u)

    pub change_state-enters :
        (call : Call d) (w : World d) (r : IsReady call w)
        → (revalidate t s (locked s w) ≡ (ok tt, locked s w)) × (lock s w ≡ (ok true, locked s w))
    change_state-enters call w r = (
      revalidate-ok (locked s w) r.current r.healthy r.persisted r.is_source r.unoccupied,
      lock-free s w r.free,
    )

    -- Why a call that passes its keyword arguments is refused, and with which exception.
    pub data Refusal (w : World d) : Error → Type 0 where
      held :
          {token : ℕ}
          → d.get s.instance_key w.cache ≡ some token
          → Refusal w (transition_not_allowed state_is_locked)
      moved :
          {current : Name}
          → d.get s.instance_key w.cache ≡ none
          → (sees w).columns s.instance_key ≡ some current
          → elem current t.sources ≡ false
          → Refusal w (transition_not_allowed not_a_source)
      in_flight :
          {current : Name} {row : Message} {is_held : Bool}
          → d.get s.instance_key w.cache ≡ none
          → (sees w).columns s.instance_key ≡ some current
          → elem current t.sources ≡ true
          → d.settings.background_installed ≡ true
          → newest (filter (occupies s.instance s.process_name) (sees w).rows) ≡ some row
          → find (is_uncompleted row.pk) (sees w).rows ≡ some row
          → d.row_locked row.pk (entered w).conn ≡ is_held
          → ¬ (IsLost d.settings row w.now × (is_held ≡ false))
          → Refusal w temporarily_unavailable
      abandoned :
          {current : Name} {row : Message}
          → d.get s.instance_key w.cache ≡ none
          → (sees w).columns s.instance_key ≡ some current
          → elem current t.sources ≡ true
          → d.settings.background_installed ≡ true
          → newest (filter (occupies s.instance s.process_name) (sees w).rows) ≡ some row
          → find (is_uncompleted row.pk) (sees w).rows ≡ some row
          → d.row_locked row.pk (entered w).conn ≡ false
          → IsLost d.settings row w.now
          → Refusal w (transition_not_allowed Errors.stranded)

    -- A refused run leaves what the connection shows, the attributes and the lock as they were.
    pub record Untouched (w w' : World d) : Type 0 where
      pub seen : sees w' ≡ sees w
      pub memory : w'.memory ≡ w.memory
      pub registry : w'.registry ≡ w.registry
      pub lock : d.get s.instance_key w'.cache ≡ d.get s.instance_key w.cache

    module _ (call : Call d) (w : World d) (healthy : IsHealthy w) (quiet : IsQuiet w) where
      -- The world after the lock was taken, the probe made on this connection, and the lock given back.
      abbrev released : d.Conn → World d
      released c = record (locked s w) {
        conn = c;
        cache = d.delete s.instance_key (locked s w).cache;
      }

      unlocked :
          (c : d.Conn)
          → d.get s.instance_key w.cache ≡ none
          → unlock s (record (locked s w) { conn = c }) ≡ (ok tt, released c)
      unlocked c free =
          unlock-held s (record (locked s w) { conn = c }) w.supply
            (update_self w.tokens s.ref (some w.supply))
            (d.add_free s.instance_key w.supply d.settings.lock_timeout w.cache free).1

      released-Untouched :
          (c : d.Conn)
          → d.view c ≡ sees w
          → d.get s.instance_key w.cache ≡ none
          → Untouched w (released c)
      released-Untouched c v free = record {
        seen = v;
        memory = refl;
        registry = refl;
        lock =
            rw
              (
                d.get-delete s.instance_key s.instance_key (locked s w).cache,
                ==_refl s.instance_key,
              )
              (sym free);
      }

      module _ (call_fits : any (λ k. elem k engine_param_kwargs) call.kwargs ≡ false) where
        -- A row that occupies the instance: the answer to its status is raised, and the lock given back.
        refused-by :
            (status : Status) (is_held : Bool) {current : Name} {row : Message}
            → d.get s.instance_key w.cache ≡ none
            → (sees w).columns s.instance_key ≡ some current
            → elem current t.sources ≡ true
            → d.settings.background_installed ≡ true
            → newest (filter (occupies s.instance s.process_name) (sees w).rows) ≡ some row
            → find (is_uncompleted row.pk) (sees w).rows ≡ some row
            → d.row_locked row.pk (entered w).conn ≡ is_held
            → (retry_status s.instance s.process_name (locked s w)).0 ≡ ok (some status)
            → ((change_state t s call w).0
                ≡ err (
                    if is_stranded (some status)
                    then transition_not_allowed Errors.stranded
                    else temporarily_unavailable))
              × Untouched w (change_state t s call w).1
        unfolding change_state refuse_engine_param_kwargs revalidate
        refused-by status is_held {current} {row} free p n i first there e answer =
            let (c, k, v) =
              retry_status-Probed row (locked s w) healthy quiet there is_held e s.instance
                s.process_name first in
            rw
              (
                call_fits,
                lock-free s w free,
                source-eq (locked s w) _ healthy p true n,
                ensure_no_background-refused s (locked s w) status i answer,
                k,
                unlocked c free,
              )
              (refl, released-Untouched c v free)

      -- A call whose keyword arguments pass is refused where the lock is held, where the row is not in
      -- a source state, and where, with the background package installed, a background transition of
      -- the instance and process is uncompleted: with "temporarily unavailable", unless its newest row `IsLost` and no worker holds it, which
      -- is refused as stranded. Where outside a transaction no callable waits for a commit, the refused
      -- call leaves what the connection shows, the attributes and the lock as it found them, and gives
      -- back a lock that it took.
      pub change_state-refused :
          (x : Error)
          → any (λ k. elem k engine_param_kwargs) call.kwargs ≡ false
          → Refusal w x
          → ((change_state t s call w).0 ≡ err x) × Untouched w (change_state t s call w).1
      unfolding change_state refuse_engine_param_kwargs revalidate
      change_state-refused x k (held e) =
          rw (k, lock-held s w _ e)
            (refl, record { seen = refl; memory = refl; registry = refl; lock = refl })
      change_state-refused x k (moved free p n) =
          rw
            (
              k,
              lock-free s w free,
              source-eq (locked s w) _ healthy p false n,
              unlocked w.conn free,
            )
            (refl, released-Untouched w.conn refl free)
      change_state-refused x k
            (in_flight {current} {row} {is_held} free p n i first there e alive) =
          elim (retry_status-classifies row (locked s w) healthy there s.instance s.process_name
            first is_held e) [
              | inl (_, lost, unheld) ↦ elim (alive (lost, unheld)) [ ]
              | inr (answer, _) ↦ refused-by k retrying is_held free p n i first there e answer
            ]
      change_state-refused x k (abandoned {current} {row} free p n i first there e lost) =
          elim (retry_status-classifies row (locked s w) healthy there s.instance s.process_name
            first false e) [
              | inl (answer, _, _) ↦ refused-by k stranded false free p n i first there e answer
              | inr (_, alive) ↦ elim (alive (lost, refl)) [ ]
            ]
