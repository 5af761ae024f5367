-- ===== src/Message/Classification.antt =====
-- `retry_status`: what the newest uncompleted row of an instance and process says.
use django_logic.Prelude.{
  ℕ, ◌+◌, ◌≡◌, ◌∙◌, refl, ap, Bool, true, false, none, some, any, filter, filter-any, find, ltb,
  if◌then◌else◌, Bool-cases, inl, inr, ◌*◌, ◌<◌, ◌≤◌, ◌⊎◌, max, Option, arith, subst,
}
use django_logic.Errors.{operational_error}
use django_logic.Exec.{handled, ok, err, pure, ◌>>◌}
use django_logic.Django.{Django, Name, Message, Settings}
use django_logic.World.{World, M, sees}
use django_logic.Atomic.{with_atomic}
use django_logic.Atomic.Laws.{IsHealthy, entered, sees-entered, query-healthy, with_atomic-result}
use django_logic.Message.{
  Status, retrying, stranded, is_uncompleted, occupies, newest, within_budget, newest_activity,
  minutes, retry_window, in_flight_for, lock_found, lock_row, except_operational, worker_holds_row,
  classify, classify_newest, retry_status,
}

some_injective : {a b : ℕ} → some a ≡ some b → a ≡ b
some_injective e = search

-- The arithmetic of the two tests, with the retries' span as `p`.
budget_over :
    (now : ℕ) (started timeout : Option ℕ)
    → within_budget now started timeout ≡ false
    → (a t : ℕ) → started ≡ some a
    → timeout ≡ some t
    → a + t * 1000 + 300000 ≤ now
unfolding within_budget
budget_over now started timeout e a t s b =
    let k : within_budget now (some a) (some t) ≡ false = rw (s, b) at e in ground arith

over_budget :
    (now : ℕ) (started timeout : Option ℕ)
    → ((a t : ℕ) → started ≡ some a → timeout ≡ some t → a + t * 1000 + 300000 ≤ now)
    → within_budget now started timeout ≡ false
unfolding within_budget
over_budget now none timeout f = refl
over_budget now (some a) none f = refl
over_budget now (some a) (some t) f = let k = f a t refl refl in ground arith

span_over :
    (now m p : ℕ)
    → ltb (m + minutes (max p 15)) now ≡ true
    → (m + p * 60000 < now) × (m + 15 * 60000 < now)
span_over now m p e = (ground arith, ground arith)

over_span :
    (now m p : ℕ)
    → (m + p * 60000 < now) × (m + 15 * 60000 < now)
    → ltb (m + minutes (max p 15)) now ≡ true
over_span now m p (e, f) = ground arith

either :
    (now m a q : ℕ)
    → ltb (max m a + q) now ≡ true
    → (ltb (m + q) now ≡ true) × (ltb (a + q) now ≡ true)
either now m a q e = (ground arith, ground arith)

both :
    (now m a q : ℕ) → ltb (m + q) now ≡ true → ltb (a + q) now ≡ true → ltb (max m a + q) now ≡ true
both now m a q e f = ground arith

abbrev span : Settings → ℕ
span s = s.retry_minutes * (s.max_errors + 1)

-- This moment is further back than the retries take together, and than 15 minutes.
abbrev Past : Settings → ℕ → ℕ → Type 0
Past settings now a =
    (a + settings.retry_minutes * (settings.max_errors + 1) * 60000 < now) × (a + 15 * 60000 < now)

-- Nothing is to be expected of the row any more: an attempt that has started with a timeout is
-- further back than that timeout and five minutes of slack, and the last write and the start are
-- past.
pub record IsLost (settings : Settings) (row : Message) (now : ℕ) : Type 0 where
  pub overran :
      (a t : ℕ)
      → row.started_at ≡ some a
      → row.timeout_seconds ≡ some t
      → a + t * 1000 + 300000 ≤ now
  pub idle : Past settings now row.modified
  pub since_start : (a : ℕ) → row.started_at ≡ some a → Past settings now a

module _ {d : Django} where
  stale-Past :
      (w : World d) (m : ℕ) (started : Option ℕ)
      → ltb (newest_activity m started + minutes (retry_window d.settings)) w.now ≡ true
      → Past d.settings w.now m × ((a : ℕ) → started ≡ some a → Past d.settings w.now a)
  stale-Past w m none e = (span_over w.now m (span d.settings) e, λ a k. cc k)
  stale-Past w m (some b) e =
      let (x, y) = either w.now m b (minutes (max (span d.settings) 15)) e in
      (
        span_over w.now m (span d.settings) x,
        λ a k.
            subst (Past d.settings w.now) (some_injective k)
              (span_over w.now b (span d.settings) y),
      )

  Past-stale :
      (w : World d) (m : ℕ) (started : Option ℕ)
      → Past d.settings w.now m
      → ((a : ℕ) → started ≡ some a → Past d.settings w.now a)
      → ltb (newest_activity m started + minutes (retry_window d.settings)) w.now ≡ true
  Past-stale w m none e f = over_span w.now m (span d.settings) e
  Past-stale w m (some b) e f =
      both w.now m b (minutes (max (span d.settings) 15)) (over_span w.now m (span d.settings) e)
        (over_span w.now b (span d.settings) (f b refl))

  pub in_flight_for-eq :
      (i : ℕ) (p : Name) (w : World d)
      → IsHealthy w
      → in_flight_for i p w ≡ (ok (filter (occupies i p) (sees w).rows), w)
  unfolding in_flight_for
  in_flight_for-eq i p w h = rw (query-healthy w h)

  pub retry_status-none :
      (i : ℕ) (p : Name) (w : World d)
      → IsHealthy w
      → any (occupies i p) (sees w).rows ≡ false
      → retry_status i p w ≡ (ok none, w)
  unfolding retry_status newest classify_newest
  retry_status-none i p w h e =
      rw (in_flight_for-eq i p w h, filter-any (occupies i p) (sees w).rows e)

  -- The newest row that occupies the instance, if it is inside its budget.
  pub retry_status-retrying :
      (i : ℕ) (p : Name) (w : World d) (row : Message)
      → IsHealthy w
      → newest (filter (occupies i p) (sees w).rows) ≡ some row
      → within_budget w.now row.started_at row.timeout_seconds ≡ true
      → retry_status i p w ≡ (ok (some retrying), w)
  unfolding retry_status classify_newest classify
  retry_status-retrying i p w row h e b = rw (in_flight_for-eq i p w h, e, b)

  module _ (row : Message) (w : World d) (h : IsHealthy w)
      (there : find (is_uncompleted row.pk) (sees w).rows ≡ some row) where
    pub probed :
        (held : Bool)
        → d.row_locked row.pk (entered w).conn ≡ held
        → lock_row row.pk (entered w)
          ≡ ((if held then err operational_error else ok (some row)), entered w)
    unfolding lock_row lock_found
    probed true e =
        rw (query-healthy (entered w) (rw (sees-entered w h) h), sees-entered w h, there, e)
    probed false e =
        rw (query-healthy (entered w) (rw (sees-entered w h) h), sees-entered w h, there, e)

    -- The block of the probe.
    unfoldable pub asks : M d Bool
    unfolding lock_row
    asks = lock_row row.pk >> pure false

    pub asked :
        (held : Bool)
        → d.row_locked row.pk (entered w).conn ≡ held
        → asks (entered w) ≡ ((if held then err operational_error else ok false), entered w)
    unfolding asks
    asked true e = rw (probed true e)
    asked false e = rw (probed false e)

    pub worker_holds_row-held :
        (held : Bool)
        → d.row_locked row.pk (entered w).conn ≡ held
        → (worker_holds_row row.pk w).0 ≡ ok held
    unfolding worker_holds_row asks
    worker_holds_row-held true e =
        let k = with_atomic-result asks w (entered w) (err operational_error) (asked true e) in
        ap (λ r. (handled r (except_operational true) (with_atomic asks w).1).0) k
    worker_holds_row-held false e =
        let k = with_atomic-result asks w (entered w) (ok false) (asked false e) in
        ap (λ r. (handled r (except_operational true) (with_atomic asks w).1).0) k

    -- The row's newest activity is further back than the retry window.
    abbrev pub is_stale : Bool
    is_stale =
        ltb (newest_activity row.modified row.started_at + minutes (retry_window d.settings)) w.now

    module _ (i : ℕ) (p : Name)
        (first : newest (filter (occupies i p) (sees w).rows) ≡ some row) where
      pub classified :
          (x : Status) → (classify row w).0 ≡ ok x → (retry_status i p w).0 ≡ ok (some x)
      unfolding retry_status classify_newest
      classified x e = rw (in_flight_for-eq i p w h, first, e)

      classify-stale :
          (held : Bool)
          → within_budget w.now row.started_at row.timeout_seconds ≡ false
          → is_stale ≡ true
          → d.row_locked row.pk (entered w).conn ≡ held
          → (classify row w).0 ≡ ok (if held then retrying else stranded)
      unfolding classify
      classify-stale held b stale e = rw (b, stale, worker_holds_row-held held e)

      classify-fresh :
          within_budget w.now row.started_at row.timeout_seconds ≡ false
          → is_stale ≡ false
          → (classify row w).0 ≡ ok retrying
      unfolding classify
      classify-fresh b fresh = rw (b, fresh)

      -- The status of an instance and process whose newest uncompleted row is `row`: it is stranded if
      -- it `IsLost` and no worker holds it, and is being retried otherwise.
      pub retry_status-classifies :
          (held : Bool)
          → d.row_locked row.pk (entered w).conn ≡ held
          → ((retry_status i p w).0 ≡ ok (some stranded))
              × IsLost d.settings row w.now
              × (held ≡ false)
            ⊎ ((retry_status i p w).0 ≡ ok (some retrying))
              × ¬ (IsLost d.settings row w.now × (held ≡ false))
      retry_status-classifies held e =
          elim (Bool-cases (within_budget w.now row.started_at row.timeout_seconds)) [
            | inl b ↦ inr (
              ap (λ x. x.0) (retry_status-retrying i p w row h first b),
              λ l. cc (b, over_budget w.now row.started_at row.timeout_seconds l.0.overran),
            )
            | inr b ↦ elim (Bool-cases is_stale) [
              | inr fresh ↦ inr (
                classified retrying (classify-fresh b fresh),
                λ l. cc (fresh, Past-stale w row.modified row.started_at l.0.idle l.0.since_start),
              )
              | inl stale ↦
                  let lost : IsLost d.settings row w.now =
                    let (idle, unstarted) = stale-Past w row.modified row.started_at stale in
                    record {
                      overran = budget_over w.now row.started_at row.timeout_seconds b;
                      idle = idle;
                      since_start = unstarted;
                    } in
                  elim (Bool-cases held) [
                    | inl k ↦ inr (
                      classified retrying (classify-stale true b stale (e ∙ k)),
                      λ l. cc (k, l.1),
                    )
                    | inr k ↦
                        inl (classified stranded (classify-stale false b stale (e ∙ k)), lost, k)
                  ]
            ]
          ]
