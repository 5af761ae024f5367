-- ===== src/Background/SafetyNets.antt =====
-- background/safety_nets.py: which rows a worker may take, the watchdog, the stuck finalizer and the
-- cleanup sweep. A time limit is compared by an addition on the other side, so nothing is cut at 0.
pub mod Claimable
pub mod Watchdog
pub mod Cleanup
mod Tests
use django_logic.Prelude.{
  ℕ, ◌+◌, ◌*◌, max, Bool, true, false, not, ◌&&◌, ◌||◌, Option, none, some, List, [], ◌∷◌, map,
  elem, filter, length, ltb, leb, ◌==◌, is_some, if◌then◌else◌,
}
use django_logic.Errors.{Error}
use django_logic.Exec.{Result, ok, err, pure, gets, ◌>>=◌, ◌>>◌, caught}
use django_logic.Django.{Django, Name, Settings, Message}
use django_logic.World.{M, query, change_rows}
use django_logic.Atomic.{with_atomic}
use django_logic.Message.{minutes, seconds, retry_window}
use django_logic.Background.Deployment.{Deployment}
use django_logic.Background.Runner.{run_background_transition}
use django_logic.Background.Finalize.{is_overdue, abandon_timed_out_attempt, finalize_stuck_attempt}

abbrev pub days : ℕ → ℕ
days n = n * 86400000

-- `Q(last_error_dt__isnull=True) | Q(last_error_dt__lt=retry_cutoff)`
abbrev pub is_past_wait : Settings → ℕ → Option ℕ → Bool
is_past_wait settings now none = true
is_past_wait settings now (some error) = ltb (error + minutes settings.retry_minutes) now

abbrev pub in_queues : Option (List Name) → Message → Bool
in_queues none m = true
in_queues (some queues) m = elem m.queue_name queues

-- The filters of `_claimable`.
unfoldable pub is_claimable : Settings → ℕ → Option (List Name) → Message → Bool
is_claimable settings now queues m =
    (not m.is_completed && ltb m.errors_count settings.max_errors)
    && (is_past_wait settings now m.last_error_dt && in_queues queues m)

-- `order_by('created')`
unfoldable pub insert_by_created : Message → List Message → List Message
insert_by_created m [] = m ∷ []
insert_by_created m (n ∷ ns) =
    let further = n ∷ insert_by_created m ns in
    if leb m.created n.created then m ∷ n ∷ ns else further

unfoldable pub order_by_created : List Message → List Message
unfolding insert_by_created
order_by_created [] = []
order_by_created (m ∷ ms) = insert_by_created m (order_by_created ms)

-- `_claimable`
unfoldable pub claimable : Settings → ℕ → Option (List Name) → List Message → List Message
unfolding is_claimable order_by_created
claimable settings now queues rows =
    order_by_created (filter (is_claimable settings now queues) rows)

-- What a loop over rows counts: a call that raises is logged and not counted.
abbrev pub counted : Result Bool → ℕ
counted (ok true) = 1
counted (ok false) = 0
counted (err e) = 0

-- Uncompleted rows of an attempt that has started, with a declared timeout.
abbrev pub is_timed : Message → Bool
is_timed m = not m.is_completed && (is_some m.started_at && is_some m.timeout_seconds)

-- `aggregate(Min('timeout_seconds'))`
abbrev pub least : Option ℕ → Option ℕ → Option ℕ
least none b = b
least (some a) none = some a
least (some a) (some b) = if ltb b a then some b else some a

unfoldable pub min_timeout : List Message → Option ℕ
min_timeout [] = none
min_timeout (m ∷ ms) = least m.timeout_seconds (min_timeout ms)

-- `started_at__lt=now - timedelta(seconds=min_timeout)`
abbrev pub is_under_floor : ℕ → ℕ → Option ℕ → Bool
is_under_floor now shortest none = false
is_under_floor now shortest (some started) = ltb (started + seconds shortest) now

-- A row that no worker has picked up in the whole retry window.
unfoldable pub is_never_started : Settings → ℕ → Message → Bool
is_never_started settings now m =
    (not m.is_completed && not (is_some m.started_at))
    && ltb (m.created + minutes (retry_window settings)) now

unfoldable pub is_stuck : Settings → Message → Bool
is_stuck settings m = not m.is_completed && leb settings.max_errors m.errors_count

-- `order_by('-completed_at', '-pk')`, in which a row without `completed_at` comes first.
abbrev pub is_after : Option ℕ → ℕ → Option ℕ → ℕ → Bool
is_after none pk none pk' = ltb pk' pk
is_after none pk (some b) pk' = true
is_after (some a) pk none pk' = false
is_after (some a) pk (some b) pk' = ltb b a || ((a == b) && ltb pk' pk)

abbrev pub is_newer : Message → Message → Bool
is_newer m n = is_after m.completed_at m.pk n.completed_at n.pk

abbrev pub newer_of : Message → Option Message → Message
newer_of m none = m
newer_of m (some n) = if is_newer n m then n else m

-- The first row in that order.
unfoldable pub first_of : List Message → Option Message
first_of [] = none
first_of (m ∷ ms) = some (newer_of m (first_of ms))

-- The filter of `newest_failed` for the row `outer`.
unfoldable pub is_failure_of : Message → Message → Bool
is_failure_of outer m =
    (m.ended_in_failure && m.is_completed)
    && (m.instance == outer.instance && m.process_name == outer.process_name)

abbrev pub has_pk_of : Option Message → Message → Bool
has_pk_of none m = false
has_pk_of (some n) m = m.pk == n.pk

-- The rows that the sweep deletes.
unfoldable pub is_swept : Settings → ℕ → List Message → Message → Bool
unfolding first_of is_failure_of
is_swept settings now rows m =
    (m.is_completed && ltb (m.modified + days settings.cleanup_days) now)
    && not (m.ended_in_failure && has_pk_of (first_of (filter (is_failure_of m) rows)) m)

module _ {d : Django} (deployed : Deployment d) where
  -- A call for each row, and how many were counted.
  unfoldable pub for_each : (Message → M d Bool) → List Message → M d ℕ
  for_each act [] = pure 0
  for_each act (m ∷ ms) = do
    outcome ← caught (act m)
    rest ← for_each act ms
    pure (counted outcome + rest)

  unfoldable pub run_pending : Option (List Name) → M d ℕ
  unfolding for_each claimable run_background_transition
  run_pending queues = do
    now ← gets (λ w. w.now)
    v ← query
    for_each (λ m. run_background_transition deployed m.pk >> pure true)
        (claimable d.settings now queues v.rows)

  -- The per-row comparison, and the charge of an abandoned attempt.
  unfoldable pub abandon_overdue : ℕ → Message → M d Bool
  unfolding abandon_timed_out_attempt
  abandon_overdue now m =
      if is_overdue now m.started_at m.timeout_seconds
      then abandon_timed_out_attempt deployed m.pk
      else pure false

  abbrev pub scan_under_floor : ℕ → Option ℕ → M d ℕ
  scan_under_floor now none = pure 0
  scan_under_floor now (some shortest) = do
    v ← query
    for_each (abandon_overdue now)
        (filter (λ m. is_timed m && is_under_floor now shortest m.started_at) v.rows)

  unfoldable pub watchdog_stale_attempts : M d ℕ
  unfolding abandon_overdue for_each min_timeout
  watchdog_stale_attempts = do
    now ← gets (λ w. w.now)
    v ← query
    scan_under_floor now (min_timeout (filter is_timed v.rows))

  -- The reported rows are logged; the stuck ones are finalized.
  unfoldable pub detect_stuck_transitions : M d (List Message × ℕ)
  unfolding for_each is_never_started is_stuck finalize_stuck_attempt
  detect_stuck_transitions = do
    now ← gets (λ w. w.now)
    v ← query
    u ← query
    finalized ←
        for_each (λ m. finalize_stuck_attempt deployed m.pk) (filter (is_stuck d.settings) u.rows)
    pure (filter (is_never_started d.settings now) v.rows, finalized)

module _ {d : Django} where
  -- The `DELETE`, with the number of rows that it deletes.
  unfoldable pub delete_rows : (List Message → Message → Bool) → M d ℕ
  unfolding change_rows
  delete_rows swept = do
    v ← query
    change_rows (λ rows. filter (λ m. not (swept rows m)) rows)
    pure (length (filter (swept v.rows) v.rows))

  unfoldable pub cleanup_completed_transitions : M d ℕ
  unfolding with_atomic delete_rows
  cleanup_completed_transitions = do
    now ← gets (λ w. w.now)
    with_atomic (delete_rows (is_swept d.settings now))
