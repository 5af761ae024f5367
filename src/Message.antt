-- ===== src/Message.antt =====
-- background/models.py: the operations of `TransitionMessage`, the durable record of a background
-- transition. An operation on an instance of the model returns the object with its new fields;
-- times are in milliseconds.
pub mod Rows
pub mod Classification
pub mod Probing
pub mod Stamping
mod Tests
use django_logic.Prelude.{
  ℕ, ◌+◌, ◌-◌, ◌*◌, max, Bool, true, false, not, ◌&&◌, Option, none, some, List, [], ◌∷◌, ◌++◌, map,
  any, find, filter, ltb, ◌==◌, is_some, if◌then◌else◌,
}
use django_logic.Errors.{Error, operational_error, database_error, does_not_exist}
use django_logic.Exec.{pure, raise, gets, ◌>>=◌, ◌>>◌, catch, modify}
use django_logic.Django.{Django, Name, Settings, superseded, text, Message}
use django_logic.World.{M, query, change_rows}
use django_logic.Atomic.{with_atomic}

-- The filter of `in_flight_for`, which is also the key of the partial unique constraint
-- `dl_bg_one_uncompleted_per_process`.
unfoldable pub occupies : ℕ → Name → Message → Bool
occupies instance process_name m =
    m.instance == instance && (m.process_name == process_name && not m.is_completed)

-- `filter(pk=pk, is_completed=False)`
abbrev pub is_uncompleted : ℕ → Message → Bool
is_uncompleted pk m = m.pk == pk && not m.is_completed

pub data Status : Type 0 where
  retrying stranded : Status

abbrev pub is_stranded : Option Status → Bool
is_stranded none = false
is_stranded (some retrying) = false
is_stranded (some stranded) = true

abbrev pub is_retrying : Option Status → Bool
is_retrying none = false
is_retrying (some retrying) = true
is_retrying (some stranded) = false

-- Minutes and seconds in milliseconds, and `RETRY_SLACK`.
abbrev pub minutes : ℕ → ℕ
minutes n = n * 60000

abbrev pub seconds : ℕ → ℕ
seconds n = n * 1000

abbrev pub retry_slack : ℕ
retry_slack = 300000

-- `order_by('-modified').first()`: of rows modified at the same time, the first.
abbrev later : Message → Option Message → Option Message
later m none = some m
later m (some rest) = if ltb m.modified rest.modified then some rest else some m

unfoldable pub newest : List Message → Option Message
newest [] = none
newest (m ∷ ms) = later m (newest ms)

-- A running attempt that is inside its declared budget.
unfoldable pub within_budget : ℕ → Option ℕ → Option ℕ → Bool
within_budget now (some started) (some timeout) = ltb now (started + seconds timeout + retry_slack)
within_budget now (some started) none = false
within_budget now none timeout = false

-- `max(t for t in (modified, started) if t is not None)`
abbrev pub newest_activity : ℕ → Option ℕ → ℕ
newest_activity modified none = modified
newest_activity modified (some started) = max modified started

-- The retry pipeline's whole span, floored at 15 minutes.
abbrev pub retry_window : Settings → ℕ
retry_window settings = max (settings.retry_minutes * (settings.max_errors + 1)) 15

abbrev pub stamp : ℕ → Message → Message
stamp now m = record m { started_at = some now; modified = now }

-- The columns that `mark_as_completed` writes; `duration` is `none` where it is not measured.
abbrev pub complete : ℕ → Bool → Option ℕ → Message → Message
complete now failed duration m = record m {
  is_completed = true;
  completed_at = some now;
  modified = now;
  ended_in_failure = if failed then true else m.ended_in_failure;
  duration_ms = elim duration [ none ↦ m.duration_ms | some ms ↦ some ms ];
}

-- `max(int(delta.total_seconds() * 1000), 0)`: subtraction on ℕ stops at 0.
abbrev pub measured : Bool → Option ℕ → ℕ → Option ℕ
measured false started now = none
measured true none now = none
measured true (some started) now = some (now - started)

abbrev pub count_error : ℕ → Error → Message → Message
count_error now error m = record m {
  errors_count = m.errors_count + 1;
  last_error_message = text error;
  last_error_dt = some now;
  modified = now;
}

module _ {d : Django} where
  unfoldable pub in_flight_for : ℕ → Name → M d (List Message)
  unfolding query
  in_flight_for instance process_name = do
    v ← query
    pure (filter (occupies instance process_name) v.rows)

  -- The row that a locking query found, unless another connection holds it.
  unfoldable pub lock_found : Option Message → M d (Option Message)
  lock_found none = pure none
  lock_found (some m) = do
    held ← gets (λ w. d.row_locked m.pk w.conn)
    if held then raise operational_error else pure (some m)

  -- `select_for_update(nowait=True)` of the uncompleted row `pk`
  unfoldable pub lock_row : ℕ → M d (Option Message)
  unfolding query lock_found
  lock_row pk = query >>= λ v. lock_found (find (is_uncompleted pk) v.rows)

  abbrev pub except_operational : {A : Type 0} → A → Error → M d A
  except_operational a operational_error = pure a
  except_operational a e = raise e

  unfoldable pub worker_holds_row : ℕ → M d Bool
  unfolding with_atomic lock_row
  worker_holds_row pk = catch (with_atomic (lock_row pk >> pure false)) (except_operational true)

  -- The classification of the newest uncompleted row, in the order of the source's tests.
  unfoldable pub classify : Message → M d Status
  unfolding within_budget worker_holds_row
  classify row = do
    now ← gets (λ w. w.now)
    if within_budget now row.started_at row.timeout_seconds
        then pure retrying
        else (if ltb
              (newest_activity row.modified row.started_at + minutes (retry_window d.settings)) now
            then (do
              held ← catch (worker_holds_row row.pk) (λ e. pure false)
              pure (if held then retrying else stranded))
            else pure retrying)

  -- Without an uncompleted row there is no status.
  unfoldable pub classify_newest : Option Message → M d (Option Status)
  unfolding classify
  classify_newest none = pure none
  classify_newest (some row) = classify row >>= λ status. pure (some status)

  unfoldable pub retry_status : ℕ → Name → M d (Option Status)
  unfolding in_flight_for newest classify_newest
  retry_status instance process_name =
      in_flight_for instance process_name >>= λ rows. classify_newest (newest rows)

  -- `objects.filter(p).update(...)`
  unfoldable pub update_rows : (Message → Bool) → (Message → Message) → M d Unit
  unfolding change_rows
  update_rows p f = change_rows (map (λ m. if p m then f m else m))

  unfoldable pub stamp_attempt_started : ℕ → M d Bool
  unfolding with_atomic lock_row update_rows
  stamp_attempt_started pk = do
    now ← gets (λ w. w.now)
    let attempt = with_atomic do
      held ← lock_row pk
      if is_some held
          then (update_rows (is_uncompleted pk) (stamp now) >> pure true)
          else pure false
    catch attempt (except_operational false)

  -- `self.save(update_fields=[...])` of one row; a row that is gone is a database error, raised
  -- under `mark_for_rollback_on_error`.
  unfoldable pub save_row : ℕ → (Message → Message) → M d Unit
  unfolding query update_rows
  save_row pk f = do
    v ← query
    if any (λ m. m.pk == pk) v.rows
        then update_rows (λ m. m.pk == pk) f
        else (modify (λ w. record w { conn = d.mark_for_rollback w.conn }) >> raise database_error)

  unfoldable pub mark_as_completed : Bool → Bool → Message → M d Message
  unfolding save_row
  mark_as_completed measure_duration ended_in_failure self = do
    now ← gets (λ w. w.now)
    let change = complete now ended_in_failure (measured measure_duration self.started_at now)
    save_row self.pk change
    pure (change self)

  unfoldable pub mark_as_superseded : Message → M d Message
  unfolding save_row mark_as_completed
  mark_as_superseded self = do
    now ← gets (λ w. w.now)
    let change = λ (m : Message). record m {
      last_error_message = superseded;
      last_error_dt = some now;
      modified = now;
    }
    save_row self.pk change
    mark_as_completed false false (change self)

  -- The count is raised in the row and read back, so a stale object cannot lose an error.
  unfoldable pub record_error : Error → Message → M d Message
  unfolding query update_rows
  record_error error self = do
    now ← gets (λ w. w.now)
    update_rows (λ m. m.pk == self.pk) (count_error now error)
    v ← query
    elim (find (λ m. m.pk == self.pk) v.rows) [
      | none ↦ raise does_not_exist
      | some row ↦ pure (record self {
        errors_count = row.errors_count;
        last_error_message = text error;
        last_error_dt = some now;
        modified = row.modified;
      })
    ]

  unfoldable pub record_failure_side_effect_error : Error → Message → M d Message
  unfolding save_row
  record_failure_side_effect_error error self = do
    now ← gets (λ w. w.now)
    let notes = self.failure_side_effect_error ++ text error ∷ []
    let change = λ (m : Message). record m { failure_side_effect_error = notes; modified = now }
    save_row self.pk change
    pure (change self)
