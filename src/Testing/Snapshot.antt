-- ===== src/Testing/Snapshot.antt =====
-- testing/snapshot.py, with `latest_message` of testing/runner.py: the part of a snapshot that holds
-- the newest row of a process of the instance, and what `from_snapshot` makes of it.
pub mod Replay
mod Tests
use django_logic.Prelude.{
  ℕ, Bool, true, false, not, ◌&&◌, Option, none, some, List, [], ◌∷◌, filter, truthy, ltb, ◌==◌,
  if◌then◌else◌,
}
use django_logic.Errors.{type_error}
use django_logic.Exec.{Result, ok, err, pure, gets, ◌>>=◌, ◌>>◌}
use django_logic.Results
use django_logic.Django.{Django, Name, Settings, Message, Note}
use django_logic.World.{World, M, query, change_rows}
use django_logic.Values.{
  Value, null, bool, int, float, text, library, opaque, list, tuple, set, frozenset, dict, datetime,
  Values, nil, cons, Entries, end, entry,
}
use django_logic.Serializers.{Python}
use django_logic.Background.Enqueue.{create}

unfoldable mutual
  -- `_jsonable`
  pub jsonable : Python → Value → Result Value
  jsonable py null = ok null
  jsonable py (bool b) = ok (bool b)
  jsonable py (int n) = ok (int n)
  jsonable py (float x) = ok (float x)
  jsonable py (text t) = ok (text t)
  jsonable py (library k n) = ok (text (py.print k n))
  jsonable py (opaque n) = err type_error
  jsonable py (list vs) = Results.◌>>=◌ (jsonable_all py vs) λ js. ok (list js)
  jsonable py (tuple vs) = Results.◌>>=◌ (jsonable_all py vs) λ js. ok (list js)
  jsonable py (set vs) = err type_error
  jsonable py (frozenset vs) = err type_error
  jsonable py (dict es) = Results.◌>>=◌ (jsonable_items py es) λ js. ok (dict js)

  pub jsonable_all : Python → Values → Result Values
  jsonable_all py nil = ok nil
  jsonable_all py (cons v vs) =
      Results.◌>>=◌ (jsonable py v) λ j. Results.◌>>=◌ (jsonable_all py vs) λ js. ok (cons j js)

  pub jsonable_items : Python → Entries → Result Entries
  jsonable_items py end = ok end
  jsonable_items py (entry key v es) =
      Results.◌>>=◌ (jsonable py v)
        λ j. Results.◌>>=◌ (jsonable_items py es) λ js. ok (entry key j js)

-- `data['transition_message']`
pub record Recorded : Type 0 where
  pub transition_name : Name
  pub process_name : Name
  pub field_name : Name
  pub owning_process_class : Name
  pub queue_name : Name
  pub is_completed : Bool
  pub errors_count : ℕ
  pub last_error_message : Note
  pub timeout_seconds : Option ℕ
  pub kwargs : List ℕ
  pub last_error_dt : Value
  pub failure_side_effect_error : List Note
  pub started_at : Value
  pub completed_at : Value
  pub duration_ms : Option ℕ

-- A DateTimeField as an attribute.
abbrev pub datetime_of : Option ℕ → Value
datetime_of none = null
datetime_of (some t) = library datetime t

module _ (py : Python) where
  unfoldable pub record_message : Message → Result Recorded
  unfolding jsonable
  record_message m = Results.◌>>=◌ (jsonable py (datetime_of m.last_error_dt)) λ last_error_dt.
      Results.◌>>=◌ (jsonable py (datetime_of m.started_at)) λ started_at.
        Results.◌>>=◌ (jsonable py (datetime_of m.completed_at)) λ completed_at. ok (record {
          transition_name = m.transition_name;
          process_name = m.process_name;
          field_name = m.field_name;
          owning_process_class = m.owning_process_class;
          queue_name = m.queue_name;
          is_completed = m.is_completed;
          errors_count = m.errors_count;
          last_error_message = m.last_error_message;
          timeout_seconds = m.timeout_seconds;
          kwargs = m.kwargs;
          last_error_dt = last_error_dt;
          failure_side_effect_error = m.failure_side_effect_error;
          started_at = started_at;
          completed_at = completed_at;
          duration_ms = m.duration_ms;
        })

  -- `_restore_dt`, of what `record_message` writes: None, an empty text, or another text.
  unfoldable pub restore_dt : Value → Option ℕ
  restore_dt null = none
  restore_dt (text []) = none
  restore_dt (text (c ∷ t)) = py.parse datetime (text (c ∷ t))
  restore_dt (library datetime t) = some t
  restore_dt _ = none

  -- The row that `from_snapshot` creates, of the instance under a new key.
  unfoldable pub replayed : Settings → ℕ → ℕ → Recorded → ℕ → Message
  unfolding restore_dt
  replayed settings now instance recorded pk = record {
    pk = pk;
    is_completed = recorded.is_completed;
    errors_count = recorded.errors_count;
    last_error_dt = restore_dt recorded.last_error_dt;
    last_error_message = recorded.last_error_message;
    failure_side_effect_error = recorded.failure_side_effect_error;
    ended_in_failure = false;
    started_at = restore_dt recorded.started_at;
    completed_at = restore_dt recorded.completed_at;
    duration_ms = recorded.duration_ms;
    instance = instance;
    process_name = recorded.process_name;
    field_name = recorded.field_name;
    transition_name = recorded.transition_name;
    owning_process_class = recorded.owning_process_class;
    queue_name = if truthy recorded.queue_name then recorded.queue_name else settings.default_queue;
    timeout_seconds = recorded.timeout_seconds;
    kwargs = recorded.kwargs;
    created = now;
    modified = now;
  }

-- The rows of one process of one instance.
abbrev pub is_for : ℕ → Name → Message → Bool
is_for instance process_name m = m.instance == instance && m.process_name == process_name

-- `order_by('-id').first()`
abbrev pub later : Message → Option Message → Option Message
later m none = some m
later m (some rest) = if ltb m.pk rest.pk then some rest else some m

unfoldable pub latest : List Message → Option Message
latest [] = none
latest (m ∷ ms) = later m (latest ms)

module _ {d : Django} where
  unfoldable pub latest_message : ℕ → Name → M d (Option Message)
  latest_message instance process_name = do
    v ← query
    pure (latest (filter (is_for instance process_name) v.rows))

  -- The end of `from_snapshot`: the rows of the process are deleted, and the recorded one created.
  unfoldable pub restore_message : Python → ℕ → Recorded → M d Message
  restore_message py instance recorded = do
    change_rows (filter (λ m. not (is_for instance recorded.process_name m)))
    now ← gets (λ w. w.now)
    create (replayed py d.settings now instance recorded)
