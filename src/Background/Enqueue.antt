-- ===== src/Background/Enqueue.antt =====
-- background/transitions.py and background/dispatch.py: a background transition is accepted as one
-- uncompleted row, and handed to a worker.
pub mod Acceptance
mod Tests
pub mod Uniqueness
pub mod Admission
use django_logic.Prelude.{
  ℕ, Bool, true, false, not, Option, none, some, List, [], ◌∷◌, ◌++◌, any, elem, truthy,
  if◌then◌else◌,
}
use django_logic.Errors.{
  Error, transition_not_allowed, state_is_locked, rejected, stranded, already_in_progress,
  source_state_changed, integrity_error,
}
use django_logic.Exec.{
  Result, ok, err, pure, raise, gets, ◌>>=◌, ◌>>◌, catch, finally, modify, lift, when, raise_if,
}
use django_logic.Django.{Django, Name, State, Note, blank, Message, notify_workers}
use django_logic.World.{M, query, change_rows}
use django_logic.State.{get_persisted_state, set_state, lock, unlock}
use django_logic.Atomic.{at_commit, with_atomic}
use django_logic.Message.{occupies, is_stranded, retry_status}
use django_logic.Transition.{
  Transition, Call, refuse_engine_param_kwargs, is_valid, ensure_db_state_in_sources,
}
use django_logic.Background.Deployment.{Deployment}
use django_logic.Background.Runner.{run_background_transition}

-- What a caller passes to a background transition: beside the call, the outcome of
-- `serialize_kwargs` on its keyword arguments and the class that declares the transition.
pub record Submission (d : Django) : Type 0 where
  pub call : Call d
  pub serialized : Result (List ℕ)
  pub owning_process_class : Name

abbrev pub queue_or : Name → Option Name → Name
queue_or default none = default
queue_or default (some queue) = if truthy queue then queue else default

module _ {d : Django} where
  -- `get_queue_name`
  abbrev pub get_queue_name : Transition d → Name
  get_queue_name t = queue_or d.settings.default_queue t.queue

  -- The row that `TransitionMessage.objects.create` makes, with the defaults of the model.
  abbrev pub new_row : Transition d → State → Name → List ℕ → ℕ → ℕ → Message
  new_row t s owning_process_class kwargs now pk = record {
    pk = pk;
    is_completed = false;
    errors_count = 0;
    last_error_dt = none;
    last_error_message = blank;
    failure_side_effect_error = [];
    ended_in_failure = false;
    started_at = none;
    completed_at = none;
    duration_ms = none;
    instance = s.instance;
    process_name = s.process_name;
    field_name = s.field_name;
    transition_name = t.action_name;
    owning_process_class = owning_process_class;
    queue_name = get_queue_name t;
    timeout_seconds = t.timeout;
    kwargs = kwargs;
    created = now;
    modified = now;
  }

  -- The insert, under the partial unique constraint `dl_bg_one_uncompleted_per_process`. It waits
  -- for a conflicting transaction of another connection first.
  unfoldable pub create : (ℕ → Message) → M d Message
  unfolding query change_rows occupies
  create row = do
    query
    modify λ w. record w { conn = d.wait (row (d.next_pk w.conn)) w.conn }
    v ← query
    m ← gets (λ w. row (d.next_pk w.conn))
    if any (occupies m.instance m.process_name) v.rows
        then (modify (λ w. record w { conn = d.mark_for_rollback w.conn }) >> raise integrity_error)
        else (change_rows (λ ms. ms ++ m ∷ []) >> pure m)

  abbrev pub except_integrity : Error → M d Message
  except_integrity integrity_error = raise already_in_progress
  except_integrity e = raise e

  -- The block of `_enqueue_atomic`.
  unfoldable pub enqueue_block : Transition d → State → (ℕ → Message) → M d Message
  unfolding create get_persisted_state set_state
  enqueue_block t s row = do
    m ← catch (create row) except_integrity
    current ← get_persisted_state s
    raise_if (not (elem current t.sources)) source_state_changed
    when (truthy t.in_progress_state) (set_state s t.in_progress_state)
    pure m

  unfoldable pub enqueue_atomic : Transition d → State → Submission d → M d Message
  unfolding with_atomic enqueue_block
  enqueue_atomic t s sub = do
    kwargs ← lift sub.serialized
    now ← gets (λ w. w.now)
    with_atomic (enqueue_block t s (new_row t s sub.owning_process_class kwargs now))

  -- `except AlreadyInProgress`: a row that nothing retries is reported as such.
  unfoldable pub except_in_progress : State → Error → M d Message
  unfolding retry_status
  except_in_progress s already_in_progress = do
    status ← retry_status s.instance s.process_name
    raise (if is_stranded status then transition_not_allowed stranded else already_in_progress)
  except_in_progress s e = raise e

  -- What runs under the lock.
  unfoldable pub enqueue_checked : Transition d → State → Submission d → M d Message
  unfolding ensure_db_state_in_sources enqueue_atomic except_in_progress
  enqueue_checked t s sub = do
    ensure_db_state_in_sources t.sources s
    catch (enqueue_atomic t s sub) (except_in_progress s)

  -- The lock is released however that ends.
  unfoldable pub enqueue_locked : Transition d → State → Submission d → M d Message
  unfolding enqueue_checked unlock
  enqueue_locked t s sub = finally (enqueue_checked t s sub) (unlock s)

  -- `change_state` of a background transition, up to `dispatch_transition`.
  unfoldable pub enqueue : Transition d → State → Submission d → M d Message
  unfolding refuse_engine_param_kwargs is_valid lock enqueue_locked
  enqueue t s sub = do
    refuse_engine_param_kwargs sub.call.kwargs
    valid ← is_valid t sub.call.user
    raise_if (not valid) (transition_not_allowed rejected)
    locked ← lock s
    raise_if (not locked) (transition_not_allowed state_is_locked)
    enqueue_locked t s sub

  module _ (deployed : Deployment d) where
    -- Pull mode notifies the workers after commit; sync mode runs the row at once.
    unfoldable pub dispatch_transition : Message → M d Unit
    unfolding run_background_transition at_commit
    dispatch_transition m =
        if d.settings.sync_mode
        then run_background_transition deployed m.pk
        else at_commit notify_workers

    unfoldable pub change_state : Transition d → State → Submission d → M d Unit
    unfolding enqueue dispatch_transition
    change_state t s sub = do m ← enqueue t s sub; dispatch_transition m
