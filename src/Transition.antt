-- ===== src/Transition.antt =====
-- transition.py: the declaration of a transition, and a synchronous run of it.
pub mod Action
mod Tests
pub mod Entry
pub mod Running
pub mod Release
pub mod Failing
pub mod Declaring
pub mod Writes
use django_logic.Prelude.{
  ℕ, Bool, true, false, not, ◌&&◌, ◌||◌, Option, none, some, List, [], ◌∷◌, ◌++◌, map, any, elem,
  truthy, is_some, ltb, ◌==◌, if◌then◌else◌,
}
use django_logic.Errors.{
  Error, transition_not_allowed, state_is_locked, not_a_source, stranded, temporarily_unavailable,
  type_error, improperly_configured,
}
use django_logic.Exec.{Result, ok, err, pure, raise, gets, ◌>>=◌, ◌>>◌, catch, when, raise_if}
use django_logic.Django.{Django, Name, State, OnCommit}
use django_logic.World.{World, M, sees, put_attribute}
use django_logic.State.{get_state, get_persisted_state, set_state, lock, unlock}
use django_logic.Atomic.{at_commit}
use django_logic.Commands.{
  Accessor, note_deferred_unlock, run_in_savepoint, all_hold, permitted, side_effects_execute,
  callbacks_execute, next_transition_execute,
}
use django_logic.Message.{Status, is_stranded, in_flight_for, retry_status}

-- The four classes of transitions.
pub data Kind : Type 0 where
  transition action background_transition background_action : Kind

-- The class attribute `is_background`
abbrev pub is_background : Kind → Bool
is_background transition = false
is_background action = false
is_background background_transition = true
is_background background_action = true

pub record Transition (d : Django) : Type 0 where
  pub kind : Kind
  pub action_name : Name
  pub target : Name
  pub sources : List Name
  pub in_progress_state : Name
  pub failed_state : Name
  pub permissions : List (ℕ → M d Bool)
  pub conditions : List (M d Bool)
  pub side_effects : List (M d Unit)
  pub callbacks : List (M d Unit)
  pub failure_callbacks : List (Error → M d Unit)
  pub next_transition : Name
  pub queue : Option Name
  pub timeout : Option ℕ
  pub no_retry_on : List ℕ

-- The keyword arguments that the constructors refuse beside the fields of the transition: one of
-- those removed in 0.14.0, and a bare string for `sources`.
pub record Declaration (d : Django) : Type 0 where
  pub fields : Transition d
  pub has_removed_kwarg : Bool
  pub sources_is_string : Bool

-- `queue is not None and not queue`, and `timeout is not None and timeout <= 0`
abbrev pub is_empty_name : Option Name → Bool
is_empty_name none = false
is_empty_name (some n) = not (truthy n)

-- What `BackgroundTransition.__init__` and `BackgroundAction.__init__` refuse first.
abbrev pub refuses_background : Kind → Name → Option Name → Option ℕ → Bool
refuses_background transition in_progress queue timeout = false
refuses_background action in_progress queue timeout = false
refuses_background background_transition in_progress queue timeout =
    is_empty_name queue || is_empty_name timeout
refuses_background background_action in_progress queue timeout =
    truthy in_progress || (is_empty_name queue || is_empty_name timeout)

-- An action is built with `target=''`.
abbrev pub target_of : Kind → Name → Name
target_of transition target = target
target_of action target = 0
target_of background_transition target = target
target_of background_action target = 0

-- `if self.in_progress_state and self.in_progress_state not in self.sources: append`
abbrev pub with_source : Name → List Name → List Name
with_source in_progress sources =
    if truthy in_progress && not (elem in_progress sources)
    then sources ++ in_progress ∷ []
    else sources

module _ {d : Django} where
  -- `__init__` of the four classes
  unfoldable pub init : Declaration d → Result (Transition d)
  init c =
      let t = c.fields in
      let made : Transition d = record t {
        sources = with_source t.in_progress_state t.sources;
        target = target_of t.kind t.target;
      } in
      if refuses_background t.kind t.in_progress_state t.queue t.timeout
      then err improperly_configured
      else (if c.has_removed_kwarg || c.sources_is_string
          then err improperly_configured
          else (if truthy t.in_progress_state && not (is_background t.kind)
              then err improperly_configured
              else (if truthy t.failed_state && (t.failed_state == t.in_progress_state)
                  then err improperly_configured
                  else ok made)))

-- What a caller passes: the names of the keyword arguments, the user, and the bound process.
pub record Call (d : Django) : Type 0 where
  pub kwargs : List Name
  pub user : Option ℕ
  pub process : Accessor d

-- `_ENGINE_PARAM_KWARGS`: 'state', 'exception', 'deferrable'
abbrev pub engine_param_kwargs : List Name
engine_param_kwargs = 1 ∷ 2 ∷ 3 ∷ []

module _ {d : Django} where
  unfoldable pub refuse_engine_param_kwargs : List Name → M d Unit
  refuse_engine_param_kwargs kwargs =
      raise_if (any (λ k. elem k engine_param_kwargs) kwargs) type_error

  unfoldable pub is_valid : Transition d → Option ℕ → M d Bool
  unfolding permitted all_hold
  is_valid t user = do
    allowed ← permitted t.permissions user
    if allowed then all_hold t.conditions else pure false

  unfoldable pub ensure_db_state_in_sources : List Name → State → M d Unit
  unfolding get_persisted_state
  ensure_db_state_in_sources sources s = do
    db_state ← get_persisted_state s
    raise_if (not (elem db_state sources)) (transition_not_allowed not_a_source)

  -- Whether any uncompleted row of the instance and process exists, stranded or not.
  unfoldable pub background_in_flight : State → M d Bool
  unfolding in_flight_for
  background_in_flight s =
      if d.settings.background_installed
      then (do rows ← in_flight_for s.instance s.process_name; pure (any (λ _. true) rows))
      else pure false

  abbrev pub refuse_status : Option Status → M d Unit
  refuse_status none = pure tt
  refuse_status (some status) =
      if is_stranded (some status)
      then raise (transition_not_allowed stranded)
      else raise temporarily_unavailable

  unfoldable pub ensure_no_background_in_flight : State → M d Unit
  unfolding retry_status
  ensure_no_background_in_flight s =
      if d.settings.background_installed
      then (do status ← retry_status s.instance s.process_name; refuse_status status)
      else pure tt

  -- `_release_lock`: now, or at commit where a state was written inside an open transaction.
  unfoldable pub release_lock : State → Bool → M d Unit
  unfolding unlock at_commit note_deferred_unlock
  release_lock s deferrable = do
    inside ← gets (λ w. (sees w).in_atomic_block)
    if deferrable && (d.settings.defer_unlock && inside)
        then (at_commit (OnCommit.unlock s) >> note_deferred_unlock s)
        else unlock s

  -- `previous = get_state(); try: _run_in_savepoint(set_state, require_commit=True)`, which puts
  -- the attribute back where that raises: the exception, or `none` where the state was written.
  unfoldable pub write_in_savepoint : State → Name → M d (Option Error)
  unfolding get_state run_in_savepoint set_state put_attribute
  write_in_savepoint s n = do
    previous ← get_state s
    let write = run_in_savepoint true (set_state s n) >> pure none
    catch write (λ e. put_attribute s previous >> pure (some e))

  unfoldable pub complete_transition : Transition d → State → Call d → M d Unit
  unfolding set_state release_lock callbacks_execute next_transition_execute
  complete_transition t s call = do
    catch (set_state s t.target) (λ e. release_lock s false >> raise e)
    release_lock s true
    callbacks_execute t.callbacks
    next_transition_execute call.process t.next_transition

  -- Whether `failed_state` is declared and was written.
  unfoldable pub write_failed_state : Transition d → State → M d Bool
  unfolding write_in_savepoint
  write_failed_state t s =
      if truthy t.failed_state
      then (do refused ← write_in_savepoint s t.failed_state; pure (not (is_some refused)))
      else pure false

  -- `self.failure_callbacks.execute(state, exception=exception)`
  abbrev pub failure_callbacks_of : Transition d → Error → List (M d Unit)
  failure_callbacks_of t e = map (λ c. c e) t.failure_callbacks

  unfoldable pub fail_transition : Transition d → State → Error → M d Unit
  unfolding write_failed_state release_lock callbacks_execute
  fail_transition t s error = do
    wrote_state ← catch (write_failed_state t s) (λ e. release_lock s false >> raise e)
    release_lock s wrote_state
    callbacks_execute (failure_callbacks_of t error)

  -- The two checks under the lock; a raise releases it.
  unfoldable pub revalidate : Transition d → State → M d Unit
  unfolding unlock ensure_db_state_in_sources ensure_no_background_in_flight
  revalidate t s =
      catch (ensure_db_state_in_sources t.sources s >> ensure_no_background_in_flight s)
        (λ e. unlock s >> raise e)

  unfoldable pub change_state : Transition d → State → Call d → M d Unit
  unfolding refuse_engine_param_kwargs lock revalidate side_effects_execute complete_transition
      fail_transition
  change_state t s call = do
    refuse_engine_param_kwargs call.kwargs
    locked ← lock s
    raise_if (not locked) (transition_not_allowed state_is_locked)
    revalidate t s
    side_effects_execute t.side_effects (complete_transition t s call) (fail_transition t s)
