-- ===== src/Django/Data.antt =====
-- The data that the engine hands to Django: names, State objects, on-commit callables and the
-- columns of `TransitionMessage` (background/models.py), and the DJANGO_LOGIC settings.
use django_logic.Prelude.{ℕ, Bool, Option, List}
use django_logic.Errors.{Error}

-- States, actions, processes and queues are only compared and tested for truth: 0 is `None` or ''.
abbrev pub Name : Type 0
Name = ℕ

-- `class State`. `ref` is the object's identity, `attribute` the attribute `field_name` of the
-- instance in memory, `instance` the row (app label, model name, primary key), and `instance_key`
-- names the state column of that row; the cache key is its hash, taken as injective.
pub record State : Type 0 where
  pub ref : ℕ
  pub attribute : ℕ
  pub instance : ℕ
  pub instance_key : ℕ
  pub process_name : Name
  pub field_name : Name

-- The callables that the engine gives to `transaction.on_commit`.
pub data OnCommit : Type 0 where
  unlock : State → OnCommit
  clear_deferred notify_workers : OnCommit

-- The texts written to `last_error_message` and `failure_side_effect_error`.
pub data Note : Type 0 where
  blank superseded unrestorable crashed : Note
  text : Error → Note

pub record Message : Type 0 where
  pub pk : ℕ
  pub is_completed : Bool
  pub errors_count : ℕ
  pub last_error_dt : Option ℕ
  pub last_error_message : Note
  pub failure_side_effect_error : List Note
  pub ended_in_failure : Bool
  pub started_at : Option ℕ
  pub completed_at : Option ℕ
  pub duration_ms : Option ℕ
  pub instance : ℕ
  pub process_name : Name
  pub field_name : Name
  pub transition_name : Name
  pub owning_process_class : Name
  pub queue_name : Name
  pub timeout_seconds : Option ℕ
  pub kwargs : List ℕ
  pub created : ℕ
  pub modified : ℕ

-- The settings that the modelled code reads. `defer_unlock` is DEFER_UNLOCK_UNTIL_COMMIT.
pub record Settings : Type 0 where
  pub lock_timeout : ℕ
  pub defer_unlock : Bool
  pub max_errors : ℕ
  pub retry_minutes : ℕ
  pub cleanup_days : ℕ
  pub default_queue : Name
  pub sync_mode : Bool
  pub background_installed : Bool
