-- ===== src/Sample/Site.antt =====
-- A small site on the in-memory Django: an invoice with a state column, a transition on it that is
-- run at once or by a worker, and a queued row.
use django_logic.Prelude.{Bool, true, false, none, some, List, [], ◌∷◌, ◌==◌, if◌then◌else◌}
use django_logic.Errors.{raised}
use django_logic.Exec.{ok, pure, raise}
use django_logic.Django.{Django, Settings, View, Name, State, Message, blank}
use django_logic.World.{World, M}
use django_logic.Commands.{Accessor}
use django_logic.Transition.{Transition, Kind, transition, background_transition, Call}
use django_logic.Background.Deployment.{Work, Deployment}
use django_logic.Background.Enqueue.{Submission}
use django_logic.Sample.{in_memory}

abbrev pub settings : Settings
settings = record {
  lock_timeout = 7200;
  defer_unlock = true;
  max_errors = 3;
  retry_minutes = 5;
  cleanup_days = 30;
  default_queue = 1;
  sync_mode = false;
  background_installed = true;
}

abbrev pub site : Django
site = in_memory settings (λ m v. v)

-- The states of the invoice.
abbrev pub draft : Name
draft = 1

abbrev pub sending : Name
sending = 2

abbrev pub sent : Name
sent = 3

abbrev pub failed : Name
failed = 4

abbrev pub invoice : State
invoice = record {
  ref = 1;
  attribute = 1;
  instance = 20;
  instance_key = 10;
  process_name = 1;
  field_name = 1;
}

-- Another State object of the same invoice.
abbrev pub other_invoice : State
other_invoice = record {
  ref = 2;
  attribute = 2;
  instance = 20;
  instance_key = 10;
  process_name = 1;
  field_name = 1;
}

-- The table and the state column, outside a transaction or inside one.
abbrev pub seen : List Message → Name → Bool → View
seen rows column inside = record {
  rows = rows;
  columns = λ k. if k == 10 then some column else none;
  hooks = [];
  in_atomic_block = inside;
  needs_rollback = false;
}

abbrev pub start : List Message → Name → Bool → World site
start rows column inside = record {
  cache = λ k. none;
  conn = record { seen = seen rows column inside; refuses = λ k n. none; locked = λ pk. false };
  tokens = λ a. none;
  memory = λ a. column;
  registry = [];
  supply = 5;
  now = 1000000;
}

abbrev pub accessor : Accessor site
accessor = record { available = λ n. pure []; call = λ b n. pure tt }

abbrev pub call : Call site
call = record { kwargs = 9 ∷ []; user = none; process = accessor }

abbrev pub succeeds : M site Unit
succeeds = pure tt

abbrev pub fails : M site Unit
fails = raise (raised 7)

abbrev pub send : Kind → Name → M site Unit → Transition site
send kind in_progress side_effect = record {
  kind = kind;
  action_name = 1;
  target = sent;
  sources = draft ∷ sending ∷ [];
  in_progress_state = in_progress;
  failed_state = failed;
  permissions = [];
  conditions = [];
  side_effects = side_effect ∷ [];
  callbacks = [];
  failure_callbacks = [];
  next_transition = 0;
  queue = none;
  timeout = some 60;
  no_retry_on = [];
}

abbrev pub send_now : M site Unit → Transition site
send_now = send transition 0

abbrev pub send_later : M site Unit → Transition site
send_later = send background_transition sending

abbrev pub queued : Message
queued = record {
  pk = 1;
  is_completed = false;
  errors_count = 0;
  last_error_dt = none;
  last_error_message = blank;
  failure_side_effect_error = [];
  ended_in_failure = false;
  started_at = some 900000;
  completed_at = none;
  duration_ms = none;
  instance = 20;
  process_name = 1;
  field_name = 1;
  transition_name = 1;
  owning_process_class = 1;
  queue_name = 1;
  timeout_seconds = some 60;
  kwargs = [];
  created = 800000;
  modified = 900000;
}

-- The row with two errors behind it, at the last of its attempts.
abbrev pub tried_twice : Message
tried_twice = record queued { errors_count = 2; last_error_dt = some 850000 }

abbrev pub work : M site Unit → Work site
work side_effect = record {
  transition = send_later side_effect;
  state = invoice;
  process = accessor;
}

abbrev pub deployed : M site Unit → Deployment site
deployed side_effect = record { restore = λ m. pure (work side_effect); decode = λ m. pure tt }

abbrev pub submission : Submission site
submission = record { call = call; serialized = ok []; owning_process_class = 1 }
