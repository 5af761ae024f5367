-- ===== src/Configuration/Tests.antt =====
-- Settings as a deployment may write them.
use django_logic.Prelude.{ℕ, ◌≤◌, ◌≡◌, refl, true, false, arith}
use django_logic.Errors.{improperly_configured, type_error}
use django_logic.Exec.{ok, err}
use django_logic.Values.{text_eq, codes, pos, Value, bool, int, text, list, nil, dict, end, entry}
use django_logic.Configuration.{
  validate_core_settings, validate_bool, ltb, validated_number, Floats, Surroundings, Mode,
  background_execution, default_queue, max_errors, retry_minutes, cleanup_days, check_mode,
  validate_on_ready, is_below,
}
use django_logic.Configuration.Boot.{validate_on_ready-readers}

truncate_ge : (x n : ℕ) → ltb x n ≡ false → n ≤ x
truncate_ge x n h = ground arith

-- Floats that are whole numbers.
abbrev floats : Floats
floats = record {
  is_integer = λ x. true;
  lt = ltb;
  is_positive = ltb 0;
  truncate = λ x. x;
  truncate_ge = λ x n _ h. truncate_ge x n h;
}

abbrev production : Surroundings
production = record { is_sqlite = false; is_local_cache = false; debug = false }

abbrev three_errors : Value
three_errors = dict (entry (text (codes "TRANSITION_MESSAGE_MAX_ERRORS")) (int (pos 3)) end)

accepted : validate_on_ready floats production three_errors ≡ ok tt
unfolding validate_on_ready background_execution default_queue max_errors retry_minutes cleanup_days
    validated_number validate_bool validate_core_settings
accepted = refl

validate_on_ready-readers_example :
    (mode : Mode) × (queue : Value) × (errors : ℕ) × (retry : Value) × (days : Value)
    × (background_execution three_errors ≡ ok mode)
    × (default_queue three_errors ≡ ok queue)
    × (max_errors floats three_errors ≡ ok (int (pos errors)))
    × (1 ≤ errors)
    × (retry_minutes floats three_errors ≡ ok retry)
    × (is_below floats 0 retry ≡ false)
    × (cleanup_days floats three_errors ≡ ok days)
    × (is_below floats 0 days ≡ false)
    × (check_mode floats production mode ≡ ok tt)
validate_on_ready-readers_example =
    validate_on_ready-readers floats production three_errors accepted

-- `True` is no number, although Python's bool is an int.
bool_refused :
    max_errors floats (dict (entry (text (codes "TRANSITION_MESSAGE_MAX_ERRORS")) (bool true) end))
    ≡ err improperly_configured
unfolding max_errors validated_number text_eq
bool_refused = refl

-- A list as the mode is not named as a bad setting: the membership test raises first.
unhashable_mode :
    background_execution (dict (entry (text (codes "BACKGROUND_EXECUTION")) (list nil) end))
    ≡ err type_error
unfolding background_execution
unhashable_mode = refl
