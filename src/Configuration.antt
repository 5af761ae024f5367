-- ===== src/Configuration.antt =====
-- background/settings.py and conf.py: the readers of the DJANGO_LOGIC settings and the validation at
-- boot. `Floats` is what the code uses of Python's floats, and `Surroundings` what it reads of the other
-- Django settings.
mod Tests
pub mod Boot
pub mod Bridge
use django_logic.Prelude.{
  ℕ, ◌≤◌, ◌≡◌, Bool, true, false, not, ◌&&◌, ◌||◌, Option, none, some, [], ◌∷◌, ltb, if◌then◌else◌,
}
use django_logic.Errors.{improperly_configured, type_error}
use django_logic.Exec.{Result, ok, err}
use django_logic.Results.{◌>>=◌, ◌>>◌, refuse_if}
use django_logic.Values.{
  set, text_eq, Text, codes, pos, negsuc, finite, Value, null, bool, int, float, text, dict,
  Entries, end, is_null, is_text, find_entry, get, or_null,
}
use django_logic.Serializers.{hashable}

-- A finite float: whether it is a whole number, whether it is less than an int, whether it is
-- positive, and `int(x)` where it is a whole number that is not negative.
pub record Floats : Type 0 where
  pub is_integer : ℕ → Bool
  pub lt : ℕ → ℕ → Bool
  pub is_positive : ℕ → Bool
  pub truncate : ℕ → ℕ
  pub truncate_ge : (x n : ℕ) → is_integer x ≡ true → lt x n ≡ false → n ≤ truncate x

-- Whether the alias of `TransitionMessage` is SQLite, whether the default cache is per process, and
-- `DEBUG`.
pub record Surroundings : Type 0 where
  pub is_sqlite : Bool
  pub is_local_cache : Bool
  pub debug : Bool

-- `value if present else default`
abbrev pub or_default : Value → Option Value → Value
or_default default none = default
or_default default (some v) = v

-- `_conf().get(key, default)`. The setting is None where it is unset.
unfoldable pub conf : Value → Result Entries
conf null = ok end
conf (dict es) = ok es
conf _ = err improperly_configured

unfoldable pub read : Value → Text → Value → Result Value
unfolding conf
read setting key default = do es ← conf setting; ok (or_default default (find_entry key es))

-- A number that is not a bool, and finite.
abbrev pub is_number : Value → Bool
is_number (int n) = true
is_number (float (finite x)) = true
is_number _ = false

-- `value is True`, and `isinstance(value, bool)`
abbrev pub is_true : Value → Bool
is_true (bool b) = b
is_true _ = false

abbrev pub is_bool : Value → Bool
is_bool (bool b) = true
is_bool _ = false

unfoldable pub validate_bool : Value → Text → Result (Unit {0})
unfolding read
validate_bool setting key = do
  value ← read setting key (bool false)
  refuse_if (not (is_bool value)) improperly_configured

unfoldable pub is_enabled : Value → Text → Result Bool
unfolding read
is_enabled setting key = do value ← read setting key (bool false); ok (is_true value)

-- `strict_kwargs_serialization`, `defer_unlock_until_commit`, `strict_hook_signatures`
unfoldable pub strict_kwargs_serialization : Value → Result Bool
unfolding is_enabled
strict_kwargs_serialization setting = is_enabled setting (codes "STRICT_KWARGS_SERIALIZATION")

unfoldable pub defer_unlock_until_commit : Value → Result Bool
unfolding is_enabled
defer_unlock_until_commit setting = is_enabled setting (codes "DEFER_UNLOCK_UNTIL_COMMIT")

unfoldable pub strict_hook_signatures : Value → Result Bool
unfolding is_enabled
strict_hook_signatures setting = is_enabled setting (codes "STRICT_HOOK_SIGNATURES")

unfoldable pub lock_timeout : Value → Result Value
unfolding read
lock_timeout setting = read setting (codes "LOCK_TIMEOUT") (int (pos 7200))

-- `EXECUTION_SYNC`, `EXECUTION_PULL`
pub data Mode : Type 0 where
  sync pull : Mode

-- A set is no member of a frozenset of texts, which looks it up as a frozenset.
abbrev pub is_set : Value → Bool
is_set (set vs) = true
is_set _ = false

-- The tests on `BACKGROUND_EXECUTION`; the membership test hashes any other value.
abbrev pub mode_of : Value → Result Mode
mode_of value =
    if is_null value
    then ok pull
    else if is_text (codes "celery") value
    then err improperly_configured
    else if not (is_set value || hashable value)
    then err type_error
    else if is_text (codes "pull") value
    then ok pull
    else if is_text (codes "sync") value
    then ok sync
    else err improperly_configured

unfoldable pub background_execution : Value → Result Mode
unfolding conf hashable text_eq
background_execution setting = do es ← conf setting; mode_of (get (codes "BACKGROUND_EXECUTION") es)

-- `isinstance(queue, str) and queue`
abbrev pub is_queue : Value → Bool
is_queue (text []) = false
is_queue (text (c ∷ cs)) = true
is_queue _ = false

unfoldable pub default_queue : Value → Result Value
unfolding read
default_queue setting = do
  queue ← read setting (codes "DEFAULT_QUEUE") (text (codes "django_logic"))
  refuse_if (not (is_queue queue)) improperly_configured
  ok queue

abbrev pub is_string_or_none : Value → Bool
is_string_or_none null = true
is_string_or_none v = is_queue v

module _ (floats : Floats) where
  abbrev pub is_whole : Value → Bool
  is_whole (float (finite x)) = floats.is_integer x
  is_whole _ = true

  -- `value < minimum`
  abbrev pub is_below : ℕ → Value → Bool
  is_below minimum (int (pos n)) = ltb n minimum
  is_below minimum (int (negsuc n)) = true
  is_below minimum (float (finite x)) = floats.lt x minimum
  is_below minimum _ = false

  -- `int(value)`
  abbrev pub to_int : Value → Value
  to_int (float (finite x)) = int (pos (floats.truncate x))
  to_int v = v

  -- The checks of `_validated_number`.
  unfoldable pub checked_number : ℕ → Bool → Value → Result Value
  checked_number minimum integral value = do
    refuse_if (not (is_number value)) improperly_configured
    refuse_if (integral && not (is_whole value)) improperly_configured
    refuse_if (is_below minimum value) improperly_configured
    ok (if integral then to_int value else value)

  unfoldable pub validated_number : Value → Text → Value → ℕ → Bool → Result Value
  unfolding read checked_number
  validated_number setting key default minimum integral = do
    value ← read setting key default
    checked_number minimum integral value

  unfoldable pub max_errors : Value → Result Value
  max_errors setting =
      validated_number setting (codes "TRANSITION_MESSAGE_MAX_ERRORS") (int (pos 5)) 1 true

  unfoldable pub retry_minutes : Value → Result Value
  retry_minutes setting =
      validated_number setting (codes "TRANSITION_MESSAGE_RETRY_MINUTES") (int (pos 2)) 0 false

  unfoldable pub cleanup_days : Value → Result Value
  cleanup_days setting =
      validated_number setting (codes "TRANSITION_MESSAGE_CLEANUP_DAYS") (int (pos 7)) 0 false

  -- `value > 0`
  abbrev pub is_positive : Value → Bool
  is_positive (int (pos n)) = ltb 0 n
  is_positive (float (finite x)) = floats.is_positive x
  is_positive _ = false

  unfoldable pub validate_core_settings : Value → Result (Unit {0})
  unfolding read lock_timeout validate_bool
  validate_core_settings setting = do
    timeout ← lock_timeout setting
    refuse_if (not (is_number timeout && is_positive timeout)) improperly_configured
    validate_bool setting (codes "DEFER_UNLOCK_UNTIL_COMMIT")
    validate_bool setting (codes "STRICT_HOOK_SIGNATURES")
    base ← read setting (codes "LEGACY_EXCEPTION_BASE") null
    refuse_if (not (is_string_or_none base)) improperly_configured

  -- `_reject_sqlite_in_pull_mode` and `_check_lock_cache_in_pull_mode`
  abbrev pub check_mode : Surroundings → Mode → Result (Unit {0})
  check_mode around sync = ok tt
  check_mode around pull = do
    refuse_if around.is_sqlite improperly_configured
    refuse_if (around.is_local_cache && not around.debug) improperly_configured

  unfoldable pub validate_on_ready : Surroundings → Value → Result (Unit {0})
  validate_on_ready around setting = do
    mode ← background_execution setting
    default_queue setting >>= λ _. ok tt
    max_errors setting >>= λ _. ok tt
    retry_minutes setting >>= λ _. ok tt
    cleanup_days setting >>= λ _. ok tt
    validate_bool setting (codes "STRICT_KWARGS_SERIALIZATION")
    validate_core_settings setting
    check_mode around mode
