-- ===== src/Checks.antt =====
-- checks.py: the system checks over the bound processes, the database routers and the settings.
-- `any(…)` over a process tree is modelled with the walk to its end.
pub mod Background
pub mod Routing
pub mod Settings
mod Tests
use django_logic.Prelude.{
  sorted_set, ℕ, Bool, true, false, not, ◌&&◌, ◌||◌, Option, none, some, List, [], ◌∷◌, ◌++◌, any,
  map, elem, truthy, ltb, ◌==◌, if◌then◌else◌,
}
use django_logic.Exec.{Result, ok, err}
use django_logic.Results.{◌>>=◌}
use django_logic.Django.{Django, Name}
use django_logic.Values.{Text, codes, Value, null, dict, Entries, end, entry, is_text, has, text_eq}
use django_logic.Process.{Program, in_background, transitions_of, tree}
use django_logic.Process.Hooks.{Attributes, Offender, collect_hook_signature_offenders}
use django_logic.Process.Binding.{Binding}

-- What a check reports, by its id: W001 with the model, the process class and the offender; E003 with
-- the labels; E002 for the message table with its write and read alias, and for a model with its
-- write alias; W003 with the removed key; W004 with the unknown keys.
pub data Finding : Type 0 where
  hook_signature : ℕ → ℕ → Offender → Finding
  app_missing : List Name → Finding
  messages_routed : Name → Name → Finding
  model_routed : ℕ → Name → Finding
  removed_setting : Text → Finding
  unknown_settings : List Value → Finding

-- `key in seen` for `(binding.model, binding.process_class, offender)`
abbrev pub Reported : Type 0
Reported = (ℕ × ℕ) × Offender

abbrev pub same_action : Option Name → Option Name → Bool
same_action none none = true
same_action (some a) (some b) = a == b
same_action _ _ = false

abbrev pub same_report : Reported → Reported → Bool
same_report ((m, c), o) ((m', c'), o') =
    m == m'
    && (c == c' && (o.hook == o'.hook && (o.owner == o'.owner && same_action o.action o'.action)))

-- The findings of one binding, and what was reported then.
unfoldable pub report : ℕ → ℕ → List Reported → List Offender → List Finding × List Reported
report model process_class seen [] = ([], seen)
report model process_class seen (o ∷ os) =
    let key : Reported = ((model, process_class), o) in
    let (fs, seen') = report model process_class (key ∷ seen) os in
    let repeated = report model process_class seen os in
    if any (same_report key) seen
    then repeated
    else (hook_signature model process_class o ∷ fs, seen')

-- `DEFAULT_DB_ALIAS`
abbrev pub default_alias : Name
default_alias = 1

-- What the routers answer; 0 is None.
pub record Router : Type 0 where
  pub message_write : Name
  pub message_read : Name
  pub db_for_write : ℕ → Name

-- `router.… or DEFAULT_DB_ALIAS`
abbrev pub or_alias : Name → Name
or_alias alias = if truthy alias then alias else default_alias

abbrev pub missing_app : List Name → List Finding
missing_app [] = []
missing_app (a ∷ rest) = app_missing (a ∷ rest) ∷ []

module _ (router : Router) where
  abbrev pub tm_write : Name
  tm_write = or_alias router.message_write

  abbrev pub message_findings : List Finding
  message_findings =
      let tm_read = or_alias router.message_read in
      if not (tm_write == default_alias) || not (tm_read == tm_write)
      then messages_routed tm_write tm_read ∷ []
      else []

  abbrev pub model_findings : ℕ → List Finding
  model_findings model =
      let model_write = or_alias (router.db_for_write model) in
      if model_write == tm_write then [] else model_routed model model_write ∷ []

module _ {d : Django} (program : Program d) where
  unfoldable pub check_hook_signatures :
      Attributes → List Reported → List Binding → Result (List Finding)
  unfolding report collect_hook_signature_offenders
  check_hook_signatures attributes seen [] = ok []
  check_hook_signatures attributes seen (b ∷ bs) = do
    offenders ← collect_hook_signature_offenders attributes program b.process_class
    let (fs, seen') = report b.model b.process_class seen offenders
    rest ← check_hook_signatures attributes seen' bs
    ok (fs ++ rest)

  unfoldable pub process_tree_has_background_transition : ℕ → Result Bool
  process_tree_has_background_transition root = do
    cs ← tree program root
    ok (any (λ c. any in_background (transitions_of program c)) cs)

  -- The labels of the models that are bound to a background transition. Labels are numbers in their
  -- order.
  unfoldable pub background_labels : (ℕ → Name) → List Binding → Result (List Name)
  unfolding process_tree_has_background_transition
  background_labels label [] = ok []
  background_labels label (b ∷ bs) = do
    background ← process_tree_has_background_transition b.process_class
    rest ← background_labels label bs
    ok (if background then label b.model ∷ rest else rest)

  -- `installed` is `apps.is_installed('django_logic.background')`.
  unfoldable pub check_background_app_is_installed :
      Bool → (ℕ → Name) → List Binding → Result (List Finding)
  unfolding background_labels
  check_background_app_is_installed installed label bindings =
      if installed
      then ok []
      else (background_labels label bindings >>= λ labels. ok (missing_app (sorted_set labels)))

  module _ (router : Router) where
    -- The loop over the bindings, with the models that were seen.
    unfoldable pub route_findings : List ℕ → List Binding → Result (List Finding)
    unfolding process_tree_has_background_transition
    route_findings seen [] = ok []
    route_findings seen (b ∷ bs) =
        let skipped = route_findings seen bs in
        let noted = (do
          rest ← route_findings (b.model ∷ seen) bs
          ok (model_findings router b.model ++ rest)) in
        let checked = (do
          background ← process_tree_has_background_transition b.process_class
          if background then noted else skipped) in
        if elem b.model seen then skipped else checked

    unfoldable pub check_background_database_routing : Bool → List Binding → Result (List Finding)
    unfolding route_findings
    check_background_database_routing installed bindings =
        if installed
        then (route_findings [] bindings >>= λ fs. ok (message_findings router ++ fs))
        else ok []

-- `_REMOVED_SETTINGS`, without the advice, and `_KNOWN_SETTINGS`
abbrev pub removed_settings : List Text
removed_settings =
    codes "LOG_KWARGS"
    ∷ codes "LOG_KWARGS_REDACTOR"
    ∷ codes "PHASE2_STATE_GUARD"
    ∷ codes "SENTRY_TRANSACTION_NAMING"
    ∷ codes "PROCESS_CLASS_ALIASES"
    ∷ codes "TRANSITION_COVERAGE_LOG"
    ∷ codes "STARTER_QUEUE"
    ∷ []

abbrev pub known_settings : List Text
known_settings =
    codes "BACKGROUND_EXECUTION"
    ∷ codes "DEFAULT_QUEUE"
    ∷ codes "LEGACY_EXCEPTION_BASE"
    ∷ codes "LOCK_TIMEOUT"
    ∷ codes "DEFER_UNLOCK_UNTIL_COMMIT"
    ∷ codes "STRICT_HOOK_SIGNATURES"
    ∷ codes "STRICT_KWARGS_SERIALIZATION"
    ∷ codes "TRANSITION_MESSAGE_MAX_ERRORS"
    ∷ codes "TRANSITION_MESSAGE_RETRY_MINUTES"
    ∷ codes "TRANSITION_MESSAGE_CLEANUP_DAYS"
    ∷ []

-- `key in _KNOWN_SETTINGS` and the like
abbrev pub one_of : List Text → Value → Bool
one_of names key = any (λ name. is_text name key) names

unfoldable pub removed_in : Entries → List Text → List Finding
removed_in es [] = []
removed_in es (name ∷ names) =
    let rest = removed_in es names in if has name es then removed_setting name ∷ rest else rest

-- `set(conf) - _KNOWN_SETTINGS - set(_REMOVED_SETTINGS)`, in the order of the dictionary
unfoldable pub unknown_in : Entries → List Value
unknown_in end = []
unknown_in (entry key v es) =
    let rest = unknown_in es in
    if one_of known_settings key || one_of removed_settings key then rest else key ∷ rest

abbrev pub unknown_findings : List Value → List Finding
unknown_findings [] = []
unknown_findings (k ∷ ks) = unknown_settings (k ∷ ks) ∷ []

-- A setting that is no dictionary has no findings. `sorted` is the builtin, which raises TypeError
-- where two keys do not compare.
unfoldable pub check_no_unknown_settings :
    (List Value → Result (List Value)) → Value → Result (List Finding)
unfolding removed_in unknown_in text_eq
check_no_unknown_settings sorted (dict es) = do
  unknown ← sorted (unknown_in es)
  ok (removed_in es removed_settings ++ unknown_findings unknown)
check_no_unknown_settings sorted _ = ok []
