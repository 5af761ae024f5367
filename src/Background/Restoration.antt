-- ===== src/Background/Restoration.antt =====
-- background/runner.py: how a worker finds the process and the transition of a row, `_restore` and
-- `_find_transition`.
pub mod Owner
pub mod Fallback
mod Tests
use django_logic.Prelude.{
  ℕ, Bool, true, false, not, ◌&&◌, Option, none, some, List, [], ◌∷◌, ◌++◌, elem, find, truthy,
  ◌==◌, if◌then◌else◌,
}
use django_logic.Errors.{restore_error}
use django_logic.Exec.{Result, ok, err}
use django_logic.Results.{◌>>=◌, ◌>>◌, refuse_if}
use django_logic.Django.{Django, Name, Message}
use django_logic.Process.{
  Declared, ProcessClass, Program, name_of, in_background, transitions_of, tree,
}

module _ {d : Django} where
  -- `transition.action_name == action_name and is_background`
  abbrev pub is_candidate : Name → Declared d → Bool
  is_candidate action_name t = (name_of t == action_name) && in_background t

  -- The candidates among the transitions of one class that are not seen, each object once.
  unfoldable pub named_in : Name → List ℕ → List (Declared d) → List (Declared d) × List ℕ
  named_in action_name seen [] = ([], seen)
  named_in action_name seen (t ∷ ts) =
      let kept = named_in action_name (t.ref ∷ seen) ts in
      let skipped = named_in action_name seen ts in
      if is_candidate action_name t && not (elem t.ref seen) then (t ∷ kept.0, kept.1) else skipped

-- What the app registry, the database and the import system answer for a row: whether its model is
-- installed, whether its instance exists, the class of the process that the attribute
-- `process_name` gives, the class that a dotted path loads, or an exception, and `process_class`
-- among the row's keyword arguments.
pub record Answers : Type 0 where
  pub installed : Message → Bool
  pub exists : Message → Bool
  pub attribute : Message → Option ℕ
  pub load : Name → Result ℕ
  pub process_class : Message → Name

module _ {d : Django} (program : Program d) where
  -- The loop of `_find_background_transition_in_owner`: the first class of the path decides.
  unfoldable pub find_in_path : Name → Name → List ℕ → Option (Declared d)
  find_in_path action_name path [] = none
  find_in_path action_name path (c ∷ cs) =
      let rest = find_in_path action_name path cs in
      if (program.classes c).path == path
      then find (is_candidate action_name) (transitions_of program c)
      else rest

  unfoldable pub find_background_transition_in_owner :
      ℕ → Name → Name → Result (Option (Declared d))
  find_background_transition_in_owner root action_name owning_path = do
    cs ← tree program root
    ok (find_in_path action_name owning_path cs)

  -- The loops of `_background_transitions_named`.
  unfoldable pub named : Name → List ℕ → List ℕ → List (Declared d)
  unfolding named_in
  named action_name seen [] = []
  named action_name seen (c ∷ cs) =
      let own = named_in action_name seen (transitions_of program c) in
      own.0 ++ named action_name own.1 cs

  unfoldable pub background_transitions_named : ℕ → Name → Result (List (Declared d))
  background_transitions_named root action_name = do
    cs ← tree program root
    ok (named action_name [] cs)

  abbrev pub only_match : List (Declared d) → Result (Option (Declared d))
  only_match [] = ok none
  only_match (t ∷ []) = ok (some t)
  only_match (t ∷ _ ∷ _) = err restore_error

  unfoldable pub find_by_name : ℕ → Name → Result (Option (Declared d))
  find_by_name root action_name = do
    matches ← background_transitions_named root action_name
    only_match matches

  abbrev pub or_by_name : ℕ → Name → Option (Declared d) → Result (Option (Declared d))
  or_by_name root action_name none = find_by_name root action_name
  or_by_name root action_name (some t) = ok (some t)

  -- `_find_transition`
  unfoldable pub find_transition : ℕ → Name → Name → Result (Option (Declared d))
  find_transition root action_name owning_path =
      if truthy owning_path
      then (do
        found ← find_background_transition_in_owner root action_name owning_path
        or_by_name root action_name found)
      else find_by_name root action_name

  module _ (answers : Answers) (message : Message) where
    abbrev pub or_restore_error : Result ℕ → Result ℕ
    or_restore_error (ok c) = ok c
    or_restore_error (err e) = err restore_error

    -- `_load_process_from_path` as `_restore` calls it: a row without a field name and any exception
    -- of the import give `_RestoreError`.
    unfoldable pub load_process : Result ℕ
    load_process = or_restore_error do
      c ← answers.load (answers.process_class message)
      refuse_if (not (truthy message.field_name)) restore_error
      ok c

    -- The class of the process: the recorded one wins over the one that the attribute gives.
    abbrev pub process_of : Option ℕ → Result ℕ
    process_of none =
        if truthy (answers.process_class message) then load_process else err restore_error
    process_of (some c) =
        if truthy (answers.process_class message)
          && not ((program.classes c).path == answers.process_class message)
        then load_process
        else ok c

    abbrev pub or_not_found : Option (Declared d) → Result (Declared d)
    or_not_found none = err restore_error
    or_not_found (some t) = ok t

    -- `_restore`, as the class of the process and the transition.
    unfoldable pub restore : Result (ℕ × Declared d)
    restore = do
      refuse_if (not (answers.installed message)) restore_error
      refuse_if (not (answers.exists message)) restore_error
      c ← process_of (answers.attribute message)
      found ← find_transition c message.transition_name message.owning_process_class
      t ← or_not_found found
      ok (c, t)
