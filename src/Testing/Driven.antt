-- ===== src/Testing/Driven.antt =====
-- testing/driven.py: the record of the transitions that a test suite drives. A block wraps the call
-- of a transition by its name, which every drive passes.
pub mod History
mod Tests
use django_logic.Prelude.{
  ℕ, Bool, true, false, not, List, [], ◌∷◌, map, filter, elem, flat_map, sorted_set, if◌then◌else◌,
}
use django_logic.Errors.{Error, transition_not_allowed, is_temporarily_unavailable}
use django_logic.Exec.{Result, ok, err}
use django_logic.Results.{◌>>=◌}
use django_logic.Django.{Django, Name}
use django_logic.World.{World, M}
use django_logic.Process.{Program, name_of, transitions_of, tree}

-- `isinstance(error, TransitionNotAllowed)`
unfoldable pub is_transition_not_allowed : Error → Bool
unfolding is_temporarily_unavailable
is_transition_not_allowed (transition_not_allowed reason) = true
is_transition_not_allowed e = is_temporarily_unavailable e

-- A call that was refused has driven nothing; one that returned or raised something else has.
abbrev pub is_driven : Result (Unit {0}) → Bool
is_driven (ok _) = true
is_driven (err e) = not (is_transition_not_allowed e)

module _ {d : Django} where
  -- `recording` around `original`, with `record.action_names` before and after it.
  unfoldable pub recording :
      Name → M d Unit → List Name × World d → Result (Unit {0}) × (List Name × World d)
  recording action_name original (names, w) =
      let (r, w') = original w in (r, (if is_driven r then action_name ∷ names else names, w'))

  -- `undriven`
  unfoldable pub undriven : Program d → ℕ → List Name → Result (List Name)
  undriven program root names = do
    cs ← tree program root
    ok (
        sorted_set (
          filter (λ n. not (elem n names))
            (flat_map (λ c. map name_of (transitions_of program c)) cs)))
