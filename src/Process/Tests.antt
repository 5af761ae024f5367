-- ===== src/Process/Tests.antt =====
-- The walks and the validation of three process classes.
use django_logic.Prelude.{ℕ, ◌≡◌, ◌↔◌, refl, true, none, [], ◌∷◌, elem, Nodup, arith}
use django_logic.Errors.{transition_not_allowed, no_transition}
use django_logic.Exec.{ok, err}
use django_logic.State.{get_state}
use django_logic.Transition.{is_valid}
use django_logic.Process.Tree.{Walk, Reaches, iter_process_tree}
use django_logic.Process.Reached.{iter_process_tree_lem}
use django_logic.Process.Validation.{background_names, validate_unique_background_action_names_lem}
use django_logic.Process.{
  is_available, is_closed, check_not_shadowed, process_is_valid, own_transitions, check_unique,
  validate_action_names_not_shadowed, iter_available_with_owner, nested, transitions_of, tree,
  validate_unique_background_action_names, init_subclass, resolve_transition_with_owner,
}
use django_logic.Sample.Site.{invoice}
use django_logic.Sample.Tree.{program, all_classes, program-IsFinite, idle}

-- Each class once, in spite of the cycle.
tree_lem : tree program 0 ≡ ok (0 ∷ 1 ∷ 2 ∷ [])
unfolding tree iter_process_tree
tree_lem = refl

init_subclass_lem : init_subclass program 0 ≡ ok tt
unfolding init_subclass validate_unique_background_action_names validate_action_names_not_shadowed
    tree iter_process_tree check_unique check_not_shadowed
init_subclass_lem = refl

iter_process_tree_lem_example :
    (w : Walk) × (iter_process_tree (nested program) 10 0 [] ≡ ok w)
    × Nodup w.0
    × ((c : ℕ) → (elem c w.0 ≡ true) ↔ Reaches (nested program) 0 c)
iter_process_tree_lem_example =
    iter_process_tree_lem (nested program) all_classes program-IsFinite.closed 10 0 (omega arith)
      refl

validate_unique_background_action_names_lem_example :
    (validate_unique_background_action_names program 0 ≡ ok tt)
    ↔ ((c : ℕ) → Reaches (nested program) 0 c → Nodup (background_names (transitions_of program c)))
validate_unique_background_action_names_lem_example =
    validate_unique_background_action_names_lem program all_classes 0 program-IsFinite

unresolved :
    (resolve_transition_with_owner program invoice none 8 0 idle).0
    ≡ err (transition_not_allowed no_transition)
unfolding resolve_transition_with_owner iter_available_with_owner own_transitions process_is_valid
    is_closed is_available get_state is_valid
unresolved = refl
