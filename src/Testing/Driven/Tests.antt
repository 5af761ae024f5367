-- ===== src/Testing/Driven/Tests.antt =====
-- A suite that drives one of two actions, and is refused the other.
use django_logic.Prelude.{◌≡◌, refl, List, [], ◌∷◌}
use django_logic.Errors.{transition_not_allowed, no_transition}
use django_logic.Exec.{ok, pure, raise}
use django_logic.Django.{Name}
use django_logic.World.{M}
use django_logic.Process.{tree}
use django_logic.Process.Tree.{iter_process_tree}
use django_logic.Testing.Driven.{undriven, recording, is_transition_not_allowed}
use django_logic.Testing.Driven.History.{drives}
use django_logic.Sample.Site.{site}
use django_logic.Sample.Tree.{program, idle}

abbrev suite : List (Name × M site Unit)
suite = (1, pure tt) ∷ (3, raise (transition_not_allowed no_transition)) ∷ []

missed_lem : undriven program 0 (drives suite ([], idle)).0 ≡ ok (3 ∷ [])
unfolding undriven drives recording tree iter_process_tree is_transition_not_allowed
missed_lem = refl
