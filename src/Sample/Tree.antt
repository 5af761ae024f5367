-- ===== src/Sample/Tree.antt =====
-- Three process classes that nest one another in a cycle and in a diamond. Two of them declare a
-- background transition of the same name; the conditions of the second never hold.
use django_logic.Prelude.{none, ℕ, zero, suc, ◌+◌, ◌≡◌, refl, Bool, false, List, [], ◌∷◌, arith}
use django_logic.Exec.{ok, pure}
use django_logic.World.{World, M}
use django_logic.State.{get_state}
use django_logic.Transition.{is_valid}
use django_logic.Process.Tree.{Reaches, here, step, iter_process_tree}
use django_logic.Process.Reached.{IsClosed}
use django_logic.Process.{
  Declared, Program, nested, check_unique, tree, validate_unique_background_action_names,
  process_is_valid, is_available, own_transitions, is_closed, iter_available_with_owner,
  resolve_transition_with_owner,
}
use django_logic.Process.Validation.{IsFinite}
use django_logic.Sample.Site.{site, draft, invoice, start, succeeds, send_now, send_later}

abbrev pub approve : Declared site
approve = record { ref = 1; transition = send_now succeeds }

abbrev pub deliver : ℕ → Declared site
deliver ref = record { ref = ref; transition = record (send_later succeeds) { action_name = 3 } }

abbrev pub nested_of : ℕ → List ℕ
nested_of zero = 1 ∷ 2 ∷ []
nested_of (suc zero) = 0 ∷ 2 ∷ []
nested_of (suc (suc _)) = 1 ∷ []

abbrev pub declared_by : ℕ → List (Declared site)
declared_by zero = approve ∷ []
declared_by (suc zero) = deliver 2 ∷ []
declared_by (suc (suc _)) = deliver 3 ∷ []

abbrev pub conditions_of : ℕ → List (M site Bool)
conditions_of zero = []
conditions_of (suc zero) = []
conditions_of (suc (suc _)) = pure false ∷ []

abbrev pub program : Program site
program = record {
  classes = λ c. record {
    path = c + 50;
    process_name = 1;
    nested_processes = nested_of c;
    transitions = declared_by c;
    permissions = [];
    conditions = conditions_of c;
    attributes = 9 ∷ [];
  };
  depth = 10;
}

abbrev pub all_classes : List ℕ
all_classes = 0 ∷ 1 ∷ 2 ∷ []

program-IsClosed : IsClosed (nested program) all_classes
program-IsClosed zero y m n = ground (arith, n)
program-IsClosed (suc zero) y m n = ground (arith, n)
program-IsClosed (suc (suc x)) y m n = ground (arith, n)

pub program-IsFinite : IsFinite program all_classes 0
program-IsFinite = record { closed = program-IsClosed; enough = omega arith; rooted = refl }

pub Reaches-one : Reaches (nested program) 0 1
Reaches-one = step here 1 refl

pub Reaches-two : Reaches (nested program) 0 2
Reaches-two = step here 2 refl

pub program-valid : validate_unique_background_action_names program 0 ≡ ok tt
unfolding validate_unique_background_action_names tree iter_process_tree check_unique
program-valid = refl

abbrev pub idle : World site
idle = start [] draft false

-- The condition of the third class leaves one `deliver`.
pub deliver-resolved :
    resolve_transition_with_owner program invoice none 3 0 idle ≡ (ok (deliver 2, 1), idle)
unfolding resolve_transition_with_owner iter_available_with_owner own_transitions process_is_valid
    is_closed is_available get_state is_valid
deliver-resolved = refl
