-- ===== src/Process.antt =====
-- process.py: `class Process`, the transitions that a bound process and the processes nested in it
-- offer, and the call of one of them. A process class is a number, its identity; `Program` says what
-- each class declares. Nested processes share the state object of the bound one.
pub mod Tree
pub mod Reached
pub mod Validation
pub mod Resolving
pub mod Actions
pub mod Hooks
pub mod Binding
mod Tests
use django_logic.Prelude.{
  ℕ, zero, suc, Bool, true, false, not, ◌&&◌, Option, none, some, List, [], ◌∷◌, ◌++◌, map, elem,
  truthy, ◌==◌, if◌then◌else◌,
}
use django_logic.Errors.{
  transition_not_allowed, several_transitions, no_transition, type_error, attribute_error,
  improperly_configured, recursion_error,
}
use django_logic.Exec
use django_logic.Exec.{Result, ok, err, pure, raise, ◌>>=◌, ◌>>◌, raise_if}
use django_logic.Results
use django_logic.Django.{Django, Name, State}
use django_logic.World.{World, M}
use django_logic.State.{get_state, is_locked}
use django_logic.Commands.{Accessor, all_hold, permitted}
use django_logic.Transition
use django_logic.Transition.{Transition, Call, Kind, is_background, is_valid}
use django_logic.Transition.Action
use django_logic.Background.Deployment.{Deployment}
use django_logic.Background.Enqueue
use django_logic.Background.Enqueue.{Submission}
use django_logic.Process.Tree.{iter_process_tree}

-- A transition object: its identity, and what it declares.
pub record Declared (d : Django) : Type 0 where
  pub ref : ℕ
  pub transition : Transition d

-- `path` is the dotted path of the class, and `attributes` the names that `hasattr` finds on it.
pub record ProcessClass (d : Django) : Type 0 where
  pub path : Name
  pub process_name : Name
  pub nested_processes : List ℕ
  pub transitions : List (Declared d)
  pub permissions : List (ℕ → M d Bool)
  pub conditions : List (M d Bool)
  pub attributes : List Name

-- `depth` is the recursion limit.
pub record Program (d : Django) : Type 0 where
  pub classes : ℕ → ProcessClass d
  pub depth : ℕ

-- `_PROCESS_INSTANCE_ATTRS`: 'state', 'instance', 'field_name'
abbrev pub process_instance_attrs : List Name
process_instance_attrs = 101 ∷ 102 ∷ 103 ∷ []

-- A transition that a walk finds, with the class that declares it.
abbrev pub Found : Django → Type 0
Found d = Declared d × ℕ

module _ {d : Django} where
  abbrev pub name_of : Declared d → Name
  name_of t = t.transition.action_name

  abbrev pub in_background : Declared d → Bool
  in_background t = is_background t.transition.kind

  -- The loop over one class in `_validate_unique_background_action_names`.
  unfoldable pub check_unique : List Name → List (Declared d) → Result (Unit {0})
  check_unique names [] = ok tt
  check_unique names (t ∷ ts) =
      let skipped = check_unique names ts in
      let noted = check_unique (name_of t ∷ names) ts in
      if in_background t
      then (if elem (name_of t) names then err improperly_configured else noted)
      else skipped

  -- The loop over one class in `_validate_action_names_not_shadowed`.
  unfoldable pub check_not_shadowed : List Name → List (Declared d) → Result (Unit {0})
  check_not_shadowed attributes [] = ok tt
  check_not_shadowed attributes (t ∷ ts) =
      let rest = check_not_shadowed attributes ts in
      if truthy (name_of t)
      then (if elem (name_of t) process_instance_attrs
          then err improperly_configured
          else (if elem (name_of t) attributes then err improperly_configured else rest))
      else rest

module _ {d : Django} (program : Program d) where
  abbrev pub nested : ℕ → List ℕ
  nested c = (program.classes c).nested_processes

  abbrev pub transitions_of : ℕ → List (Declared d)
  transitions_of c = (program.classes c).transitions

  -- The classes of the tree.
  unfoldable pub tree : ℕ → Result (List ℕ)
  tree root = Results.◌>>=◌ (iter_process_tree nested program.depth root []) (λ w. ok w.0)

  unfoldable pub validate_unique_background_action_names : ℕ → Result (Unit {0})
  validate_unique_background_action_names root =
      Results.◌>>=◌ (tree root) (Results.each (λ c. check_unique [] (transitions_of c)))

  unfoldable pub validate_action_names_not_shadowed : ℕ → Result (Unit {0})
  validate_action_names_not_shadowed root =
      Results.◌>>=◌ (tree root) (
        Results.each (λ c. check_not_shadowed (program.classes root).attributes (transitions_of c)))

  -- `__init_subclass__`
  unfoldable pub init_subclass : ℕ → Result (Unit {0})
  init_subclass c =
      Results.◌>>◌ (validate_action_names_not_shadowed c)
        (validate_unique_background_action_names c)

  module _ (s : State) (user : Option ℕ) where
    -- `is_valid` of a process
    unfoldable pub process_is_valid : ℕ → M d Bool
    unfolding permitted all_hold
    process_is_valid c = do
      allowed ← permitted (program.classes c).permissions user
      if allowed then all_hold (program.classes c).conditions else pure false

    -- `action_name is not None and transition.action_name != action_name`
    abbrev pub is_other : Option Name → Declared d → Bool
    is_other none t = false
    is_other (some name) t = not (name_of t == name)

    -- `get_state() in sources and is_valid(…)`
    unfoldable pub is_available : Declared d → M d Bool
    is_available t = do
      current ← get_state s
      if elem current t.transition.sources then is_valid t.transition user else pure false

    -- The loop over the transitions of one class.
    unfoldable pub own_transitions : Option Name → ℕ → List (Declared d) → M d (List (Found d))
    own_transitions action_name c [] = pure []
    own_transitions action_name c (t ∷ ts) =
        let rest = own_transitions action_name c ts in
        if is_other action_name t then rest else (do
          available ← is_available t
          more ← rest
          pure (if available then (t, c) ∷ more else more))

    abbrev pub Finds : Type 0
    Finds = List (Found d) × List ℕ

    -- The loop over the nested classes.
    unfoldable pub nested_available : (ℕ → List ℕ → M d Finds) → List ℕ → List ℕ → M d Finds
    nested_available visit [] seen = pure ([], seen)
    nested_available visit (c ∷ cs) seen = do
      first ← visit c seen
      rest ← nested_available visit cs first.1
      pure (first.0 ++ rest.0, rest.1)

    -- `not ignore_state and self.state.is_locked()`
    unfoldable pub is_closed : Bool → M d Bool
    unfolding is_locked
    is_closed ignore_state = if ignore_state then pure false else is_locked s

    -- `_iter_available_with_owner`, consumed to its end.
    unfoldable pub iter_available_with_owner : Option Name → Bool → ℕ → ℕ → List ℕ → M d Finds
    unfolding nested_available
    iter_available_with_owner action_name ignore_state zero c seen = raise recursion_error
    iter_available_with_owner action_name ignore_state (suc fuel) c seen =
        let visit = iter_available_with_owner action_name ignore_state fuel in
        let open_class = (do
          own ← own_transitions action_name c (transitions_of c)
          below ← nested_available visit (nested c) (c ∷ seen)
          pure (own ++ below.0, below.1)) in
        let entered = (do
          valid ← process_is_valid c
          closed ← (if valid then is_closed ignore_state else pure true)
          if closed then pure ([], c ∷ seen) else open_class) in
        if elem c seen then pure ([], seen) else entered

    -- `get_available_transitions`
    unfoldable pub get_available_transitions : Option Name → ℕ → M d (List (Declared d))
    get_available_transitions action_name root = do
      found ← iter_available_with_owner action_name false program.depth root []
      pure (map (λ f. f.0) found.0)

    abbrev pub exactly_one : List (Found d) → M d (Found d)
    exactly_one [] = raise (transition_not_allowed no_transition)
    exactly_one (f ∷ []) = pure f
    exactly_one (f ∷ _ ∷ _) = raise (transition_not_allowed several_transitions)

    -- `_resolve_transition_with_owner`
    unfoldable pub resolve_transition_with_owner : Name → ℕ → M d (Found d)
    resolve_transition_with_owner action_name root = do
      found ← iter_available_with_owner (some action_name) true program.depth root []
      exactly_one found.0

  -- `transition.change_state(self.state, **kwargs)`, by the class of the transition. A background
  -- transition is given the class that declares it.
  module _ (s : State) (deployed : Deployment d) (serialized : Result (List ℕ))
      (call : Call d) where
    unfoldable pub change_state : Found d → M d Unit
    change_state (t, owner) =
        let transition = t.transition in
        let submission : Submission d = record {
          call = call;
          serialized = serialized;
          owning_process_class = (program.classes owner).path;
        } in
        elim transition.kind [
          | Kind.transition ↦ Transition.change_state transition s call
          | Kind.action ↦ Action.change_state transition s call
          | Kind.background_transition ↦ Enqueue.change_state deployed transition s submission
          | Kind.background_action ↦ Enqueue.change_state deployed transition s submission
        ]

    -- `_get_transition_method`
    unfoldable pub get_transition_method : Name → ℕ → M d Unit
    get_transition_method action_name root = do
      found ← resolve_transition_with_owner s call.user action_name root
      change_state found

    -- `getattr(process, item)(*args, **kwargs)` for a missing attribute. `underscored` tells that
    -- the name starts with an underscore, and `positional` is the number of positional arguments.
    unfoldable pub transition_method : Bool → ℕ → Name → ℕ → M d Unit
    unfolding get_transition_method
    transition_method underscored positional item root = do
      raise_if underscored attribute_error
      raise_if (truthy positional) type_error
      get_transition_method item root
