-- ===== src/Process/Hooks.antt =====
-- process.py: the check that each hook of a process takes the instance as a named first parameter.
pub mod Accepting
mod Tests
use django_logic.Prelude.{
  ℕ, Bool, true, false, not, ◌&&◌, Option, none, some, List, [], ◌∷◌, ◌++◌, map, flat_map,
  if◌then◌else◌,
}
use django_logic.Errors.{improperly_configured}
use django_logic.Exec.{Result, ok, err}
use django_logic.Results.{◌>>=◌, refuse_if}
use django_logic.Django.{Django, Name}
use django_logic.Process.{Declared, Program, name_of, transitions_of, tree}

-- `inspect.Parameter.kind`
pub data ParameterKind : Type 0 where
  positional_only positional_or_keyword var_positional keyword_only var_keyword : ParameterKind

-- A callable: its `module.qualname`, and the kinds of its parameters, or `none` where
-- `inspect.signature` raises TypeError or ValueError.
pub record Hook : Type 0 where
  pub name : Name
  pub signature : Option (List ParameterKind)

-- `_HOOK_ATTRS`
pub data HookAttribute : Type 0 where
  side_effects callbacks failure_callbacks conditions permissions : HookAttribute

abbrev pub hook_attributes : List HookAttribute
hook_attributes = side_effects ∷ callbacks ∷ failure_callbacks ∷ conditions ∷ permissions ∷ []

-- What `getattr` finds: `conditions` and `permissions` of a class, `none` where the attribute is
-- neither a list nor a tuple, and the `commands` of an attribute of a transition object.
pub record Attributes : Type 0 where
  pub class_conditions : ℕ → Option (List Hook)
  pub class_permissions : ℕ → Option (List Hook)
  pub commands : ℕ → HookAttribute → List Hook

-- A hook, the dotted path of the class and the action name that own it.
pub record Offender : Type 0 where
  pub hook : Name
  pub owner : Name
  pub action : Option Name

-- `params and params[0].kind in (POSITIONAL_ONLY, POSITIONAL_OR_KEYWORD)`
unfoldable pub names_first : List ParameterKind → Bool
names_first (positional_only ∷ ks) = true
names_first (positional_or_keyword ∷ ks) = true
names_first _ = false

unfoldable pub is_accepted : Hook → Bool
unfolding names_first
is_accepted h = elim h.signature [ none ↦ true | some ks ↦ names_first ks ]

-- `check(fn, owner)`: what it appends to the offenders.
unfoldable pub check : Name → Option Name × Hook → List Offender
unfolding is_accepted
check owner (action, h) =
    if is_accepted h then [] else record { hook = h.name; owner = owner; action = action } ∷ []

abbrev pub listed : Option (List Hook) → List Hook
listed none = []
listed (some hooks) = hooks

module _ {d : Django} (attributes : Attributes) where
  -- The hooks of one transition, in the order of `_HOOK_ATTRS`.
  unfoldable pub transition_hooks : Declared d → List (Option Name × Hook)
  transition_hooks t =
      flat_map (λ attr. map (λ h. (some (name_of t), h)) (attributes.commands t.ref attr))
        hook_attributes

  -- The hooks of one class, in the order in which they are checked.
  unfoldable pub class_hooks : Program d → ℕ → List (Option Name × Hook)
  unfolding transition_hooks
  class_hooks program c =
      map (λ h. (none, h)) (listed (attributes.class_conditions c))
      ++ map (λ h. (none, h)) (listed (attributes.class_permissions c))
      ++ flat_map transition_hooks (transitions_of program c)

module _ {d : Django} (attributes : Attributes) (program : Program d) where
  abbrev pub class_offenders : ℕ → List Offender
  class_offenders c = flat_map (check (program.classes c).path) (class_hooks attributes program c)

  unfoldable pub collect_hook_signature_offenders : ℕ → Result (List Offender)
  unfolding class_hooks check
  collect_hook_signature_offenders root = do
    cs ← tree program root
    ok (flat_map class_offenders cs)

  abbrev pub is_nonempty : List Offender → Bool
  is_nonempty [] = false
  is_nonempty (o ∷ os) = true

  -- `_validate_hook_signatures`, with STRICT_HOOK_SIGNATURES; otherwise the offenders are logged.
  unfoldable pub validate_hook_signatures : Bool → ℕ → Result (Unit {0})
  unfolding collect_hook_signature_offenders
  validate_hook_signatures strict root = do
    offenders ← collect_hook_signature_offenders root
    refuse_if (is_nonempty offenders && strict) improperly_configured
