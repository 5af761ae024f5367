-- ===== src/Process/Hooks/Tests.antt =====
-- The check of hook signatures on three process classes.
use django_logic.Prelude.{ℕ, ◌≡◌, ◌↔◌, refl, true, none, some, List, [], ◌∷◌}
use django_logic.Errors.{improperly_configured}
use django_logic.Exec.{ok, err}
use django_logic.Process.{nested, tree}
use django_logic.Process.Tree.{Reaches, iter_process_tree}
use django_logic.Process.Hooks.{
  Hook, Attributes, HookAttribute, side_effects, var_positional, var_keyword,
  collect_hook_signature_offenders, validate_hook_signatures,
}
use django_logic.Process.Hooks.Accepting.{
  TakesInstance, IsHookOf, collect_hook_signature_offenders_lem,
}
use django_logic.Sample.Tree.{program, all_classes, program-IsFinite}

-- `def task(*args, **kwargs)`
abbrev task : Hook
task = record { name = 70; signature = some (var_positional ∷ var_keyword ∷ []) }

abbrev side_effects_only : Hook → HookAttribute → List Hook
side_effects_only h side_effects = h ∷ []
side_effects_only h _ = []

-- Each transition has the task as its side-effect.
abbrev tasks : Attributes
tasks = record {
  class_conditions = λ c. none;
  class_permissions = λ c. some [];
  commands = λ ref. side_effects_only task;
}

offenders_found :
    collect_hook_signature_offenders tasks program 1
    ≡ ok (
        record { hook = 70; owner = 51; action = some 3 }
        ∷ record { hook = 70; owner = 50; action = some 1 }
        ∷ record { hook = 70; owner = 52; action = some 3 }
        ∷ [])
unfolding collect_hook_signature_offenders tree iter_process_tree
offenders_found = refl

strict_refused : validate_hook_signatures tasks program true 1 ≡ err improperly_configured
unfolding validate_hook_signatures tree iter_process_tree
strict_refused = refl

collect_hook_signature_offenders_lem_example :
    (collect_hook_signature_offenders tasks program 0 ≡ ok []) ↔ (
      (c : ℕ) (h : Hook)
      → Reaches (nested program) 0 c
      → IsHookOf tasks program c h
      → TakesInstance h)
collect_hook_signature_offenders_lem_example =
    collect_hook_signature_offenders_lem tasks program all_classes 0 program-IsFinite
