-- ===== src/Process/Binding/Tests.antt =====
-- Two models on which processes are bound and unbound.
use django_logic.Prelude.{
  ◌≡◌, refl, inl, true, false, ◌&&◌, none, some, [], ◌∷◌, ◌==◌, if◌then◌else◌, arith,
}
use django_logic.Errors.{improperly_configured}
use django_logic.Exec.{ok, err}
use django_logic.Process.{tree}
use django_logic.Process.Tree.{iter_process_tree}
use django_logic.Process.Hooks.{Attributes, validate_hook_signatures}
use django_logic.Process.Binding.{
  Binding, Registry, Models, other, install, bind_model_process, unbind_model_process,
}
use django_logic.Process.Binding.Registered.{IsRegistered}
use django_logic.Process.Binding.History.{binds, unbinds, calls, calls-IsRegistered}
use django_logic.Process.Binding.Owned.{calls-other}
use django_logic.Process.Binding.Undone.{unbind-bind}
use django_logic.Sample.Tree.{program}

-- The order has a method under the name 4; its proxy is a subclass of it.
abbrev models : Models
models = record { mro = λ m. m ∷ 5 ∷ []; get_field = λ m n. some true; mro_self = λ m. inl refl }

abbrev no_hooks : Attributes
no_hooks = record {
  class_conditions = λ c. none;
  class_permissions = λ c. none;
  commands = λ ref a. [];
}

abbrev fresh : Registry
fresh = record { bindings = []; vars = λ k n. if k == 5 && n == 4 then some (other 8) else none }

fresh-IsRegistered : IsRegistered program fresh
fresh-IsRegistered = record {
  installed = λ b m. absurd m;
  owned = λ k n c f h. absurd (ground (arith, h));
}

abbrev order : Binding
order = record { model = 5; process_class = 0; state_field = 2 }

-- The proxy binds the same process name beside its parent.
abbrev proxy : Binding
proxy = record { model = 6; process_class = 1; state_field = 2 }

calls-IsRegistered_example : IsRegistered program (
    calls program models no_hooks
      (binds false order ∷ binds false proxy ∷ unbinds 5 none none ∷ [])
      fresh)
calls-IsRegistered_example =
    calls-IsRegistered program models no_hooks
      (binds false order ∷ binds false proxy ∷ unbinds 5 none none ∷ []) fresh fresh-IsRegistered

calls-other_example :
    (calls program models no_hooks (binds false order ∷ unbinds 5 none none ∷ []) fresh).vars 5 4
    ≡ some (other 8)
calls-other_example =
    calls-other program 5 4 8 models no_hooks (binds false order ∷ unbinds 5 none none ∷ []) fresh
      refl

unbind-bind_example :
    unbind_model_process program 5 (some 0) (some 2) (install program order fresh) ≡ (ok tt, fresh)
unfolding bind_model_process validate_hook_signatures tree iter_process_tree
unbind-bind_example =
    unbind-bind program order fresh models no_hooks false (install program order fresh)
      fresh-IsRegistered refl refl

-- A second process under the same name is refused.
name_taken :
    (bind_model_process program models no_hooks false
      (record order { process_class = 1 })
      (install program order fresh)).0
    ≡ err improperly_configured
unfolding bind_model_process validate_hook_signatures tree iter_process_tree
name_taken = refl
