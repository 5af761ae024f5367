-- ===== src/Process/Binding/History.antt =====
-- The registry and the accessors on the models agree, after any calls.
use django_logic.Prelude.{ℕ, ap, subst⁻¹, inl, inr, Bool, Option, List, [], ◌∷◌}
use django_logic.Django.{Django, Name}
use django_logic.Process.{Program}
use django_logic.Process.Hooks.{Attributes}
use django_logic.Process.Binding.{
  Binding, Registry, Models, bind_model_process, unbind_model_process,
}
use django_logic.Process.Binding.Registered.{IsRegistered, bind_cases, install-IsRegistered}
use django_logic.Process.Binding.Removal.{unbind-IsRegistered}

module _ {d : Django} (program : Program d) where
  -- Calls of `bind_model_process` and `unbind_model_process`, whether they return or raise.
  pub data Call : Type 0 where
    binds : Bool → Binding → Call
    unbinds : ℕ → Option ℕ → Option Name → Call

  module _ (models : Models) (attributes : Attributes) where
    unfoldable pub call : Call → Registry → Registry
    call (binds strict b) r = (bind_model_process program models attributes strict b r).1
    call (unbinds model p f) r = (unbind_model_process program model p f r).1

    unfoldable pub calls : List Call → Registry → Registry
    unfolding call
    calls [] r = r
    calls (c ∷ cs) r = calls cs (call c r)

    call-IsRegistered :
        (c : Call) (r : Registry) → IsRegistered program r → IsRegistered program (call c r)
    unfolding call
    call-IsRegistered (binds strict b) r v =
        elim (bind_cases program models attributes strict b r) [
          | inl e ↦ subst⁻¹ (IsRegistered program) e v
          | inr (e, free) ↦
              subst⁻¹ (IsRegistered program) (ap (λ x. x.1) e)
                (install-IsRegistered program b r free v)
        ]
    call-IsRegistered (unbinds model p f) r v = unbind-IsRegistered program model p f r v

    -- After any calls of `bind_model_process` and `unbind_model_process`, whether they return or
    -- raise, each binding has its accessor on its model under its process name, and each
    -- accessor on a class is that of a binding of that class.
    pub calls-IsRegistered :
        (cs : List Call) (r : Registry) → IsRegistered program r → IsRegistered program (calls cs r)
    unfolding calls
    calls-IsRegistered [] r v = v
    calls-IsRegistered (c ∷ cs) r v = calls-IsRegistered cs (call c r) (call-IsRegistered c r v)
