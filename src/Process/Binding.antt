-- ===== src/Process/Binding.antt =====
-- process.py: `ProcessManager`, the registry of the processes that are bound to models, and the
-- accessors that it puts on the model classes.
pub mod Registered
pub mod Removal
pub mod History
pub mod Owned
pub mod Undone
mod Tests
use django_logic.Prelude.{
  ℕ, ◌≡◌, Bool, true, false, not, ◌&&◌, ◌||◌, Option, none, some, List, [], ◌∷◌, ◌++◌, any, map,
  elem, filter, Among, ◌==◌, if◌then◌else◌,
}
use django_logic.Errors.{improperly_configured}
use django_logic.Exec.{Exec, Result, ok, err, pure, raise, lift, gets, modify, ◌>>=◌, ◌>>◌, when}
use django_logic.Results
use django_logic.Results.{refuse_if}
use django_logic.Django.{Django, Name}
use django_logic.Process.{Program}
use django_logic.Process.Hooks.{Attributes, validate_hook_signatures}

-- `ModelProcessBinding`. A model is a class, and a class is a number.
pub record Binding : Type 0 where
  pub model : ℕ
  pub process_class : ℕ
  pub state_field : Name

-- What `vars(klass)` holds under a name: an accessor with the process class and the field that it
-- closes over, or anything else.
pub data Attribute : Type 0 where
  accessor : ℕ → Name → Attribute
  other : ℕ → Attribute

-- `ProcessManager.bindings`, and `vars` of each class.
pub record Registry : Type 0 where
  pub bindings : List Binding
  pub vars : ℕ → Name → Option Attribute

-- What the code reads of a model: `__mro__`, in which the model itself stands, and
-- `_meta.get_field`, `none` for FieldDoesNotExist, with whether the field is concrete.
pub record Models : Type 0 where
  pub mro : ℕ → List ℕ
  pub get_field : ℕ → Name → Option Bool
  pub mro_self : (model : ℕ) → Among model (mro model)

-- `==` of two bindings
abbrev pub same : Binding → Binding → Bool
same a b =
    a.model == b.model && (a.process_class == b.process_class && a.state_field == b.state_field)

-- `binding in bindings`
abbrev pub bound : Binding → List Binding → Bool
bound b = any (same b)

-- `setattr(klass, name, value)`, and `delattr` where the value is none
abbrev pub put : ℕ → Name → Option Attribute → Registry → Registry
put klass name value r = record r {
  vars = λ k n. if k == klass && n == name then value else r.vars k n;
}

abbrev pub is_accessor : Option Attribute → Bool
is_accessor (some (accessor c f)) = true
is_accessor _ = false

-- What a binding would replace: something that is no accessor.
abbrev pub is_foreign : Option Attribute → Bool
is_foreign (some (other x)) = true
is_foreign _ = false

-- `state_field` has to be a concrete field.
abbrev pub check_field : Option Bool → Result (Unit {0})
check_field none = err improperly_configured
check_field (some concrete) = refuse_if (not concrete) improperly_configured

-- `process_class is None or binding.process_class is process_class`
abbrev pub matches : Option ℕ → ℕ → Bool
matches none x = true
matches (some y) x = x == y

-- The bindings that `unbind_model_process` selects.
abbrev pub selects : ℕ → Option ℕ → Option Name → Binding → Bool
selects model process_class state_field b =
    b.model == model && (matches process_class b.process_class && matches state_field b.state_field)

-- `[b for b in cls.bindings if b not in removed]`
abbrev pub without : List Binding → List Binding → List Binding
without gone bindings = filter (λ b. not (bound b gone)) bindings

module _ {d : Django} (program : Program d) where
  abbrev pub process_name_of : Binding → Name
  process_name_of b = (program.classes b.process_class).process_name

  -- Another binding of the model has the process name.
  abbrev pub takes_name : Binding → Binding → Bool
  takes_name b existing = existing.model == b.model && process_name_of existing == process_name_of b

  -- `setattr(model, process_name, _ProcessAccessor(…))`
  abbrev pub install : Binding → Registry → Registry
  install b r =
      put b.model (process_name_of b) (some (accessor b.process_class b.state_field))
        (record r { bindings = r.bindings ++ b ∷ [] })

  -- The checks of a new binding, in their order.
  unfoldable pub check_binding : Models → Attributes → Bool → Binding → Registry → Result (Unit {0})
  unfolding validate_hook_signatures
  check_binding models attributes strict b r =
      Results.◌>>◌ (check_field (models.get_field b.model b.state_field)) (
        Results.◌>>◌ (refuse_if (any (takes_name b) r.bindings) improperly_configured) (
          Results.◌>>◌
            (refuse_if
              (any (λ klass. is_foreign (r.vars klass (process_name_of b))) (models.mro b.model))
              improperly_configured)
            (validate_hook_signatures attributes program strict b.process_class)))

  unfoldable pub bind_model_process : Models → Attributes → Bool → Binding → Exec Registry Unit
  unfolding check_binding
  bind_model_process models attributes strict b = do
    r ← gets (λ r. r)
    if bound b r.bindings
        then pure tt
        else (lift (check_binding models attributes strict b r) >> modify (install b))

  -- The loop that deletes the accessors which no binding claims any more.
  unfoldable pub delete_accessors : ℕ → List Name → List Binding → Registry → Registry
  delete_accessors model still_bound [] r = r
  delete_accessors model still_bound (b ∷ bs) r =
      let name = process_name_of b in
      let deleted = put model name none r in
      delete_accessors model still_bound bs
        (if not (elem name still_bound) && is_accessor (r.vars model name) then deleted else r)

  -- The names that the bindings claim on a model.
  abbrev pub claimed : ℕ → List Binding → List Name
  claimed model bindings = map process_name_of (filter (λ b. b.model == model) bindings)

  abbrev pub unbound : ℕ → List Binding → Registry → Registry
  unbound model gone r =
      let kept = without gone r.bindings in
      delete_accessors model (claimed model kept) gone (record r { bindings = kept })

  unfoldable pub unbind_model_process : ℕ → Option ℕ → Option Name → Exec Registry Unit
  unfolding delete_accessors
  unbind_model_process model process_class state_field =
      modify λ r. unbound model (filter (selects model process_class state_field) r.bindings) r
