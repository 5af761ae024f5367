-- ===== src/Process/Binding/Owned.antt =====
-- What a model defines itself is never replaced or deleted.
use django_logic.Prelude.{
  ℕ, ◌≡◌, ap, ◌∙◌, inl, inr, not, ◌&&◌, some, List, [], ◌∷◌, elem, filter, Bool-cases, ◌==◌, arith,
}
use django_logic.Django.{Django, Name}
use django_logic.Process.{Program}
use django_logic.Process.Hooks.{Attributes}
use django_logic.Process.Binding.{
  Binding, other, Registry, Models, is_accessor, selects, without, claimed, process_name_of,
  install, delete_accessors, unbind_model_process,
}
use django_logic.Process.Binding.Registered.{IsFree, bind_cases}
use django_logic.Process.Binding.History.{Call, binds, unbinds, call, calls}

module _ {d : Django} (program : Program d) (k : ℕ) (n : Name) (x : ℕ) where
  delete_accessors-other :
      (model : ℕ) (names : List Name) (bs : List Binding) (r : Registry)
      → r.vars k n ≡ some (other x)
      → (delete_accessors program model names bs r).vars k n ≡ some (other x)
  unfolding delete_accessors
  delete_accessors-other model names [] r h = h
  delete_accessors-other model names (b ∷ bs) r h =
      let name = process_name_of program b in
      delete_accessors-other model names bs _
        (elim (Bool-cases (not (elem name names) && is_accessor (r.vars model name))) [
          | inl e ↦ elim (Bool-cases (k == model && n == name)) [
            | inl here ↦ absurd (ground (arith, e, here, h))
            | inr away ↦ rw (e, away) h
          ]
          | inr e ↦ rw e h
        ])

  install-other :
      (b : Binding) (r : Registry)
      → IsFree program b r
      → r.vars k n ≡ some (other x)
      → (install program b r).vars k n ≡ some (other x)
  install-other b r free h = elim (Bool-cases (k == b.model && n == process_name_of program b)) [
    | inl here ↦ let own = free.own in absurd (ground (arith, own, here, h))
    | inr away ↦ rw away h
  ]

  module _ (models : Models) (attributes : Attributes) where
    call-other :
        (c : Call program) (r : Registry)
        → r.vars k n ≡ some (other x)
        → (call program models attributes c r).vars k n ≡ some (other x)
    unfolding call unbind_model_process
    call-other (binds strict b) r h = elim (bind_cases program models attributes strict b r) [
      | inl e ↦ ap (λ z. z.vars k n) e ∙ h
      | inr (e, free) ↦ ap (λ z. z.1.vars k n) e ∙ install-other b r free h
    ]
    call-other (unbinds model p f) r h =
        let removed = filter (selects model p f) r.bindings in
        let kept = without removed r.bindings in
        delete_accessors-other model (claimed program model kept) removed
          (record r { bindings = kept }) h

    -- Whatever calls of `bind_model_process` and `unbind_model_process` are made, an attribute
    -- of a class that is no accessor of django-logic stays what it is.
    pub calls-other :
        (cs : List (Call program)) (r : Registry)
        → r.vars k n ≡ some (other x)
        → (calls program models attributes cs r).vars k n ≡ some (other x)
    unfolding calls
    calls-other [] r h = h
    calls-other (c ∷ cs) r h =
        calls-other cs (call program models attributes c r) (call-other c r h)
