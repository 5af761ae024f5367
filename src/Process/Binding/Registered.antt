-- ===== src/Process/Binding/Registered.antt =====
-- When the registry and the accessors on the models agree, and what a new binding does to it.
use django_logic.Prelude.{
  ℕ, ◌≡◌, refl, subst⁻¹, ◌⊎◌, inl, inr, Bool, true, false, ◌&&◌, some, [], ◌∷◌, any, Among,
  Among-append, Among-append_left, Among-append_right, Bool-cases, ◌==◌, arith, Among-any-false,
}
use django_logic.Exec.{ok, Result-cases}
use django_logic.Results.{>>=-ok, refuse_if-ok}
use django_logic.Django.{Django, Name}
use django_logic.Process.{Program}
use django_logic.Process.Hooks.{Attributes}
use django_logic.Process.Binding.{
  Binding, accessor, Registry, Models, same, bound, is_foreign, check_field, process_name_of,
  takes_name, install, check_binding, bind_model_process,
}

pub same-eq : (a b : Binding) → same a b ≡ true → a ≡ b
same-eq a b h = ground (arith, h)

pub same_refl : (b : Binding) → same b b ≡ true
same_refl b = ground arith

module _ {d : Django} (program : Program d) where
  -- Each binding has its accessor on its model, and each accessor on a class is that of a
  -- binding of that class.
  pub record IsRegistered (r : Registry) : Type 0 where
    pub installed :
        (b : Binding)
        → Among b r.bindings
        → r.vars b.model (process_name_of program b) ≡ some (accessor b.process_class b.state_field)
    pub owned :
        (k : ℕ) (n : Name) (c : ℕ) (f : Name)
        → r.vars k n ≡ some (accessor c f)
        → Among (record { model = k; process_class = c; state_field = f }) r.bindings
          × ((program.classes c).process_name ≡ n)

  -- Nothing else on the model has the name of the new binding.
  pub record IsFree (b : Binding) (r : Registry) : Type 0 where
    pub untaken : any (takes_name program b) r.bindings ≡ false
    pub own : is_foreign (r.vars b.model (process_name_of program b)) ≡ false

  pub check_binding-IsFree :
      (models : Models) (attributes : Attributes) (strict : Bool) (b : Binding) (r : Registry)
      → check_binding program models attributes strict b r ≡ ok tt
      → IsFree b r
  unfolding check_binding
  check_binding-IsFree models attributes strict b r h =
      let (_, _, h₁) = >>=-ok (check_field (models.get_field b.model b.state_field)) _ h in
      let (untaken, h₂) = refuse_if-ok (any (takes_name program b) r.bindings) _ _ h₁ in
      let foreign = λ (k : ℕ). is_foreign (r.vars k (process_name_of program b)) in
      let (clear, _) = refuse_if-ok (any foreign (models.mro b.model)) _ _ h₂ in
      record {
        untaken = untaken;
        own = Among-any-false foreign (models.mro b.model) b.model clear (models.mro_self b.model);
      }

  -- What a call of `bind_model_process` comes to.
  pub bind_cases :
      (models : Models) (attributes : Attributes) (strict : Bool) (b : Binding) (r : Registry)
      → ((bind_model_process program models attributes strict b r).1 ≡ r)
        ⊎ ((bind_model_process program models attributes strict b r ≡ (ok tt, install program b r))
            × IsFree b r)
  unfolding bind_model_process
  bind_cases models attributes strict b r = elim (Bool-cases (bound b r.bindings)) [
    | inl old ↦ inl (rw old refl)
    | inr new ↦ elim (Result-cases (check_binding program models attributes strict b r)) [
      | inl (u, e) ↦ inr (rw (new, e) refl, check_binding-IsFree models attributes strict b r e)
      | inr (x, e) ↦ inl (rw (new, e) refl)
    ]
  ]

  pub install-IsRegistered :
      (b : Binding) (r : Registry)
      → IsFree b r
      → IsRegistered r
      → IsRegistered (install program b r)
  install-IsRegistered b r free v = record {
    installed = λ x m. elim (Among-append x r.bindings (b ∷ []) m) [
      | inl old ↦
          let apart = Among-any-false (takes_name program b) r.bindings x free.untaken old in
          ground (arith, v.installed x old, apart)
      | inr (inl e) ↦
          subst⁻¹
            (λ z.
              (install program b r).vars z.model (process_name_of program z)
              ≡ some (accessor z.process_class z.state_field))
            e (ground arith)
      | inr (inr m') ↦ absurd m'
    ];
    owned = λ k n c f h. elim (Bool-cases (k == b.model && n == process_name_of program b)) [
      | inl here ↦
          let a : some (accessor b.process_class b.state_field) ≡ some (accessor c f) =
            rw here at h in
          let e : record { model = k; process_class = c; state_field = f } ≡ b =
            ground (arith, a, here) in
          (Among-append_right _ r.bindings (b ∷ []) (inl e), ground (arith, a, here))
      | inr away ↦
          let (m, e) = v.owned k n c f (rw away at h) in
          (Among-append_left _ r.bindings (b ∷ []) m, e)
    ];
  }
