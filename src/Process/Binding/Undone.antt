-- ===== src/Process/Binding/Undone.antt =====
-- `unbind_model_process` undoes `bind_model_process`.
use django_logic.Prelude.{
  ℕ, ◌≡◌, refl, sym, ap, ap₂, subst, ◌∙◌, inl, inr, Bool, false, not, ◌&&◌, none, some, List, [],
  ◌∷◌, ◌++◌, any, elem, filter, filter-any, Among-any, filter-append, Bool-cases, Option-cases,
  ==_iff, ==_refl, ◌==◌, arith,
}
use mathlib.Core.List.{append-nil}
use django_logic.Exec.{ok, Result-cases}
use django_logic.Django.{Django, Name}
use django_logic.Process.{Program}
use django_logic.Process.Hooks.{Attributes}
use django_logic.Process.Binding.{
  Binding, Attribute, accessor, other, Registry, Models, same, bound, selects, without, claimed,
  process_name_of, takes_name, install, check_binding, bind_model_process, delete_accessors,
  unbind_model_process,
}
use django_logic.Process.Binding.Registered.{IsRegistered, IsFree, check_binding-IsFree, same_refl}
use django_logic.Process.Binding.Removal.{delete_accessors-bindings}

any-same : (b : Binding) (bs : List Binding) → any (λ x. same x b) bs ≡ any (same b) bs
any-same b [] = refl
any-same b (x ∷ bs) = ground (arith, any-same b bs)

without-new : (b : Binding) (bs : List Binding) → bound b bs ≡ false → without (b ∷ []) bs ≡ bs
without-new b [] h = refl
without-new b (x ∷ bs) h = elim (Bool-cases (same x b)) [
  | inl e ↦ absurd (ground (arith, e, h))
  | inr e ↦ rw e (ap (λ l. x ∷ l) (without-new b bs (ground (arith, h))))
]

unclaimed :
    {d : Django} (program : Program d) (b : Binding) (bs : List Binding)
    → any (takes_name program b) bs ≡ false
    → elem (process_name_of program b) (claimed program b.model bs) ≡ false
unclaimed program b [] h = refl
unclaimed program b (x ∷ bs) h =
    let rest = unclaimed program b bs (ground (arith, h)) in
    elim (Bool-cases (x.model == b.model)) [
      | inl e ↦ rw e (ground (arith, e, h, rest))
      | inr e ↦ rw e rest
    ]

module _ {d : Django} (program : Program d) (b : Binding) (r : Registry) where
  -- A new binding that is accepted is installed.
  bind_installed :
      (models : Models) (attributes : Attributes) (strict : Bool) (r' : Registry)
      → bound b r.bindings ≡ false
      → bind_model_process program models attributes strict b r ≡ (ok tt, r')
      → (install program b r ≡ r') × IsFree program b r
  unfolding bind_model_process
  bind_installed models attributes strict r' new h =
      elim (Result-cases (check_binding program models attributes strict b r)) [
        | inl (u, e) ↦ (
          ap (λ x. x.1) (rw (new, e) at h),
          check_binding-IsFree program models attributes strict b r e,
        )
        | inr (x, e) ↦ absurd (cc (ap (λ x. x.0) (rw (new, e) at h)))
      ]

  module _ (free : IsFree program b r) (v : IsRegistered program r)
      (new : bound b r.bindings ≡ false) where
    name : Name
    name = process_name_of program b

    -- Before the call the model has nothing under the process name.
    vars-none : r.vars b.model (process_name_of program b) ≡ none
    vars-none = elim (Option-cases (r.vars b.model (process_name_of program b))) [
      | inl e ↦ e
      | inr (a, e) ↦ absurd (taken a e)
    ]
      where
        taken : (a : Attribute) → r.vars b.model (process_name_of program b) ≡ some a → ⊥
        taken (other x) e = let own = free.own in ground (arith, own, e)
        taken (accessor c f) e =
            let (m, p) = v.owned b.model (process_name_of program b) c f e in
            let hit =
              Among-any (takes_name program b) r.bindings
                (record { model = b.model; process_class = c; state_field = f }) m
                (ground (arith, p)) in
            let untaken = free.untaken in ground (arith, hit, untaken)

    selected :
        filter (selects b.model (some b.process_class) (some b.state_field)) (r.bindings ++ b ∷ [])
        ≡ b ∷ []
    selected =
        filter-append (λ x. same x b) r.bindings (b ∷ [])
        ∙ rw (filter-any (λ x. same x b) r.bindings (any-same b r.bindings ∙ new), same_refl b) refl

    restored : without (b ∷ []) (r.bindings ++ b ∷ []) ≡ r.bindings
    restored =
        filter-append (λ x. not (bound x (b ∷ []))) r.bindings (b ∷ [])
        ∙ rw (without-new b r.bindings new, same_refl b) (append-nil r.bindings)

    -- The attributes after the accessor is deleted.
    vars-restored :
        (k : ℕ) (n : Name)
        → (delete_accessors program b.model
              (claimed program b.model r.bindings)
              (b ∷ [])
              (record (install program b r) { bindings = r.bindings })).vars
            k n
          ≡ r.vars k n
    unfolding delete_accessors
    vars-restored k n =
        rw
          (
            unclaimed program b r.bindings free.untaken,
            ==_refl b.model,
            ==_refl (process_name_of program b),
          )
          (elim (Bool-cases (k == b.model && n == process_name_of program b)) [
            | inl here ↦
                let k_eq = (==_iff k b.model).0 (ground (arith, here)) in
                let n_eq = (==_iff n (process_name_of program b)).0 (ground (arith, here)) in
                rw (here) (sym (ap₂ r.vars k_eq n_eq ∙ vars-none))
            | inr away ↦ rw away refl
          ])

    undone :
        unbind_model_process program b.model
          (some b.process_class)
          (some b.state_field)
          (install program b r)
        ≡ (ok tt, r)
    unfolding unbind_model_process
    undone =
        let kept = claimed program b.model r.bindings in
        let start : Registry = record (install program b r) { bindings = r.bindings } in
        rw (selected, restored)
          λ i. (
            ok tt,
            record {
              bindings = delete_accessors-bindings program b.model kept (b ∷ []) start i;
              vars = λ k n. vars-restored k n i;
            },
          )

  -- A new binding that is accepted is undone by the call that unbinds it: registry and attributes
  -- are those before the binding.
  pub unbind-bind :
      (models : Models) (attributes : Attributes) (strict : Bool) (r' : Registry)
      → IsRegistered program r
      → bound b r.bindings ≡ false
      → bind_model_process program models attributes strict b r ≡ (ok tt, r')
      → unbind_model_process program b.model (some b.process_class) (some b.state_field) r'
        ≡ (ok tt, r)
  unbind-bind models attributes strict r' v new h =
      let (e, free) = bind_installed models attributes strict r' new h in
      subst
        (λ z.
          unbind_model_process program b.model (some b.process_class) (some b.state_field) z
          ≡ (ok tt, r))
        e (undone free v new)
