-- ===== src/Process/Binding/Removal.antt =====
-- What `unbind_model_process` does to the registry and the accessors.
use django_logic.Prelude.{
  ℕ, ◌≡◌, refl, ◌∙◌, subst, subst⁻¹, inl, inr, true, false, not, ◌&&◌, Option, none, some, List, [],
  ◌∷◌, elem, filter, Among, Among-filter, Among-of-filter, Bool-cases, ==_iff, ◌==◌, arith,
  if◌then◌else◌, any-Among, Among-map-elem, elem-map-Among,
}
use django_logic.Django.{Django, Name}
use django_logic.Process.{Program}
use django_logic.Process.Binding.{
  Binding, Attribute, accessor, Registry, same, bound, put, is_accessor, process_name_of, selects,
  delete_accessors, unbind_model_process, without, claimed,
}
use django_logic.Process.Binding.Registered.{IsRegistered, same-eq}

module _ {d : Django} (program : Program d) where
  -- What the loop over the removed bindings leaves of the attributes.
  delete_accessors-kept :
      (model : ℕ) (names : List Name) (bs : List Binding) (r : Registry) (k : ℕ) (n : Name)
      → (k == model && not (elem n names)) ≡ false
      → (delete_accessors program model names bs r).vars k n ≡ r.vars k n
  unfolding delete_accessors
  delete_accessors-kept model names [] r k n h = refl
  delete_accessors-kept model names (b ∷ bs) r k n h =
      delete_accessors-kept model names bs _ k n h ∙ ground (arith, h)

  pub delete_accessors-bindings :
      (model : ℕ) (names : List Name) (bs : List Binding) (r : Registry)
      → (delete_accessors program model names bs r).bindings ≡ r.bindings
  unfolding delete_accessors
  delete_accessors-bindings model names [] r = refl
  delete_accessors-bindings model names (b ∷ bs) r =
      delete_accessors-bindings model names bs _ ∙ ground arith

  pub delete_accessors-fewer :
      (model : ℕ) (names : List Name) (bs : List Binding) (r : Registry) (k : ℕ) (n : Name)
      → (x : Attribute) → (delete_accessors program model names bs r).vars k n ≡ some x
      → r.vars k n ≡ some x
  unfolding delete_accessors
  delete_accessors-fewer model names [] r k n x h = h
  delete_accessors-fewer model names (b ∷ bs) r k n x h =
      ground (arith, delete_accessors-fewer model names bs _ k n x h)

  delete_accessors-stays :
      (model : ℕ) (names : List Name) (bs : List Binding) (r : Registry) (n : Name)
      → is_accessor (r.vars model n) ≡ false
      → is_accessor ((delete_accessors program model names bs r).vars model n) ≡ false
  unfolding delete_accessors
  delete_accessors-stays model names [] r n h = h
  delete_accessors-stays model names (b ∷ bs) r n h =
      delete_accessors-stays model names bs _ n
        (elim (Bool-cases (
          not (elem (process_name_of program b) names)
          && is_accessor (r.vars model (process_name_of program b)))) [
            | inl e ↦ rw e (ground (arith, h))
            | inr e ↦ rw e h
          ])

  delete_accessors-deleted :
      (model : ℕ) (names : List Name) (bs : List Binding) (r : Registry) (b : Binding)
      → Among b bs
      → elem (process_name_of program b) names ≡ false
      → is_accessor
          ((delete_accessors program model names bs r).vars model (process_name_of program b))
        ≡ false
  unfolding delete_accessors
  delete_accessors-deleted model names [] r b m h = absurd m
  delete_accessors-deleted model names (c ∷ bs) r b (inl e) h =
      delete_accessors-stays model names bs _ (process_name_of program b) (
        subst⁻¹
          (λ z.
            is_accessor (
              (if not (elem (process_name_of program c) names)
                    && is_accessor (r.vars model (process_name_of program c))
                  then put model (process_name_of program c) none r
                  else r).vars
                model (process_name_of program z))
            ≡ false)
          e
          (let h' = subst (λ z. elem (process_name_of program z) names ≡ false) e h in
            elim (Bool-cases (is_accessor (r.vars model (process_name_of program c)))) [
              | inl a ↦ rw (h', a) (ground arith)
              | inr a ↦ rw (h', a) a
            ]))
  delete_accessors-deleted model names (c ∷ bs) r b (inr m) h =
      delete_accessors-deleted model names bs _ b m h

  -- What `unbind_model_process` removes are bindings of its model.
  removed-model :
      (model : ℕ) (p : Option ℕ) (f : Option Name) (bs : List Binding) (b : Binding)
      → bound b (filter (selects model p f) bs) ≡ true
      → b.model ≡ model
  removed-model model p f bs b h =
      let (x, m, e) = any-Among (same b) (filter (selects model p f) bs) h in
      let (_, s) = Among-of-filter (selects model p f) bs x m in ground (arith, same-eq b x e, s)

  module _ (model : ℕ) (p : Option ℕ) (f : Option Name) (r : Registry)
      (v : IsRegistered program r) where
    abbrev removed : List Binding
    removed = filter (selects model p f) r.bindings

    abbrev kept : List Binding
    kept = without removed r.bindings

    abbrev still_bound : List Name
    still_bound = claimed program model kept

    abbrev after : Registry
    after = (unbind_model_process program model p f r).1

    bindings-after : after.bindings ≡ kept
    unfolding unbind_model_process
    bindings-after =
        delete_accessors-bindings model still_bound removed (record r { bindings = kept })

    installed-after :
        (b : Binding)
        → Among b kept
        → after.vars b.model (process_name_of program b)
          ≡ some (accessor b.process_class b.state_field)
    unfolding unbind_model_process
    installed-after b m =
        let (old, _) = Among-of-filter (λ b. not (bound b removed)) r.bindings b m in
        delete_accessors-kept model still_bound removed (record r { bindings = kept }) b.model
          (process_name_of program b)
          (elim (Bool-cases (b.model == model)) [
            | inl e ↦
                let here = Among-filter (λ b. b.model == model) kept b m e in
                let named = Among-map-elem (process_name_of program) _ b here in rw (e, named) refl
            | inr e ↦ rw e refl
          ])
        ∙ v.installed b old

    owned-after :
        (k : ℕ) (n : Name) (c : ℕ) (g : Name)
        → after.vars k n ≡ some (accessor c g)
        → Among (record { model = k; process_class = c; state_field = g }) kept
          × ((program.classes c).process_name ≡ n)
    unfolding unbind_model_process
    owned-after k n c g h =
        let b : Binding = record { model = k; process_class = c; state_field = g } in
        let there =
          delete_accessors-fewer model still_bound removed (record r { bindings = kept }) k n
            (accessor c g) h in
        let (m, e) = v.owned k n c g there in
        (
          elim (Bool-cases (bound b removed)) [
            | inr in_place ↦
                Among-filter (λ b. not (bound b removed)) r.bindings b m (rw in_place refl)
            | inl gone ↦
                let k_eq = removed-model model p f r.bindings b gone in
                let (x, i, s) = any-Among (same b) removed gone in
                let listed = subst⁻¹ (λ z. Among z removed) (same-eq b x s) i in
                elim (Bool-cases (elem (process_name_of program b) still_bound)) [
                  | inl named ↦
                      let (y, j, o) =
                        elem-map-Among (process_name_of program)
                          (filter (λ z. z.model == model) kept) (process_name_of program b) named in
                      let (stays, l) = Among-of-filter (λ z. z.model == model) kept y j in
                      let l' = (==_iff y.model model).0 l in
                      let held = installed-after y stays in
                      subst (λ z. Among z kept) (ground (arith, held, h, e, o, k_eq, l')) stays
                  | inr free ↦
                      let deleted =
                        delete_accessors-deleted model still_bound removed
                          (record r { bindings = kept }) b listed free in
                      absurd (ground (arith, deleted, h, k_eq, e))
                ]
          ],
          e,
        )

    pub unbind-IsRegistered : IsRegistered program after
    unbind-IsRegistered = record {
      installed = λ b m. installed-after b (subst (λ bs. Among b bs) bindings-after m);
      owned = λ k n c g h.
          let (m, e) = owned-after k n c g h in
          (
            subst⁻¹ (λ bs. Among (record { model = k; process_class = c; state_field = g }) bs)
                bindings-after m,
            e,
          );
    }
