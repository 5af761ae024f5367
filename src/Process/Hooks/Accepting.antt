-- ===== src/Process/Hooks/Accepting.antt =====
-- Which processes the check of hook signatures accepts.
use django_logic.Prelude.{
  ℕ, ◌≡◌, refl, ◌↔◌, ◌⊎◌, inl, inr, true, Option, some, List, [], ◌∷◌, Among, ap, Bool-cases,
  Option-cases, flat_map-nil_Among, Among-flat_map_nil, elem-Among, Among-append, Among-append_left,
  Among-append_right, subst, ◌++◌, map, flat_map, none, subst⁻¹, Among-map, Among-of-map,
  Among-flat_map, Among-of-flat_map,
}
use django_logic.Exec.{ok, ok_injective}
use django_logic.Django.{Django, Name}
use django_logic.Process.{name_of, Declared, Program, nested, transitions_of}
use django_logic.Process.Tree.{Reaches}
use django_logic.Process.Validation.{IsFinite, tree_lem}
use django_logic.Process.Hooks.{
  HookAttribute, side_effects, callbacks, failure_callbacks, conditions, permissions,
  hook_attributes, transition_hooks, listed, ParameterKind, positional_only, positional_or_keyword,
  var_positional, keyword_only, var_keyword, Hook, Attributes, names_first, is_accepted, check,
  class_hooks, class_offenders, collect_hook_signature_offenders,
}

-- A parameter that a positional argument fills and that has a name.
abbrev pub IsNamed : ParameterKind → Type 0
IsNamed k = (k ≡ positional_only) ⊎ (k ≡ positional_or_keyword)

-- A hook whose signature can be read has a first parameter, and that is named.
abbrev pub TakesInstance : Hook → Type 0
TakesInstance h =
    (ks : List ParameterKind)
    → h.signature ≡ some ks
    → (k : ParameterKind) × (rest : List ParameterKind) × (ks ≡ k ∷ rest) × IsNamed k

names_first-IsNamed :
    (ks : List ParameterKind)
    → names_first ks ≡ true
    → (k : ParameterKind) × (rest : List ParameterKind) × (ks ≡ k ∷ rest) × IsNamed k
unfolding names_first
names_first-IsNamed [] h = cc
names_first-IsNamed (positional_only ∷ ks) h = (positional_only, ks, refl, inl refl)
names_first-IsNamed (positional_or_keyword ∷ ks) h = (positional_or_keyword, ks, refl, inr refl)
names_first-IsNamed (var_positional ∷ ks) h = cc
names_first-IsNamed (keyword_only ∷ ks) h = cc
names_first-IsNamed (var_keyword ∷ ks) h = cc

IsNamed-names_first :
    (ks : List ParameterKind) (k : ParameterKind) (rest : List ParameterKind)
    → ks ≡ k ∷ rest
    → IsNamed k
    → names_first ks ≡ true
unfolding names_first
IsNamed-names_first ks k rest e (inl p) = rw (e, p) refl
IsNamed-names_first ks k rest e (inr p) = rw (e, p) refl

is_accepted-TakesInstance : (h : Hook) → (is_accepted h ≡ true) ↔ TakesInstance h
unfolding is_accepted
is_accepted-TakesInstance h = (
  λ a ks e. names_first-IsNamed ks (rw e at a),
  λ t. elim (Option-cases h.signature) [
    | inl e ↦ rw e refl
    | inr (ks, e) ↦ let (k, rest, p, n) = t ks e in rw e (IsNamed-names_first ks k rest p n)
  ],
)

check-nil :
    (owner : Name) (x : Option Name × Hook) → (check owner x ≡ []) ↔ (is_accepted x.1 ≡ true)
unfolding check
check-nil owner x = elim (Bool-cases (is_accepted x.1)) [
  | inl a ↦ (λ _. a, λ _. rw a refl)
  | inr a ↦ (λ e. cc (rw a at e), λ e. cc (a, e))
]

-- Each slot of a transition that holds hooks is read.
hook_attributes-all : (attr : HookAttribute) → Among attr hook_attributes
hook_attributes-all side_effects = inl refl
hook_attributes-all callbacks = inr (inl refl)
hook_attributes-all failure_callbacks = inr (inr (inl refl))
hook_attributes-all conditions = inr (inr (inr (inl refl)))
hook_attributes-all permissions = inr (inr (inr (inr (inl refl))))

module _ {d : Django} (attributes : Attributes) (program : Program d) where
  -- The hooks of a class: those of its `conditions` and `permissions`, where these are lists, and
  -- those in any slot of one of its transitions.
  pub data IsHookOf (c : ℕ) (h : Hook) : Type 0 where
    of_conditions :
        (hooks : List Hook)
        → attributes.class_conditions c ≡ some hooks
        → Among h hooks
        → IsHookOf c h
    of_permissions :
        (hooks : List Hook)
        → attributes.class_permissions c ≡ some hooks
        → Among h hooks
        → IsHookOf c h
    of_transition :
        (t : Declared d) (attr : HookAttribute)
        → Among t (program.classes c).transitions
        → Among h (attributes.commands t.ref attr)
        → IsHookOf c h

  Among-transition_hooks :
      (t : Declared d) (x : Option Name × Hook)
      → Among x (transition_hooks attributes t)
      → (attr : HookAttribute) × Among x.1 (attributes.commands t.ref attr)
  unfolding transition_hooks
  Among-transition_hooks t x m =
      let f = λ (attr : HookAttribute).
        map (λ h. (some (name_of t), h)) (attributes.commands t.ref attr) in
      let (attr, _, n) = Among-of-flat_map f hook_attributes x m in
      let (h, i, e) =
        Among-of-map {B = Option Name × Hook} (λ h. (some (name_of t), h))
          (attributes.commands t.ref attr) x n in
      (attr, subst⁻¹ (λ (z : Option Name × Hook). Among z.1 (attributes.commands t.ref attr)) e i)

  -- A hook of a list that is there.
  listed-Among :
      (hooks : Option (List Hook)) (x : Option Name × Hook)
      → Among x (map (λ h. (none, h)) (listed hooks))
      → (hs : List Hook) × (hooks ≡ some hs) × Among x.1 hs
  listed-Among none x m = absurd m
  listed-Among (some hs) x m =
      let (h, i, e) = Among-of-map {B = Option Name × Hook} (λ h. (none, h)) hs x m in
      (hs, refl, subst⁻¹ (λ (z : Option Name × Hook). Among z.1 hs) e i)

  abbrev Checked : Type 0
  Checked = Option Name × Hook

  -- The three parts of the hooks of a class.
  abbrev first_part : ℕ → List Checked
  first_part c = map (λ h. (none, h)) (listed (attributes.class_conditions c))

  abbrev second_part : ℕ → List Checked
  second_part c = map (λ h. (none, h)) (listed (attributes.class_permissions c))

  abbrev third_part : ℕ → List Checked
  third_part c = flat_map (transition_hooks attributes) (transitions_of program c)

  class_hooks-parts :
      (c : ℕ) → class_hooks attributes program c ≡ first_part c ++ second_part c ++ third_part c
  unfolding class_hooks
  class_hooks-parts c = refl

  parts-IsHookOf :
      (c : ℕ) (x : Checked)
      → Among x (first_part c ++ second_part c ++ third_part c)
      → IsHookOf c x.1
  parts-IsHookOf c x m = elim (Among-append x (first_part c ++ second_part c) (third_part c) m) [
    | inl own ↦ elim (Among-append x (first_part c) (second_part c) own) [
      | inl i ↦
          let (hs, e, n) = listed-Among (attributes.class_conditions c) x i in of_conditions hs e n
      | inr i ↦
          let (hs, e, n) = listed-Among (attributes.class_permissions c) x i in
          of_permissions hs e n
    ]
    | inr i ↦
        let (t, n, k) =
          Among-of-flat_map (transition_hooks attributes) (transitions_of program c) x i in
        let (attr, hook) = Among-transition_hooks t x k in of_transition t attr n hook
  ]

  class_hooks-IsHookOf :
      (c : ℕ) (x : Checked) → Among x (class_hooks attributes program c) → IsHookOf c x.1
  class_hooks-IsHookOf c x m = parts-IsHookOf c x (subst (Among x) (class_hooks-parts c) m)

  IsHookOf-parts :
      (c : ℕ) (h : Hook)
      → IsHookOf c h
      → (action : Option Name) × Among (action, h) (first_part c ++ second_part c ++ third_part c)
  unfolding transition_hooks
  IsHookOf-parts c h (of_conditions hooks e m) =
      let x : Checked = (none, h) in
      let i : Among x (first_part c) = rw e (Among-map (λ h. (none, h)) hooks h m) in
      (
        none,
        Among-append_left x (first_part c ++ second_part c) (third_part c)
            (Among-append_left x (first_part c) (second_part c) i),
      )
  IsHookOf-parts c h (of_permissions hooks e m) =
      let x : Checked = (none, h) in
      let i : Among x (second_part c) = rw e (Among-map (λ h. (none, h)) hooks h m) in
      (
        none,
        Among-append_left x (first_part c ++ second_part c) (third_part c)
            (Among-append_right x (first_part c) (second_part c) i),
      )
  IsHookOf-parts c h (of_transition t attr a m) =
      let x : Checked = (some (name_of t), h) in
      let f = λ (attr : HookAttribute).
        map (λ h. (some (name_of t), h)) (attributes.commands t.ref attr) in
      let hook : Among x (transition_hooks attributes t) =
        Among-flat_map f hook_attributes attr x (hook_attributes-all attr)
          (Among-map (λ h. (some (name_of t), h)) (attributes.commands t.ref attr) h m) in
      (
        some (name_of t),
        Among-append_right x (first_part c ++ second_part c) (third_part c)
            (Among-flat_map (transition_hooks attributes) (transitions_of program c) t x a hook),
      )

  IsHookOf-class_hooks :
      (c : ℕ) (h : Hook)
      → IsHookOf c h
      → (action : Option Name) × Among (action, h) (class_hooks attributes program c)
  IsHookOf-class_hooks c h owned =
      let (action, m) = IsHookOf-parts c h owned in
      let x : Checked = (action, h) in (action, subst⁻¹ (Among x) (class_hooks-parts c) m)

module _ {d : Django} (attributes : Attributes) (program : Program d) (all : List ℕ) (root : ℕ)
    (finite : IsFinite program all root) where
  -- In a finite program no hook is reported exactly where each hook whose signature can be
  -- read, of each class that the root reaches and of its transitions, has a first parameter that
  -- is named and positional.
  pub collect_hook_signature_offenders_lem :
      (collect_hook_signature_offenders attributes program root ≡ ok []) ↔ (
        (c : ℕ) (h : Hook)
        → Reaches (nested program) root c
        → IsHookOf attributes program c h
        → TakesInstance h)
  unfolding collect_hook_signature_offenders
  collect_hook_signature_offenders_lem =
      let (cs, e, _, reach) = tree_lem program all root finite in
      let path = λ (c : ℕ). (program.classes c).path in
      rw e (
        λ h c hook r owned.
            let (action, m) = IsHookOf-class_hooks attributes program c hook owned in
            let x : Option Name × Hook = (action, hook) in
            let quiet =
              flat_map-nil_Among (class_offenders attributes program) cs (ok_injective h) c
                ((elem-Among c cs).0 ((reach c).1 r)) in
            (is_accepted-TakesInstance x.1).0 (
              (check-nil (path c) x).0
                (flat_map-nil_Among (check (path c)) (class_hooks attributes program c) quiet x m)),
        λ good. ap ok (
            Among-flat_map_nil (class_offenders attributes program) cs (λ c m.
              Among-flat_map_nil (check (path c)) (class_hooks attributes program c) (λ x i.
                (check-nil (path c) x).1 (
                  (is_accepted-TakesInstance x.1).1 (
                    good c x.1 ((reach c).0 ((elem-Among c cs).1 m))
                      (class_hooks-IsHookOf attributes program c x i)))))),
      )
