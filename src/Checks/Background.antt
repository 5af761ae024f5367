-- ===== src/Checks/Background.antt =====
-- What the checks of the background installation and of the database routing accept.
use django_logic.Prelude.{
  sorted_set, elem-sorted_set, ==_refl, ℕ, ◌≡◌, refl, subst⁻¹, ◌↔◌, ◌⊎◌, inl, inr, true, false,
  List, [], ◌∷◌, any, Among, any-Among, Among-any, elem-Among, Bool-cases,
}
use django_logic.Exec.{ok, ok_injective}
use django_logic.Django.{Django, Name}
use django_logic.Process.{Declared, Program, in_background, nested, transitions_of}
use django_logic.Process.Tree.{Reaches}
use django_logic.Process.Validation.{IsFinite, tree_lem}
use django_logic.Process.Binding.{Binding}
use django_logic.Checks.{
  missing_app, process_tree_has_background_transition, background_labels,
  check_background_app_is_installed,
}

missing_app-nil : (labels : List Name) → missing_app labels ≡ [] → labels ≡ []
missing_app-nil [] h = refl
missing_app-nil (a ∷ rest) h = cc

missing_app-none : (labels : List Name) → missing_app (sorted_set labels) ≡ [] → labels ≡ []
missing_app-none [] h = refl
missing_app-none (a ∷ rest) h =
    let e = missing_app-nil (sorted_set (a ∷ rest)) h in
    let kept = elem-sorted_set a (a ∷ rest) in cc (rw (e, ==_refl a) at kept)

module _ {d : Django} (program : Program d) where
  -- A class of the tree declares a background transition.
  abbrev pub DeclaresBackground : ℕ → Type 0
  DeclaresBackground root =
      (c : ℕ) × Reaches (nested program) root c
      × (t : Declared d) × Among t (transitions_of program c)
      × (in_background t ≡ true)

  module _ (all : List ℕ) where
    pub has_background_cases :
        (root : ℕ)
        → IsFinite program all root
        → ((process_tree_has_background_transition program root ≡ ok true)
            × DeclaresBackground root)
          ⊎ ((process_tree_has_background_transition program root ≡ ok false)
              × (¬ DeclaresBackground root))
    unfolding process_tree_has_background_transition
    has_background_cases root finite =
        let (cs, e, _, reach) = tree_lem program all root finite in
        let declares = λ (c : ℕ). any in_background (transitions_of program c) in
        elim (Bool-cases (any declares cs)) [
          | inl h ↦
              let (c, m, i) = any-Among declares cs h in
              let (t, n, b) = any-Among in_background (transitions_of program c) i in
              inl (rw (e, h) refl, (c, (reach c).0 ((elem-Among c cs).1 m), t, n, b))
          | inr h ↦ inr (
            rw (e, h) refl,
            λ (c, r, t, n, b).
                let i = Among-any in_background (transitions_of program c) t n b in
                let k = Among-any declares cs c ((elem-Among c cs).0 ((reach c).1 r)) i in
                cc (h, k),
          )
        ]

    abbrev pub AllFinite : List Binding → Type 0
    AllFinite bs = (b : Binding) → Among b bs → IsFinite program all b.process_class

    -- The labels of the background-bound models are there exactly where such a model is.
    background_labels-none :
        (label : ℕ → Name) (bs : List Binding)
        → AllFinite bs
        → (labels : List Name) × (background_labels program label bs ≡ ok labels)
          × ((labels ≡ []) ↔ ((b : Binding) → Among b bs → ¬ DeclaresBackground b.process_class))
    unfolding background_labels
    background_labels-none label [] f = ([], refl, (λ _ b m. absurd m, λ _. refl))
    background_labels-none label (b ∷ bs) f =
        let (rest, e, iff) = background_labels-none label bs (λ x m. f x (inr m)) in
        elim (has_background_cases b.process_class (f b (inl refl))) [
          | inl (h, y) ↦
              (label b.model ∷ rest, rw (h, e) refl, (λ k. cc, λ k. absurd (k b (inl refl) y)))
          | inr (h, n) ↦ (
            rest,
            rw (h, e) refl,
            (
              λ k x m. elim m [
                | inl s ↦ subst⁻¹ (λ z. ¬ DeclaresBackground z.process_class) s n
                | inr i ↦ iff.0 k x i
              ],
              λ k. iff.1 (λ x m. k x (inr m)),
            ),
          )
        ]

    -- In finite programs the check of an install without the background app reports nothing exactly
    -- where no bound process declares a background transition, itself or nested.
    pub check_background_app_is_installed_lem :
        (label : ℕ → Name) (bs : List Binding)
        → AllFinite bs
        → (check_background_app_is_installed program false label bs ≡ ok [])
          ↔ ((b : Binding) → Among b bs → ¬ DeclaresBackground b.process_class)
    unfolding check_background_app_is_installed
    check_background_app_is_installed_lem label bs f =
        let (labels, e, iff) = background_labels-none label bs f in
        rw e (λ h. iff.0 (missing_app-none labels (ok_injective h)), λ k. rw (iff.1 k) refl)
