-- ===== src/Process/Resolving.antt =====
-- What a call by action name resolves to: a transition of that name, declared by a class of the tree.
use django_logic.Prelude.{
  ℕ, zero, suc, ◌≡◌, refl, ap, Bool, true, false, Option, some, List, [], ◌∷◌, ◌++◌, elem, Among,
  All, All-append, All-map, Bool-cases, subst, subst⁻¹, inl, inr, arith, if◌then◌else◌,
}
use django_logic.Exec.{ok, pure, ◌>>=◌, >>=-ok, ok_injective}
use django_logic.Django.{Django, Name, State}
use django_logic.World.{World, M}
use django_logic.Process.Tree.{Reaches, here, step}
use django_logic.Process.{
  Declared, Program, Found, name_of, nested, transitions_of, process_is_valid, is_other,
  is_available, own_transitions, Finds, nested_available, is_closed, iter_available_with_owner,
  exactly_one, resolve_transition_with_owner,
}

module _ {d : Django} (program : Program d) (s : State) (user : Option ℕ)
    (action_name : Option Name) where
  -- What the loop over one class finds.
  abbrev Own : ℕ → List (Declared d) → Found d → Type 0
  Own c ts f = Among f.0 ts × (f.1 ≡ c) × (is_other program s user action_name f.0 ≡ false)

  later :
      (c : ℕ) (t : Declared d) (ts : List (Declared d)) (f : Found d)
      → Own c ts f
      → Own c (t ∷ ts) f
  later c t ts f o = (inr o.0, o.1, o.2)

  pure-ok : {A : Type 0} {a b : A} {w w' : World d} → pure a w ≡ (ok b, w') → a ≡ b
  pure-ok h = ok_injective (ap (λ r. r.0) h)

  own_transitions-Own :
      (c : ℕ) (ts : List (Declared d)) (w : World d) {fs : List (Found d)} {w' : World d}
      → own_transitions program s user action_name c ts w ≡ (ok fs, w')
      → All (Own c ts) fs
  unfolding own_transitions
  own_transitions-Own c [] w h = subst (All (Own c [])) (pure-ok h) tt
  own_transitions-Own c (t ∷ ts) w h = elim (Bool-cases (is_other program s user action_name t)) [
    | inl b ↦
        All-map (Own c ts) (Own c (t ∷ ts)) _ (later c t ts)
          (own_transitions-Own c ts w (rw b at h))
    | inr b ↦
        let (available, w₁, _, h₁) = >>=-ok (is_available program s user t) _ w (rw b at h) in
        let (more, w₂, e, h₂) = >>=-ok (own_transitions program s user action_name c ts) _ w₁ h₁ in
        let rest =
          All-map (Own c ts) (Own c (t ∷ ts)) more (later c t ts) (own_transitions-Own c ts w₁ e) in
        subst (All (Own c (t ∷ ts))) (pure-ok h₂)
          (elim available as (λ a. All (Own c (t ∷ ts)) (if a then (t, c) ∷ more else more)) [
            | true ↦ ((inl refl, refl, b), rest)
            | false ↦ rest
          ])
  ]

  module _ (root : ℕ) where
    -- What a walk finds.
    abbrev Owned : Found d → Type 0
    Owned f =
        Reaches (nested program) root f.1
        × Among f.0 (transitions_of program f.1)
        × (is_other program s user action_name f.0 ≡ false)

    Own-Owned :
        (c : ℕ)
        → Reaches (nested program) root c
        → (f : Found d) → Own c (transitions_of program c) f
        → Owned f
    Own-Owned c r f o =
        subst⁻¹
          (λ z.
            Reaches (nested program) root z
            × Among f.0 (transitions_of program z)
            × (is_other program s user action_name f.0 ≡ false))
          o.1 (r, o.0, o.2)

    abbrev FindsOwned : (ℕ → List ℕ → M d (Finds program s user)) → Type 0
    FindsOwned visit =
        (c : ℕ) (seen : List ℕ) (w w' : World d) (r : Finds program s user)
        → visit c seen w ≡ (ok r, w')
        → Reaches (nested program) root c
        → All Owned r.0

    nested_available-Owned :
        (visit : ℕ → List ℕ → M d (Finds program s user))
        → FindsOwned visit
        → (cs seen : List ℕ) (w w' : World d) (r : Finds program s user)
        → nested_available program s user visit cs seen w ≡ (ok r, w')
        → ((c : ℕ) → elem c cs ≡ true → Reaches (nested program) root c)
        → All Owned r.0
    unfolding nested_available
    nested_available-Owned visit good [] seen w w' r h m = subst (λ x. All Owned x.0) (pure-ok h) tt
    nested_available-Owned visit good (c ∷ cs) seen w w' r h m =
        let (first, w₁, e, h₁) = >>=-ok (visit c seen) _ w h in
        let (rest, w₂, e₁, h₂) =
          >>=-ok (nested_available program s user visit cs first.1) _ w₁ h₁ in
        let a = good c seen w w₁ first e (m c (ground arith)) in
        let b =
          nested_available-Owned visit good cs first.1 w₁ w₂ rest e₁
            (λ x k. m x (ground (arith, k))) in
        subst (λ x. All Owned x.0) (pure-ok h₂) (All-append Owned first.0 rest.0 a b)

    opened :
        (c : ℕ) (seen : List ℕ) (w w' : World d) (r : Finds program s user)
        (visit : ℕ → List ℕ → M d (Finds program s user)) (closed : Bool)
        → (if closed then pure ([], c ∷ seen) else (do
          own ← own_transitions program s user action_name c (transitions_of program c)
          below ← nested_available program s user visit (nested program c) (c ∷ seen)
          pure (own ++ below.0, below.1)))
            w
          ≡ (ok r, w')
        → FindsOwned visit
        → Reaches (nested program) root c
        → All Owned r.0
    opened c seen w w' r visit true h good reached = subst (λ x. All Owned x.0) (pure-ok h) tt
    opened c seen w w' r visit false h good reached =
        let (own, w₁, e, h₁) =
          >>=-ok (own_transitions program s user action_name c (transitions_of program c)) _ w h in
        let (below, w₂, e₁, h₂) =
          >>=-ok (nested_available program s user visit (nested program c) (c ∷ seen)) _ w₁ h₁ in
        let a =
          All-map (Own c (transitions_of program c)) Owned own (Own-Owned c reached)
            (own_transitions-Own c (transitions_of program c) w e) in
        let b =
          nested_available-Owned visit good (nested program c) (c ∷ seen) w₁ w₂ below e₁
            (λ x k. step reached x k) in
        subst (λ x. All Owned x.0) (pure-ok h₂) (All-append Owned own below.0 a b)

    iter_available-Owned :
        (ignore_state : Bool) (fuel : ℕ)
        → FindsOwned (iter_available_with_owner program s user action_name ignore_state fuel)
    unfolding iter_available_with_owner
    iter_available-Owned ignore_state zero c seen w w' r h reached = cc
    iter_available-Owned ignore_state (suc fuel) c seen w w' r h reached =
        elim (Bool-cases (elem c seen)) [
          | inl b ↦ subst (λ x. All Owned x.0) (pure-ok (rw b at h)) tt
          | inr b ↦
              let visit = iter_available_with_owner program s user action_name ignore_state fuel in
              let (valid, w₁, _, h₁) = >>=-ok (process_is_valid program s user c) _ w (rw b at h) in
              let (closed, w₂, _, h₂) =
                >>=-ok (if valid then is_closed program s user ignore_state else pure true) _ w₁
                  h₁ in
              opened c seen w₂ w' r visit closed h₂ (iter_available-Owned ignore_state fuel) reached
        ]

module _ {d : Django} (program : Program d) (s : State) (user : Option ℕ) where
  exactly_one-All :
      (P : Found d → Type 0) (fs : List (Found d)) (w : World d) {f : Found d} {w' : World d}
      → exactly_one program s user fs w ≡ (ok f, w')
      → All P fs
      → P f
  exactly_one-All P [] w h a = cc
  exactly_one-All P (x ∷ []) w h a = subst P (ok_injective (ap (λ r. r.0) h)) a.0
  exactly_one-All P (x ∷ y ∷ fs) w h a = cc

  name-of-is_other :
      (action_name : Name) (t : Declared d)
      → is_other program s user (some action_name) t ≡ false
      → name_of t ≡ action_name
  name-of-is_other action_name t h = ground arith

  -- A call that resolves finds a transition of the name that was called, declared by the class
  -- that it returns, which the root reaches.
  pub resolve_transition_with_owner_lem :
      (action_name : Name) (root : ℕ) (w : World d) {t : Declared d} {c : ℕ} {w' : World d}
      → resolve_transition_with_owner program s user action_name root w ≡ (ok (t, c), w')
      → Reaches (nested program) root c
        × Among t (transitions_of program c)
        × (name_of t ≡ action_name)
  unfolding resolve_transition_with_owner
  resolve_transition_with_owner_lem action_name root w {t = t} h =
      let walk =
        iter_available_with_owner program s user (some action_name) true program.depth root [] in
      let (found, w₁, e, h₁) = >>=-ok walk _ w h in
      let owned =
        iter_available-Owned program s user (some action_name) root true program.depth root [] w w₁
          found e here in
      let (a, b, n) =
        exactly_one-All (Owned program s user (some action_name) root) found.0 w₁ h₁ owned in
      (a, b, name-of-is_other action_name t n)
