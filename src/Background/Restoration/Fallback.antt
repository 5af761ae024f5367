-- ===== src/Background/Restoration/Fallback.antt =====
-- A row whose recorded class is gone: the name alone decides only where it names one transition.
use django_logic.Prelude.{
  ℕ, ◌≡◌, refl, ◌∙◌, Bool, true, false, not, ◌&&◌, ◌||◌, none, List, [], ◌∷◌, ◌++◌, elem,
  elem-append, truthy, Among, Bool-cases, ==_iff, ==_refl, subst, inl, inr, ◌==◌, arith,
}
use django_logic.Errors.{restore_error}
use django_logic.Exec.{ok, err}
use django_logic.Django.{Django, Name}
use django_logic.Process.Tree.{Reaches}
use django_logic.Process.{Declared, Program, nested, transitions_of}
use django_logic.Process.Validation.{IsFinite, tree_lem}
use django_logic.Background.Restoration.{
  is_candidate, named_in, named, background_transitions_named, find_background_transition_in_owner,
  find_by_name, only_match, find_transition,
}

swap : (a b c : Bool) → (b || (a || c)) ≡ ((a || b) || c)
swap true true c = refl
swap true false c = refl
swap false true c = refl
swap false false c = refl

module _ {d : Django} (name : Name) where
  abbrev refs : List (Declared d) → List ℕ
  refs [] = []
  refs (t ∷ ts) = t.ref ∷ refs ts

  refs-append : (xs ys : List (Declared d)) → refs (xs ++ ys) ≡ refs xs ++ refs ys
  refs-append [] ys = refl
  refs-append (x ∷ xs) ys = rw (refs-append xs ys) refl

  -- The set after the loop holds what was kept and what it held.
  named_in-seen :
      (seen : List ℕ) (ts : List (Declared d)) (r : ℕ)
      → elem r (named_in name seen ts).1 ≡ (elem r (refs (named_in name seen ts).0) || elem r seen)
  unfolding named_in
  named_in-seen seen [] r = refl
  named_in-seen seen (t ∷ ts) r = elim (Bool-cases (is_candidate name t && not (elem t.ref seen))) [
    | inl b ↦ rw b (
        named_in-seen (t.ref ∷ seen) ts r
        ∙ swap (r == t.ref) (elem r (refs (named_in name (t.ref ∷ seen) ts).0)) (elem r seen))
    | inr b ↦ rw b (named_in-seen seen ts r)
  ]

  -- Every candidate is in it.
  named_in-covers :
      (seen : List ℕ) (ts : List (Declared d)) (u : Declared d)
      → Among u ts
      → is_candidate name u ≡ true
      → elem u.ref (named_in name seen ts).1 ≡ true
  unfolding named_in
  named_in-covers seen [] u a c = absurd a
  named_in-covers seen (t ∷ ts) u (inl e) c =
      subst (λ z. elem u.ref (named_in name seen (z ∷ ts)).1 ≡ true) e
        (elim (Bool-cases (elem u.ref seen)) [
          | inl old ↦ rw (c, old) (ground (arith, named_in-seen seen ts u.ref, old))
          | inr new ↦
              rw (c, new) (ground (arith, named_in-seen (u.ref ∷ seen) ts u.ref, ==_refl u.ref))
        ])
  named_in-covers seen (t ∷ ts) u (inr a) c =
      elim (Bool-cases (is_candidate name t && not (elem t.ref seen))) [
        | inl b ↦ rw b (named_in-covers (t.ref ∷ seen) ts u a c)
        | inr b ↦ rw b (named_in-covers seen ts u a c)
      ]

module _ {d : Django} (program : Program d) (name : Name) where
  -- A candidate of any of the classes is found, or was seen before.
  named-covers :
      (seen cs : List ℕ) (c : ℕ) (u : Declared d)
      → elem c cs ≡ true
      → Among u (transitions_of program c)
      → is_candidate name u ≡ true
      → (elem u.ref (refs name (named program name seen cs)) || elem u.ref seen) ≡ true
  unfolding named
  named-covers seen [] c u m a k = cc
  named-covers seen (x ∷ cs) c u m a k =
      let own = named_in name seen (transitions_of program x) in
      let after = named_in-seen name seen (transitions_of program x) u.ref in
      let split = elem-append u.ref (refs name own.0) (refs name (named program name own.1 cs)) in
      rw (refs-append name own.0 (named program name own.1 cs)) (elim (Bool-cases (c == x)) [
        | inl b ↦
            let here =
              named_in-covers name seen (transitions_of program x) u
                (subst (λ z. Among u (transitions_of program z)) ((==_iff c x).0 b) a) k in
            ground (arith, here, after, split)
        | inr b ↦
            let there = named-covers own.1 cs c u (ground (arith, m, b)) a k in
            ground (arith, there, after, split)
      ])

  -- Two different candidates among the matches are too many.
  only_match-two :
      (ts : List (Declared d)) (a b : ℕ)
      → (a == b) ≡ false
      → elem a (refs name ts) ≡ true
      → elem b (refs name ts) ≡ true
      → only_match program ts ≡ err restore_error
  only_match-two [] a b n x y = cc
  only_match-two (t ∷ []) a b n x y = absurd (ground (arith, n, x, y))
  only_match-two (t ∷ u ∷ ts) a b n x y = refl

  module _ (all : List ℕ) (root : ℕ) (finite : IsFinite program all root) where
    find_by_name-ambiguous :
        (b c : ℕ) (u v : Declared d)
        → Reaches (nested program) root b
        → Reaches (nested program) root c
        → Among u (transitions_of program b)
        → Among v (transitions_of program c)
        → is_candidate name u ≡ true
        → is_candidate name v ≡ true
        → (u.ref == v.ref) ≡ false
        → find_by_name program root name ≡ err restore_error
    unfolding find_by_name background_transitions_named
    find_by_name-ambiguous b c u v rb rc au av ku kv n =
        let (cs, e, _, reach) = tree_lem program all root finite in
        let matches = named program name [] cs in
        let x = named-covers [] cs b u ((reach b).1 rb) au ku in
        let y = named-covers [] cs c v ((reach c).1 rc) av kv in
        rw e (only_match-two matches u.ref v.ref n (ground (arith, x)) (ground (arith, y)))

    -- Where the recorded class does not lead to a transition, or none is recorded, and two
    -- different background transitions of the row's name are declared in the tree, the
    -- worker refuses with a restore error and picks neither.
    pub find_transition-ambiguous :
        (owning_path : Name) (b c : ℕ) (u v : Declared d)
        → find_background_transition_in_owner program root name owning_path ≡ ok none
        → Reaches (nested program) root b
        → Reaches (nested program) root c
        → Among u (transitions_of program b)
        → Among v (transitions_of program c)
        → is_candidate name u ≡ true
        → is_candidate name v ≡ true
        → (u.ref == v.ref) ≡ false
        → find_transition program root name owning_path ≡ err restore_error
    unfolding find_transition
    find_transition-ambiguous owning_path b c u v gone rb rc au av ku kv n =
        let e = find_by_name-ambiguous b c u v rb rc au av ku kv n in
        elim (Bool-cases (truthy owning_path)) [ inl t ↦ rw (t, gone) e | inr t ↦ rw t e ]
