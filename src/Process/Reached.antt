-- ===== src/Process/Reached.antt =====
-- The walk over the process classes ends, and yields each class that the root reaches once.
use django_logic.Prelude.{
  ℕ, zero, suc, ◌≤◌, ◌<◌, ◌≡◌, refl, sym, ◌↔◌, true, false, not, List, [], ◌∷◌, ◌++◌, elem, filter,
  length, Nodup, elem-append, Bool-cases, ==_iff, subst, inl, inr, ◌==◌, arith,
}
use django_logic.Exec.{Result, ok, ok_injective}
use django_logic.Results.{>>=-ok}
use django_logic.Process.Tree.{
  Walk, walk_all, iter_process_tree, Reaches, here, step, Covers, iter_process_tree-Covers,
}

-- The classes of `all` that are not seen.
abbrev unseen : List ℕ → List ℕ → ℕ
unseen all seen = length (filter (λ x. not (elem x seen)) all)

unseen_mono :
    (all s t : List ℕ) → ((x : ℕ) → elem x s ≡ true → elem x t ≡ true) → unseen all t ≤ unseen all s
unseen_mono [] s t h = omega arith
unseen_mono (x ∷ all) s t h = ground (arith, unseen_mono all s t h, h x)

unseen-cons :
    (all : List ℕ) (c : ℕ) (s : List ℕ)
    → elem c all ≡ true
    → elem c s ≡ false
    → unseen all (c ∷ s) < unseen all s
unseen-cons [] c s m n = cc
unseen-cons (x ∷ all) c s m n = elim (Bool-cases (x == c)) [
  | inl b ↦
      let e = (==_iff x c).0 b in
      let old = subst (λ z. elem z s ≡ false) (sym e) n in
      ground (arith, old, b, unseen_mono all s (c ∷ s) (λ y h. ground (arith, h)))
  | inr b ↦ ground (arith, b, unseen-cons all c s, m, n, ==_iff x c, ==_iff c x)
]

module _ (nested : ℕ → List ℕ) where
  module _ (root : ℕ) where
    abbrev AllReached : List ℕ → Type 0
    AllReached xs = (x : ℕ) → elem x xs ≡ true → Reaches nested root x

    abbrev StaysReached : (ℕ → List ℕ → Result Walk) → Type 0
    StaysReached visit =
        (c : ℕ) (seen : List ℕ) (w : Walk)
        → visit c seen ≡ ok w
        → Reaches nested root c
        → AllReached w.0

    AllReached-append : (xs ys : List ℕ) → AllReached xs → AllReached ys → AllReached (xs ++ ys)
    AllReached-append xs ys a b x m = elim (Bool-cases (elem x xs)) [
      | inl e ↦ a x e
      | inr e ↦ b x (ground (arith, elem-append x xs ys, m, e))
    ]

    walk_all-AllReached :
        (visit : ℕ → List ℕ → Result Walk)
        → StaysReached visit
        → (cs seen : List ℕ) (w : Walk) → walk_all visit cs seen ≡ ok w
        → AllReached cs
        → AllReached w.0
    unfolding walk_all
    walk_all-AllReached visit good [] seen w h r =
        subst (λ v. AllReached v.0) (ok_injective h) (λ x e. cc)
    walk_all-AllReached visit good (c ∷ cs) seen w h r =
        let (first, e, h₁) = >>=-ok (visit c seen) _ h in
        let (rest, e₁, h₂) = >>=-ok (walk_all visit cs first.1) _ h₁ in
        let a = good c seen first e (r c (ground arith)) in
        let b =
          walk_all-AllReached visit good cs first.1 rest e₁ (λ x m. r x (ground (arith, m))) in
        subst (λ v. AllReached v.0) (ok_injective h₂) (AllReached-append first.0 rest.0 a b)

    iter_process_tree-AllReached : (fuel : ℕ) → StaysReached (iter_process_tree nested fuel)
    unfolding iter_process_tree
    iter_process_tree-AllReached zero c seen w h r = cc
    iter_process_tree-AllReached (suc fuel) c seen w h r = elim (Bool-cases (elem c seen)) [
      | inl b ↦ subst (λ v. AllReached v.0) (ok_injective (rw b at h)) (λ x e. cc)
      | inr b ↦
          let visit = iter_process_tree nested fuel in
          let (below, e, h₁) = >>=-ok (walk_all visit (nested c) (c ∷ seen)) _ (rw b at h) in
          let a =
            walk_all-AllReached visit (iter_process_tree-AllReached fuel) (nested c) (c ∷ seen)
              below e (λ y m. step r y m) in
          subst (λ v. AllReached v.0) (ok_injective h₁)
            (AllReached-append (c ∷ []) below.0
              (λ x m. subst (Reaches nested root) (sym ((==_iff x c).0 (ground (arith, m)))) r) a)
    ]

  -- All classes of the program: a list that nesting does not leave.
  abbrev pub IsClosed : List ℕ → Type 0
  IsClosed all = (x y : ℕ) → elem x all ≡ true → elem y (nested x) ≡ true → elem y all ≡ true

  module _ (all : List ℕ) (universe : IsClosed all) where
    abbrev Ends : Result Walk → List ℕ → Type 0
    Ends r seen = (w : Walk) × (r ≡ ok w) × (unseen all w.1 ≤ unseen all seen)

    abbrev EndsBelow : ℕ → (ℕ → List ℕ → Result Walk) → Type 0
    EndsBelow n visit =
        (c : ℕ) (seen : List ℕ) → elem c all ≡ true → unseen all seen < n → Ends (visit c seen) seen

    walk_all-Ends :
        (n : ℕ) (visit : ℕ → List ℕ → Result Walk)
        → EndsBelow n visit
        → (cs seen : List ℕ) → ((y : ℕ) → elem y cs ≡ true → elem y all ≡ true)
        → unseen all seen < n
        → Ends (walk_all visit cs seen) seen
    unfolding walk_all
    walk_all-Ends n visit good [] seen h m = (([], seen), refl, omega arith)
    walk_all-Ends n visit good (c ∷ cs) seen h m =
        let (first, e, a) = good c seen (h c (ground arith)) m in
        let (rest, e₁, a₁) =
          walk_all-Ends n visit good cs first.1 (λ y k. h y (ground (arith, k))) (omega arith) in
        ((first.0 ++ rest.0, rest.1), rw (e, e₁) refl, omega arith)

    iter_process_tree-Ends : (fuel : ℕ) → EndsBelow fuel (iter_process_tree nested fuel)
    unfolding iter_process_tree
    iter_process_tree-Ends zero c seen m n = absurd (omega arith)
    iter_process_tree-Ends (suc fuel) c seen m n = elim (Bool-cases (elem c seen)) [
      | inl b ↦ (([], seen), rw b refl, omega arith)
      | inr b ↦
          let visit = iter_process_tree nested fuel in
          let fewer = unseen-cons all c seen m b in
          let (below, e, a) =
            walk_all-Ends fuel visit (iter_process_tree-Ends fuel) (nested c) (c ∷ seen)
              (λ y k. universe c y m k) (omega arith) in
          ((c ∷ below.0, below.1), rw (b, e) refl, omega arith)
    ]

    unseen-le : (xs : List ℕ) → unseen xs [] ≤ length xs
    unseen-le [] = omega arith
    unseen-le (x ∷ xs) = ground (arith, unseen-le xs)

    -- What a walk from the root yields, closed under nesting.
    Reaches-elem :
        (root : ℕ) (w : Walk)
        → Covers nested (root ∷ []) [] w
        → (c : ℕ) → Reaches nested root c
        → elem c w.0 ≡ true
    Reaches-elem root w v c here = ground (arith, v.1 c, v.0.adds c)
    Reaches-elem root w v c (step {c = b} r _ m) =
        let known = Reaches-elem root w v b r in ground (arith, v.0.closed b c known m, v.0.adds c)

    -- Where nesting does not leave a list of classes, shorter than the recursion limit, with
    -- the root among them, the walk ends without a RecursionError, yields no class twice,
    -- and yields exactly the classes that the root reaches.
    pub iter_process_tree_lem :
        (fuel root : ℕ)
        → length all < fuel
        → elem root all ≡ true
        → (w : Walk) × (iter_process_tree nested fuel root [] ≡ ok w)
          × Nodup w.0
          × ((c : ℕ) → (elem c w.0 ≡ true) ↔ Reaches nested root c)
    iter_process_tree_lem fuel root enough m =
        let (w, e, _) = iter_process_tree-Ends fuel root [] m (omega (arith, unseen-le all)) in
        let v = iter_process_tree-Covers nested fuel root [] w e in
        (
          w,
          e,
          v.0.nodup,
          λ c. (iter_process_tree-AllReached root fuel root [] w e here c, Reaches-elem root w v c),
        )
