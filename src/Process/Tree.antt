-- ===== src/Process/Tree.antt =====
-- `_iter_process_tree`: a walk over the classes that nest one another, with a set of seen classes.
use django_logic.Prelude.{
  ℕ, zero, suc, ◌≡◌, refl, true, false, ◌||◌, List, [], ◌∷◌, ◌++◌, elem, Nodup, elem-append,
  Nodup-append, Bool-cases, ==_iff, subst, subst⁻¹, sym, inl, inr, ◌==◌, arith, if◌then◌else◌,
}
use django_logic.Errors.{recursion_error}
use django_logic.Exec.{Result, ok, err, ok_injective}
use django_logic.Results.{◌>>=◌, >>=-ok}

-- What the walk yields, and the classes that it has seen.
abbrev pub Walk : Type 0
Walk = List ℕ × List ℕ

unfoldable pub walk_all : (ℕ → List ℕ → Result Walk) → List ℕ → List ℕ → Result Walk
walk_all visit [] seen = ok ([], seen)
walk_all visit (c ∷ cs) seen = do
  first ← visit c seen
  rest ← walk_all visit cs first.1
  ok (first.0 ++ rest.0, rest.1)

module _ (nested : ℕ → List ℕ) where
  -- `_iter_process_tree`. The fuel bounds the depth, as Python's recursion limit does.
  unfoldable pub iter_process_tree : ℕ → ℕ → List ℕ → Result Walk
  unfolding walk_all
  iter_process_tree zero c seen = err recursion_error
  iter_process_tree (suc fuel) c seen =
      let below = walk_all (iter_process_tree fuel) (nested c) (c ∷ seen) in
      let visited = below >>= (λ w. ok (c ∷ w.0, w.1)) in
      if elem c seen then ok ([], seen) else visited

  -- A class is reached through `nested_processes`.
  pub data Reaches (root : ℕ) : ℕ → Type 0 where
    here : Reaches root root
    step : {c : ℕ} → Reaches root c → (b : ℕ) → elem b (nested c) ≡ true → Reaches root b

  -- What a walk adds.
  pub record Walked (seen ys seen' : List ℕ) : Type 0 where
    pub adds : (x : ℕ) → elem x seen' ≡ (elem x ys || elem x seen)
    pub fresh : (x : ℕ) → elem x ys ≡ true → elem x seen ≡ false
    pub nodup : Nodup ys
    pub closed : (x y : ℕ) → elem x ys ≡ true → elem y (nested x) ≡ true → elem y seen' ≡ true

  Walked-append :
      (s₀ ys s₁ zs s₂ : List ℕ) → Walked s₀ ys s₁ → Walked s₁ zs s₂ → Walked s₀ (ys ++ zs) s₂
  Walked-append s₀ ys s₁ zs s₂ a b = record {
    adds = λ x. ground (arith, a.adds x, b.adds x, elem-append x ys zs);
    fresh = λ x e. ground (arith, a.fresh x, a.adds x, b.fresh x, elem-append x ys zs, e);
    nodup = Nodup-append ys zs a.nodup b.nodup (λ x e. ground (arith, a.adds x, b.fresh x, e));
    closed =
        λ x y e n. ground (arith, a.closed x y, b.closed x y, b.adds y, elem-append x ys zs, e, n);
  }

  Walked-visit :
      (c : ℕ) (seen ys seen' : List ℕ)
      → elem c seen ≡ false
      → Walked (c ∷ seen) ys seen'
      → ((y : ℕ) → elem y (nested c) ≡ true → elem y seen' ≡ true)
      → Walked seen (c ∷ ys) seen'
  Walked-visit c seen ys seen' new w covers = record {
    adds = λ x. ground (arith, w.adds x);
    fresh = λ x e. elim (Bool-cases (x == c)) [
      | inl b ↦ subst⁻¹ (λ z. elem z seen ≡ false) ((==_iff x c).0 b) new
      | inr b ↦ ground (arith, w.fresh x, e, b)
    ];
    nodup = ground (arith, w.fresh c);
    closed = λ x y e n. elim (Bool-cases (x == c)) [
      | inl b ↦ covers y (subst (λ z. elem y (nested z) ≡ true) ((==_iff x c).0 b) n)
      | inr b ↦ w.closed x y (ground (arith, e, b)) n
    ];
  }

  -- A walk that ends: it has visited all of `cs`, and what it found below them.
  abbrev pub Covers : List ℕ → List ℕ → Walk → Type 0
  Covers cs seen w = Walked seen w.0 w.1 × ((y : ℕ) → elem y cs ≡ true → elem y w.1 ≡ true)

  abbrev pub VisitsWell : (ℕ → List ℕ → Result Walk) → Type 0
  VisitsWell visit =
      (c : ℕ) (seen : List ℕ) (w : Walk) → visit c seen ≡ ok w → Covers (c ∷ []) seen w

  Walked-none : (seen : List ℕ) → Walked seen [] seen
  Walked-none seen = record {
    adds = λ x. refl;
    fresh = λ x e. cc;
    nodup = tt;
    closed = λ x y e n. cc;
  }

  pub walk_all-Covers :
      (visit : ℕ → List ℕ → Result Walk)
      → VisitsWell visit
      → (cs seen : List ℕ) (w : Walk) → walk_all visit cs seen ≡ ok w
      → Covers cs seen w
  unfolding walk_all
  walk_all-Covers visit good [] seen w h =
      subst (Covers [] seen) (ok_injective h) (Walked-none seen, λ y e. cc)
  walk_all-Covers visit good (c ∷ cs) seen w h =
      let (first, e, h₁) = >>=-ok (visit c seen) _ h in
      let (rest, e₁, h₂) = >>=-ok (walk_all visit cs first.1) _ h₁ in
      let (a, b) = good c seen first e in
      let (a₁, b₁) = walk_all-Covers visit good cs first.1 rest e₁ in
      subst (Covers (c ∷ cs) seen) (ok_injective h₂) (
        Walked-append seen first.0 first.1 rest.0 rest.1 a a₁,
        λ y m. ground (arith, b y, b₁ y, a₁.adds y, m),
      )

  pub iter_process_tree-Covers : (fuel : ℕ) → VisitsWell (iter_process_tree fuel)
  unfolding iter_process_tree
  iter_process_tree-Covers zero c seen w h = cc
  iter_process_tree-Covers (suc fuel) c seen w h = elim (Bool-cases (elem c seen)) [
    | inl b ↦ subst (Covers (c ∷ []) seen) (ok_injective (rw b at h)) (
      Walked-none seen,
      λ y e. subst (λ z. elem z seen ≡ true) (sym ((==_iff y c).0 (ground (arith, e)))) b,
    )
    | inr b ↦
        let visit = iter_process_tree fuel in
        let (below, e, h₁) = >>=-ok (walk_all visit (nested c) (c ∷ seen)) _ (rw b at h) in
        let (a, covers) =
          walk_all-Covers visit (iter_process_tree-Covers fuel) (nested c) (c ∷ seen) below e in
        let visited = Walked-visit c seen below.0 below.1 b a covers in
        subst (Covers (c ∷ []) seen) (ok_injective h₁)
          (visited, λ y m. ground (arith, visited.adds y, m))
  ]
