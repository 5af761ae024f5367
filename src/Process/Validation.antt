-- ===== src/Process/Validation.antt =====
-- Which trees of processes the validation of background action names accepts.
use django_logic.Prelude.{
  ℕ, ◌<◌, ◌≡◌, refl, sym, ◌↔◌, true, false, List, [], ◌∷◌, elem, length, Nodup, Bool-cases, ==_iff,
  subst, inl, inr, ◌==◌, arith, if◌then◌else◌,
}
use django_logic.Exec.{Result, ok}
use django_logic.Results.{each, >>=-ok}
use django_logic.Django.{Django, Name}
use django_logic.Process.Tree.{Reaches}
use django_logic.Process.Reached.{IsClosed, iter_process_tree_lem}
use django_logic.Process.{
  Declared, Program, name_of, in_background, check_unique, nested, transitions_of, tree,
  validate_unique_background_action_names,
}

pub each-ok :
    (check : ℕ → Result (Unit {0})) (cs : List ℕ)
    → each check cs ≡ ok tt
    → (c : ℕ) → elem c cs ≡ true
    → check c ≡ ok tt
each-ok check [] h c m = cc
each-ok check (x ∷ cs) h c m =
    let (_, e, rest) = >>=-ok (check x) (λ _. each check cs) h in
    elim (Bool-cases (c == x)) [
      | inl b ↦ subst (λ z. check z ≡ ok tt) (sym ((==_iff c x).0 b)) e
      | inr b ↦ each-ok check cs rest c (ground (arith, m, b))
    ]

each-all :
    (check : ℕ → Result (Unit {0})) (cs : List ℕ)
    → ((c : ℕ) → elem c cs ≡ true → check c ≡ ok tt)
    → each check cs ≡ ok tt
each-all check [] h = refl
each-all check (x ∷ cs) h =
    rw (h x (ground arith)) (each-all check cs (λ c m. h c (ground (arith, m))))

module _ {d : Django} where
  abbrev pub background_names : List (Declared d) → List Name
  background_names [] = []
  background_names (t ∷ ts) =
      if in_background t then name_of t ∷ background_names ts else background_names ts

  check_unique-Nodup :
      (names : List Name) (ts : List (Declared d))
      → check_unique names ts ≡ ok tt
      → Nodup (background_names ts)
        × ((x : ℕ) → elem x (background_names ts) ≡ true → elem x names ≡ false)
  unfolding check_unique
  check_unique-Nodup names [] h = (tt, λ x e. cc)
  check_unique-Nodup names (t ∷ ts) h = elim (Bool-cases (in_background t)) [
    | inl b ↦ elim (Bool-cases (elem (name_of t) names)) [
      | inl old ↦ cc (rw (b, old) at h)
      | inr new ↦
          let (a, apart) = check_unique-Nodup (name_of t ∷ names) ts (rw (b, new) at h) in
          rw b (
            (ground (arith, apart (name_of t)), a),
            λ x e. elim (Bool-cases (x == name_of t)) [
              | inl same ↦
                  subst (λ z. elem z names ≡ false) (sym ((==_iff x (name_of t)).0 same)) new
              | inr other ↦ ground (arith, apart x, e, other)
            ],
          )
    ]
    | inr b ↦ rw b (check_unique-Nodup names ts (rw b at h))
  ]

  Nodup-check_unique :
      (names : List Name) (ts : List (Declared d))
      → Nodup (background_names ts)
      → ((x : ℕ) → elem x (background_names ts) ≡ true → elem x names ≡ false)
      → check_unique names ts ≡ ok tt
  unfolding check_unique
  Nodup-check_unique names [] n h = refl
  Nodup-check_unique names (t ∷ ts) n h = elim (Bool-cases (in_background t)) [
    | inl b ↦
        let unique : Nodup (name_of t ∷ background_names ts) = rw b at n in
        let new : elem (name_of t) names ≡ false = h (name_of t) (rw b (ground arith)) in
        rw (b, new)
          (Nodup-check_unique (name_of t ∷ names) ts unique.1 (λ x e.
            elim (Bool-cases (x == name_of t)) [
              | inl same ↦ cc (
                unique.0,
                subst (λ z. elem z (background_names ts) ≡ true) ((==_iff x (name_of t)).0 same) e,
              )
              | inr other ↦ ground (arith, other, h x (rw b (ground (arith, e))))
            ]))
    | inr b ↦ rw b (Nodup-check_unique names ts (rw b at n) (λ x e. h x (rw b e)))
  ]

module _ {d : Django} (program : Program d) (all : List ℕ) (root : ℕ) where
  -- The classes of the program are in `all`, fewer than the recursion limit.
  pub record IsFinite : Type 0 where
    pub closed : IsClosed (nested program) all
    pub enough : length all < program.depth
    pub rooted : elem root all ≡ true

module _ {d : Django} (program : Program d) (all : List ℕ) (root : ℕ)
    (finite : IsFinite program all root) where
  pub tree_lem :
      (cs : List ℕ) × (tree program root ≡ ok cs)
      × Nodup cs
      × ((c : ℕ) → (elem c cs ≡ true) ↔ Reaches (nested program) root c)
  unfolding tree
  tree_lem =
      let (w, e, n, r) =
        iter_process_tree_lem (nested program) all finite.closed program.depth root finite.enough
          finite.rooted in
      (w.0, rw e refl, n, r)

  -- In a finite program the validation accepts a root exactly where, in each class that the
  -- root reaches, no two background transitions have the same action name.
  pub validate_unique_background_action_names_lem :
      (validate_unique_background_action_names program root ≡ ok tt) ↔ (
        (c : ℕ)
        → Reaches (nested program) root c
        → Nodup (background_names (transitions_of program c)))
  unfolding validate_unique_background_action_names
  validate_unique_background_action_names_lem =
      let (cs, e, _, r) = tree_lem in
      let check = λ (c : ℕ). check_unique [] (transitions_of program c) in
      rw e (
        λ h c reached.
            (check_unique-Nodup [] (transitions_of program c)
              (each-ok check cs h c ((r c).1 reached))).0,
        λ h. each-all check cs (λ c m.
            Nodup-check_unique [] (transitions_of program c) (h c ((r c).0 m)) (λ x e. refl)),
      )
