-- ===== src/Testing/Driven/History.antt =====
-- What a record of drives misses.
use django_logic.Prelude.{
  ==_refl, subst, Among-filter, Among-of-filter, ℕ, ◌≡◌, refl, sym, ◌∙◌, ◌↔◌, ◌⊎◌, inl, inr, Bool,
  true, false, not, List, [], ◌∷◌, map, filter, elem, flat_map, Among, sorted_set, elem-sorted_set,
  IsIncreasing, sorted_set-IsIncreasing, Bool-cases, elem-Among, elem-append, elem-map-Among,
  Among-map-elem, ==_iff, ◌==◌, arith, if◌then◌else◌,
}
use django_logic.Exec.{ok}
use django_logic.Django.{Django, Name}
use django_logic.World.{World, M}
use django_logic.Process.{Declared, Program, name_of, nested, transitions_of}
use django_logic.Process.Tree.{Reaches}
use django_logic.Process.Validation.{IsFinite, tree_lem}
use django_logic.Testing.Driven.{is_driven, recording, undriven}

-- The names after one call.
elem-noted :
    (driven : Bool) (n name : ℕ) (names : List ℕ)
    → (elem n (if driven then name ∷ names else names) ≡ true)
      ↔ ((elem n names ≡ true) ⊎ ((n ≡ name) × (driven ≡ true)))
elem-noted true n name names = (
  λ h. elim (Bool-cases (n == name)) [
    | inl s ↦ inr ((==_iff n name).0 s, refl)
    | inr o ↦ inl (ground (arith, h, o))
  ],
  λ m. elim m [ inl i ↦ ground (arith, i) | inr (s, _) ↦ ground (arith, (==_iff n name).1 s) ],
)
elem-noted false n name names = (inl, λ m. elim m [ inl i ↦ i | inr (_, t) ↦ cc t ])

module _ {d : Django} where
  -- The calls of a test, one after the other, an exception caught by the test.
  unfoldable pub drives : List (Name × M d Unit) → List Name × World d → List Name × World d
  drives [] x = x
  drives ((name, original) ∷ cs) x = drives cs (recording name original x).1

  -- The same calls without the record.
  unfoldable pub runs : List (Name × M d Unit) → World d → World d
  runs [] w = w
  runs ((name, original) ∷ cs) w = runs cs (original w).1

  -- Some call of the name was not refused.
  unfoldable pub DrivesName : Name → List (Name × M d Unit) → World d → Type 0
  DrivesName n [] w = ⊥
  DrivesName n ((name, original) ∷ cs) w =
      ((n ≡ name) × (is_driven (original w).0 ≡ true)) ⊎ DrivesName n cs (original w).1

  drives-runs :
      (cs : List (Name × M d Unit)) (names : List Name) (w : World d)
      → (drives cs (names, w)).1 ≡ runs cs w
  unfolding drives runs recording
  drives-runs [] names w = refl
  drives-runs ((name, original) ∷ cs) names w =
      drives-runs cs (if is_driven (original w).0 then name ∷ names else names) (original w).1

  drives-names :
      (cs : List (Name × M d Unit)) (names : List Name) (w : World d) (n : Name)
      → (elem n (drives cs (names, w)).0 ≡ true) ↔ ((elem n names ≡ true) ⊎ DrivesName n cs w)
  unfolding drives recording DrivesName
  drives-names [] names w n = (inl, λ m. elim m [ inl e ↦ e | inr i ↦ absurd i ])
  drives-names ((name, original) ∷ cs) names w n =
      let driven = is_driven (original w).0 in
      let (to, from) = drives-names cs (if driven then name ∷ names else names) (original w).1 n in
      let noted = elem-noted driven n name names in
      (
        λ m. elim (to m) [
          | inl h ↦ elim (noted.0 h) [ inl i ↦ inl i | inr k ↦ inr (inl k) ]
          | inr k ↦ inr (inr k)
        ],
        λ m. elim m [
          | inl i ↦ from (inl (noted.1 (inl i)))
          | inr (inl k) ↦ from (inl (noted.1 (inr k)))
          | inr (inr k) ↦ from (inr k)
        ],
      )

elem-flat_map :
    (f : ℕ → List ℕ) (n : ℕ) (cs : List ℕ)
    → (elem n (flat_map f cs) ≡ true) ↔ ((c : ℕ) × (elem c cs ≡ true) × (elem n (f c) ≡ true))
elem-flat_map f n [] = (λ h. cc, λ (c, h, _). cc)
elem-flat_map f n (x ∷ cs) =
    let (to, from) = elem-flat_map f n cs in
    rw (elem-append n (f x) (flat_map f cs)) (
      λ h. elim (Bool-cases (elem n (f x))) [
        | inl e ↦ (x, rw (==_refl x) refl, e)
        | inr o ↦ let (c, m, e) = to (ground (arith, h, o)) in (c, ground (arith, m), e)
      ],
      λ (c, m, e). elim (Bool-cases (c == x)) [
        | inl s ↦
            let here = subst (λ z. elem n (f z) ≡ true) ((==_iff c x).0 s) e in ground (arith, here)
        | inr o ↦ ground (arith, from (c, ground (arith, m, o), e))
      ],
    )

elem-filter :
    (p : ℕ → Bool) (n : ℕ) (xs : List ℕ)
    → (elem n (filter p xs) ≡ true) ↔ ((elem n xs ≡ true) × (p n ≡ true))
elem-filter p n xs = (
  λ h.
      let (m, t) = Among-of-filter p xs n ((elem-Among n (filter p xs)).0 h) in
      ((elem-Among n xs).1 m, t),
  λ (h, t). (elem-Among n (filter p xs)).1 (Among-filter p xs n ((elem-Among n xs).0 h) t),
)

module _ {d : Django} (program : Program d) (all : List ℕ) (root : ℕ)
    (finite : IsFinite program all root) where
  -- A class of the tree declares a transition of the name.
  abbrev pub DeclaresName : Name → Type 0
  DeclaresName n =
      (c : ℕ) × Reaches (nested program) root c
      × (t : Declared d) × Among t (transitions_of program c)
      × (name_of t ≡ n)

  -- In a finite program, the record of a sequence of calls changes nothing that they do, and lists
  -- as undriven, in increasing order, exactly the names that the tree declares and that no call
  -- has driven.
  pub undriven-drives :
      (cs : List (Name × M d Unit)) (w : World d)
      → let (names, w') = drives cs ([], w) in
        (w' ≡ runs cs w)
        × (missed : List Name) × (undriven program root names ≡ ok missed)
        × IsIncreasing missed
        × ((n : Name) → (elem n missed ≡ true) ↔ (DeclaresName n × (¬ DrivesName n cs w)))
  unfolding undriven
  undriven-drives cs w =
      let (classes, e, _, reach) = tree_lem program all root finite in
      let names = (drives cs ([], w)).0 in
      let declared = flat_map (λ c. map name_of (transitions_of program c)) classes in
      let left = filter (λ n. not (elem n names)) declared in
      (
        drives-runs cs [] w,
        sorted_set left,
        rw e refl,
        sorted_set-IsIncreasing left,
        λ n.
            let same = elem-sorted_set n left in
            let (split, join) = elem-filter (λ n. not (elem n names)) n declared in
            let (found, placed) =
              elem-flat_map (λ c. map name_of (transitions_of program c)) n classes in
            let (_, driven) = drives-names cs [] w n in
            (
              λ h.
                  let (i, missed) = split (sym same ∙ h) in
                  let (c, m, k) = found i in
                  let (t, among, named) = elem-map-Among name_of (transitions_of program c) n k in
                  (
                    (c, (reach c).0 m, t, among, named),
                    λ k. let noted = driven (inr k) in cc (rw noted at missed),
                  ),
              λ ((c, r, t, among, named), never).
                  let k = Among-map-elem name_of (transitions_of program c) t among in
                  let i = placed (
                    c,
                    (reach c).1 r,
                    subst (λ z. elem z (map name_of (transitions_of program c)) ≡ true) named k,
                  ) in
                  same ∙ join (i, absent n never),
            ),
      )
    where
      absent : (n : Name) → (¬ DrivesName n cs w) → not (elem n (drives cs ([], w)).0) ≡ true
      absent n never = elim (Bool-cases (elem n (drives cs ([], w)).0)) [
        | inl h ↦ elim ((drives-names cs [] w n).0 h) [ inl i ↦ cc i | inr k ↦ absurd (never k) ]
        | inr o ↦ rw o refl
      ]
