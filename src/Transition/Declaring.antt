-- ===== src/Transition/Declaring.antt =====
-- What the constructors of the four transition classes let through.
use django_logic.Prelude.{
  ℕ, ◌≡◌, refl, Bool, true, false, ◌&&◌, ◌||◌, not, List, [], ◌∷◌, ◌++◌, elem, truthy, ◌==◌, arith,
  subst, Bool-cases, inl, inr, Option,
}
use django_logic.Exec.{ok, ok_injective}
use django_logic.Django.{Django, Name}
use django_logic.Transition.{
  Kind, transition, action, background_transition, background_action, is_background, Transition,
  Declaration, refuses_background, target_of, with_source, is_empty_name, init,
}

-- A transition that the engine can run.
pub record IsDeclared {d : Django} (t : Transition d) : Type 0 where
  -- an in-progress state is one that the transition may be run from again
  pub resumable : truthy t.in_progress_state ≡ true → elem t.in_progress_state t.sources ≡ true
  -- a failed state is not mistaken for one in progress
  pub distinct : truthy t.failed_state ≡ true → (t.failed_state == t.in_progress_state) ≡ false
  -- only a background transition has a state in progress, and an action has no target
  pub synchronous : is_background t.kind ≡ false → truthy t.in_progress_state ≡ false
  pub actionless : t.kind ≡ action → t.target ≡ 0
  pub background_actionless :
      t.kind ≡ background_action → (t.target ≡ 0) × (truthy t.in_progress_state ≡ false)
  -- a declared queue and timeout are not empty
  pub budgeted :
      is_background t.kind ≡ true
      → (is_empty_name t.queue ≡ false) × (is_empty_name t.timeout ≡ false)

elem-append : (n : Name) (xs : List Name) → elem n (xs ++ n ∷ []) ≡ true
elem-append n [] = ground arith
elem-append n (x ∷ xs) = ground (arith, elem-append n xs)

with_source-elem : (n : Name) (xs : List Name) → truthy n ≡ true → elem n (with_source n xs) ≡ true
with_source-elem n xs e = elim (Bool-cases (elem n xs)) [
  | inl b ↦ rw (e, b) b
  | inr b ↦ rw (e, b) (elem-append n xs)
]

and_true : (a b : Bool) → a ≡ true → (a && b) ≡ false → b ≡ false
and_true true b h e = e
and_true false b h e = cc h

negated : (b : Bool) → b ≡ false → not b ≡ true
negated b h = rw h

or_false : (a b : Bool) → (a || b) ≡ false → (a ≡ false) × (b ≡ false)
or_false true b e = cc e
or_false false b e = (refl, e)

budgeted_of :
    (k : Kind) (n : Name) (q : Option Name) (u : Option ℕ)
    → refuses_background k n q u ≡ false
    → is_background k ≡ true
    → (is_empty_name q ≡ false) × (is_empty_name u ≡ false)
budgeted_of transition n q u r e = cc e
budgeted_of action n q u r e = cc e
budgeted_of background_transition n q u r e = or_false (is_empty_name q) (is_empty_name u) r
budgeted_of background_action n q u r e =
    or_false (is_empty_name q) (is_empty_name u)
      (or_false (truthy n) (is_empty_name q || is_empty_name u) r).1

module _ {d : Django} (f : Transition d) where
  abbrev built : Transition d
  built = record f {
    sources = with_source f.in_progress_state f.sources;
    target = target_of f.kind f.target;
  }

  built-IsDeclared :
      refuses_background f.kind f.in_progress_state f.queue f.timeout ≡ false
      → (truthy f.in_progress_state && not (is_background f.kind)) ≡ false
      → (truthy f.failed_state && (f.failed_state == f.in_progress_state)) ≡ false
      → IsDeclared built
  built-IsDeclared a b e = record {
    resumable = λ h. with_source-elem f.in_progress_state f.sources h;
    distinct = λ h. and_true (truthy f.failed_state) (f.failed_state == f.in_progress_state) h e;
    synchronous = λ h. elim (Bool-cases (truthy f.in_progress_state)) [
      | inl x ↦ cc (rw (x, h) at b)
      | inr x ↦ x
    ];
    actionless = λ h. rw h;
    background_actionless = λ h. (
      rw h,
      (or_false (truthy f.in_progress_state) (is_empty_name f.queue || is_empty_name f.timeout)
          (rw h at a)).0,
    );
    budgeted = budgeted_of f.kind f.in_progress_state f.queue f.timeout a;
  }

module _ {d : Django} (c : Declaration d) (t : Transition d) where
  -- Every transition that a constructor builds is one that the engine can run: its in-progress
  -- state is among its sources and differs from its failed state, and what its class rules out is
  -- not there.
  pub init-IsDeclared : init c ≡ ok t → IsDeclared t
  unfolding init
  init-IsDeclared e =
      let f = c.fields in
      elim (Bool-cases (refuses_background f.kind f.in_progress_state f.queue f.timeout)) [
        | inl b ↦ cc (rw b at e)
        | inr a ↦ elim (Bool-cases (c.has_removed_kwarg || c.sources_is_string)) [
          | inl b ↦ cc (rw (a, b) at e)
          | inr a' ↦ elim (Bool-cases (truthy f.in_progress_state && not (is_background f.kind))) [
            | inl b ↦ cc (rw (a, a', b) at e)
            | inr b ↦
                elim (Bool-cases
                  (truthy f.failed_state && (f.failed_state == f.in_progress_state))) [
                    | inl b' ↦ cc (rw (a, a', b, b') at e)
                    | inr b' ↦
                        subst IsDeclared (ok_injective (rw (a, a', b, b') at e))
                          (built-IsDeclared f a b b')
                  ]
          ]
        ]
      ]
