-- ===== src/Background/Restoration/Owner.antt =====
-- The class that enqueue records on a row leads the worker to the transition that the call chose.
use django_logic.Prelude.{
  ℕ, ◌≡◌, refl, sym, ap, Bool, true, false, ◌&&◌, Option, some, List, [], ◌∷◌, elem, find, truthy,
  Nodup, Among, Bool-cases, ==_iff, ==_refl, subst, subst⁻¹, inl, inr, ◌==◌, arith,
}
use django_logic.Exec.{ok}
use django_logic.Django.{Django, Name, State, Message}
use django_logic.World.{World}
use django_logic.Message.{stamp}
use django_logic.Background.Enqueue.{new_row}
use django_logic.Process.Tree.{Reaches}
use django_logic.Process.{
  Declared, Program, name_of, in_background, nested, transitions_of,
  validate_unique_background_action_names, resolve_transition_with_owner,
}
use django_logic.Process.Validation.{
  background_names, IsFinite, tree_lem, validate_unique_background_action_names_lem,
}
use django_logic.Process.Resolving.{resolve_transition_with_owner_lem}
use django_logic.Background.Restoration.{
  is_candidate, find_in_path, find_background_transition_in_owner, find_transition, Answers,
  restore,
}

-- A row at any point of its life: the columns that name its work are as they were inserted.
pub record IsVersion (m inserted : Message) : Type 0 where
  pub pk : m.pk ≡ inserted.pk
  pub instance_ : m.instance ≡ inserted.instance
  pub process_name : m.process_name ≡ inserted.process_name
  pub field_name : m.field_name ≡ inserted.field_name
  pub transition_name : m.transition_name ≡ inserted.transition_name
  pub owning_process_class : m.owning_process_class ≡ inserted.owning_process_class

-- The stamp of an attempt keeps them.
pub stamp-IsVersion : (now : ℕ) (m : Message) → IsVersion (stamp now m) m
stamp-IsVersion now m = record {
  pk = refl;
  instance_ = refl;
  process_name = refl;
  field_name = refl;
  transition_name = refl;
  owning_process_class = refl;
}

module _ {d : Django} where
  Among-background_names :
      (t : Declared d) (ts : List (Declared d))
      → Among t ts
      → in_background t ≡ true
      → elem (name_of t) (background_names ts) ≡ true
  Among-background_names t [] a b = absurd a
  Among-background_names t (x ∷ ts) (inl e) b =
      subst (λ z. elem (name_of t) (background_names (z ∷ ts)) ≡ true) e (rw b (ground arith))
  Among-background_names t (x ∷ ts) (inr a) b = elim (Bool-cases (in_background x)) [
    | inl h ↦ rw h (ground (arith, Among-background_names t ts a b))
    | inr h ↦ rw h (Among-background_names t ts a b)
  ]

  -- Where names are unique, the search in a class finds the transition of the name.
  find-candidate :
      (t : Declared d) (ts : List (Declared d))
      → Among t ts
      → in_background t ≡ true
      → Nodup (background_names ts)
      → find (is_candidate (name_of t)) ts ≡ some t
  find-candidate t [] a b n = absurd a
  find-candidate t (x ∷ ts) (inl e) b n =
      subst (λ z. find (is_candidate (name_of t)) (z ∷ ts) ≡ some t) e
        (rw (==_refl (name_of t), b) refl)
  find-candidate t (x ∷ ts) (inr a) b n = elim (Bool-cases (in_background x)) [
    | inl h ↦
        let unique : Nodup (name_of x ∷ background_names ts) = rw h at n in
        let other : (name_of x == name_of t) ≡ false = elim (Bool-cases (name_of x == name_of t)) [
          | inl same ↦ cc (
            unique.0,
            subst⁻¹ (λ z. elem z (background_names ts) ≡ true)
                ((==_iff (name_of x) (name_of t)).0 same) (Among-background_names t ts a b),
          )
          | inr other ↦ other
        ] in
        rw other (find-candidate t ts a b unique.1)
    | inr h ↦
        let off : is_candidate (name_of t) x ≡ false = ground (arith, h) in
        rw off (find-candidate t ts a b (rw h at n))
  ]

process_ok : (b : Bool) → (b && false) ≡ false
process_ok true = refl
process_ok false = refl

module _ {d : Django} (program : Program d) where
  find_in_path-eq :
      (name : Name) (c : ℕ) (cs : List ℕ)
      → elem c cs ≡ true
      → ((x : ℕ) → elem x cs ≡ true → (program.classes x).path ≡ (program.classes c).path → x ≡ c)
      → find_in_path program name (program.classes c).path cs
        ≡ find (is_candidate name) (transitions_of program c)
  unfolding find_in_path
  find_in_path-eq name c [] m u = cc
  find_in_path-eq name c (x ∷ cs) m u =
      elim (Bool-cases ((program.classes x).path == (program.classes c).path)) [
        | inl same ↦ rw same (
            ap (λ z. find (is_candidate name) (transitions_of program z))
              (u x (ground arith) ((==_iff _ _).0 same)))
        | inr other ↦ elim (Bool-cases (c == x)) [
          | inl b ↦ cc (
            subst (λ z. ((program.classes z).path == (program.classes c).path) ≡ false)
                (sym ((==_iff c x).0 b)) other,
            ==_refl (program.classes c).path,
          )
          | inr b ↦
              rw other
                (find_in_path-eq name c cs (ground (arith, m, b)) (λ y k. u y (ground (arith, k))))
        ]
      ]

  -- A dotted path names one class of the tree.
  abbrev pub HasPaths : ℕ → Type 0
  HasPaths root =
      (b c : ℕ)
      → Reaches (nested program) root b
      → Reaches (nested program) root c
      → (program.classes b).path ≡ (program.classes c).path
      → b ≡ c

  module _ (all : List ℕ) (root : ℕ) (finite : IsFinite program all root) (paths : HasPaths root)
      (valid : validate_unique_background_action_names program root ≡ ok tt) where
    find_transition-owner :
        (c : ℕ) (t : Declared d)
        → Reaches (nested program) root c
        → Among t (transitions_of program c)
        → in_background t ≡ true
        → truthy (program.classes c).path ≡ true
        → find_transition program root (name_of t) (program.classes c).path ≡ ok (some t)
    unfolding find_transition find_background_transition_in_owner
    find_transition-owner c t r a b p =
        let (cs, e, _, reach) = tree_lem program all root finite in
        let unique =
          (validate_unique_background_action_names_lem program all root finite).0 valid c r in
        let first =
          find_in_path-eq (name_of t) c cs ((reach c).1 r)
            (λ x k h. paths x c ((reach x).0 k) r h) in
        rw (p, e, first, find-candidate t (transitions_of program c) a b unique) refl

    -- In a finite, validated program whose dotted paths name one class each, take a
    -- background transition that a call by action name resolved to, and the row that enqueue makes
    -- of it with the path of its class, whatever its attempts have written on it since. A worker
    -- that finds the model, the instance and the recorded root class restores that very transition.
    pub restore-resolve :
        (s : State) (user : Option ℕ) (name : Name) (w : World d) (t : Declared d) (c : ℕ)
        (w' : World d) (kwargs : List ℕ) (now pk : ℕ) (answers : Answers) (m : Message)
        → resolve_transition_with_owner program s user name root w ≡ (ok (t, c), w')
        → in_background t ≡ true
        → truthy (program.classes c).path ≡ true
        → IsVersion m (new_row t.transition s (program.classes c).path kwargs now pk)
        → answers.installed m ≡ true
        → answers.exists m ≡ true
        → answers.attribute m ≡ some root
        → answers.process_class m ≡ (program.classes root).path
        → restore program answers m ≡ ok (root, t)
    unfolding restore
    restore-resolve s user name w t c w' kwargs now pk answers m h b p row i x a q =
        let (r, among, _) = resolve_transition_with_owner_lem program s user name root w h in
        let found = find_transition-owner c t r among b p in
        let same = row.transition_name in
        let owned = row.owning_process_class in
        let right = ==_refl (program.classes root).path in
        rw (i, x, a, q, right, process_ok (truthy (program.classes root).path), same, owned, found)
          refl
