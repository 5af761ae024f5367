-- ===== src/Prelude/Sorted.antt =====
-- `sorted` of a set of names: in increasing order, each once.
use Prim.Native.Nat.{ℕ, ◌<◌}
use mathlib.Core.Bool.{◌||◌}
use mathlib.Core.List.{List, [], ◌∷◌}
use mathlib.Core.Path.{◌≡◌, refl}
use mathlib.Core.Logic.{inl, inr}
use native.Mathlib.Omega.{arith}
use django_logic.Prelude.Tests.{Bool-cases, ◌==◌, ltb, if◌then◌else◌}
use django_logic.Prelude.Lists.{All, elem}

abbrev pub insert_unique : ℕ → List ℕ → List ℕ
insert_unique a [] = a ∷ []
insert_unique a (b ∷ bs) =
    let further = b ∷ insert_unique a bs in
    if a == b then b ∷ bs else (if ltb a b then a ∷ b ∷ bs else further)

-- `sorted(set(xs))`
abbrev pub sorted_set : List ℕ → List ℕ
sorted_set [] = []
sorted_set (a ∷ rest) = insert_unique a (sorted_set rest)

elem-insert_unique : (x a : ℕ) (bs : List ℕ) → elem x (insert_unique a bs) ≡ (x == a || elem x bs)
elem-insert_unique x a [] = refl
elem-insert_unique x a (b ∷ bs) = ground (arith, elem-insert_unique x a bs)

pub elem-sorted_set : (x : ℕ) (xs : List ℕ) → elem x (sorted_set xs) ≡ elem x xs
elem-sorted_set x [] = refl
elem-sorted_set x (a ∷ rest) =
    rw (elem-insert_unique x a (sorted_set rest), elem-sorted_set x rest) refl

abbrev pub IsIncreasing : List ℕ → Type 0
IsIncreasing [] = Unit
IsIncreasing (x ∷ xs) = All (λ y. x < y) xs × IsIncreasing xs

insert_unique-All :
    (x a : ℕ) (bs : List ℕ) → x < a → All (λ y. x < y) bs → All (λ y. x < y) (insert_unique a bs)
insert_unique-All x a [] h all = (h, tt)
insert_unique-All x a (b ∷ bs) h (l, all) = elim (Bool-cases (a == b)) [
  | inl e ↦ rw e (l, all)
  | inr e ↦ elim (Bool-cases (ltb a b)) [
    | inl s ↦ rw (e, s) (h, (l, all))
    | inr s ↦ rw (e, s) (l, insert_unique-All x a bs h all)
  ]
]

above : (a b : ℕ) (bs : List ℕ) → a < b → All (λ y. b < y) bs → All (λ y. a < y) bs
above a b [] h all = tt
above a b (c ∷ cs) h (l, all) = (omega arith, above a b cs h all)

insert_unique-IsIncreasing :
    (a : ℕ) (bs : List ℕ) → IsIncreasing bs → IsIncreasing (insert_unique a bs)
insert_unique-IsIncreasing a [] v = (tt, tt)
insert_unique-IsIncreasing a (b ∷ bs) (l, v) = elim (Bool-cases (a == b)) [
  | inl e ↦ rw e (l, v)
  | inr e ↦ elim (Bool-cases (ltb a b)) [
    | inl s ↦
        let lower : a < b = ground (arith, s) in rw (e, s) ((lower, above a b bs lower l), (l, v))
    | inr s ↦
        let higher : b < a = ground (arith, e, s) in
        rw (e, s) (insert_unique-All b a bs higher l, insert_unique-IsIncreasing a bs v)
  ]
]

pub sorted_set-IsIncreasing : (xs : List ℕ) → IsIncreasing (sorted_set xs)
sorted_set-IsIncreasing [] = tt
sorted_set-IsIncreasing (a ∷ rest) =
    insert_unique-IsIncreasing a (sorted_set rest) (sorted_set-IsIncreasing rest)
