-- ===== src/Prelude/Membership.antt =====
-- Membership in lists, filters and the loops that extend a list.
use Prim.Native.Nat.{ℕ}
use mathlib.Core.Bool.{Bool, true, false, not}
use mathlib.Core.List.{List, [], ◌∷◌, ◌++◌, map}
use mathlib.Core.Path.{◌≡◌, refl, sym, ap, subst, subst⁻¹}
use mathlib.Core.Logic.{◌↔◌, ◌⊎◌, inl, inr}
use native.Mathlib.Omega.{arith}
use django_logic.Prelude.Tests.{Bool-cases, ◌==◌, ==_iff}
use django_logic.Prelude.Lists.{Among, All, All-map, any, elem, filter, flat_map}

pub Among-filter :
    {A : Type 0} (p : A → Bool) (xs : List A) (x : A)
    → Among x xs
    → p x ≡ true
    → Among x (filter p xs)
Among-filter p [] x a h = absurd a
Among-filter p (y ∷ ys) x (inl e) h = subst (λ z. Among x (filter p (z ∷ ys))) e (rw h (inl refl))
Among-filter p (y ∷ ys) x (inr a) h = elim (Bool-cases (p y)) [
  | inl b ↦ rw b (inr (Among-filter p ys x a h))
  | inr b ↦ rw b (Among-filter p ys x a h)
]

pub Among-of-filter :
    {A : Type 0} (p : A → Bool) (xs : List A) (x : A)
    → Among x (filter p xs)
    → Among x xs × (p x ≡ true)
Among-of-filter p [] x a = absurd a
Among-of-filter {A} p (y ∷ ys) x a = elim (Bool-cases (p y)) [
  | inl b ↦ split (Among-of-filter p ys x) b (rw b at a)
  | inr b ↦ let (among, h) = Among-of-filter p ys x (rw b at a) in (inr among, h)
]
  where
    split :
        (Among x (filter p ys) → Among x ys × (p x ≡ true))
        → p y ≡ true
        → (x ≡ y) ⊎ Among x (filter p ys)
        → Among x (y ∷ ys) × (p x ≡ true)
    split rest b (inl e) = (inl e, subst⁻¹ (λ z. p z ≡ true) e b)
    split rest b (inr r) = let (among, h) = rest r in (inr among, h)

pub All-Among : {A : Type 0} (P : A → Type 0) (xs : List A) {x : A} → All P xs → Among x xs → P x
All-Among P [] a m = absurd m
All-Among P (y ∷ ys) a (inl e) = subst⁻¹ P e a.0
All-Among P (y ∷ ys) a (inr m) = All-Among P ys a.1 m

pub All-self : {A : Type 0} (xs : List A) → All (λ x. Among x xs) xs
All-self [] = tt
All-self (x ∷ xs) =
    (inl refl, All-map (λ y. Among y xs) (λ y. Among y (x ∷ xs)) xs (λ y m. inr m) (All-self xs))

pub Among-append_left : {A : Type 0} (x : A) (xs ys : List A) → Among x xs → Among x (xs ++ ys)
Among-append_left x [] ys m = absurd m
Among-append_left x (z ∷ xs) ys (inl e) = inl e
Among-append_left x (z ∷ xs) ys (inr m) = inr (Among-append_left x xs ys m)

pub Among-append_right : {A : Type 0} (x : A) (xs ys : List A) → Among x ys → Among x (xs ++ ys)
Among-append_right x [] ys m = m
Among-append_right x (z ∷ xs) ys m = inr (Among-append_right x xs ys m)

pub Among-append :
    {A : Type 0} (x : A) (xs ys : List A) → Among x (xs ++ ys) → Among x xs ⊎ Among x ys
Among-append x [] ys m = inr m
Among-append x (z ∷ xs) ys (inl e) = inl (inl e)
Among-append x (z ∷ xs) ys (inr m) = elim (Among-append x xs ys m) [
  | inl l ↦ inl (inr l)
  | inr r ↦ inr r
]

-- A loop that extends a list leaves it empty exactly where each round adds nothing.
pub append-nil_left : {A : Type 0} (xs ys : List A) → xs ++ ys ≡ [] → (xs ≡ []) × (ys ≡ [])
append-nil_left [] ys h = (refl, h)
append-nil_left (x ∷ xs) ys h = cc

pub flat_map-nil_Among :
    {A B : Type 0} (f : A → List B) (xs : List A)
    → flat_map f xs ≡ []
    → (x : A) → Among x xs
    → f x ≡ []
flat_map-nil_Among f [] h x m = absurd m
flat_map-nil_Among f (y ∷ xs) h x (inl e) =
    subst⁻¹ (λ z. f z ≡ []) e (append-nil_left (f y) (flat_map f xs) h).0
flat_map-nil_Among f (y ∷ xs) h x (inr m) =
    flat_map-nil_Among f xs (append-nil_left (f y) (flat_map f xs) h).1 x m

pub Among-flat_map_nil :
    {A B : Type 0} (f : A → List B) (xs : List A)
    → ((x : A) → Among x xs → f x ≡ [])
    → flat_map f xs ≡ []
Among-flat_map_nil f [] h = refl
Among-flat_map_nil f (x ∷ xs) h = rw (h x (inl refl)) (Among-flat_map_nil f xs (λ y m. h y (inr m)))

-- Membership as a test, and with its place.
pub elem-Among : (x : ℕ) (xs : List ℕ) → (elem x xs ≡ true) ↔ Among x xs
elem-Among x [] = (λ h. cc, λ m. absurd m)
elem-Among x (y ∷ xs) = (
  λ h. elim (Bool-cases (x == y)) [
    | inl e ↦ inl ((==_iff x y).0 e)
    | inr n ↦ inr ((elem-Among x xs).0 (ground (arith, h, n)))
  ],
  λ m. elim m [ inl e ↦ ground (arith, e) | inr r ↦ ground (arith, (elem-Among x xs).1 r) ],
)

pub any-Among :
    {A : Type 0} (p : A → Bool) (xs : List A)
    → any p xs ≡ true
    → (x : A) × Among x xs × (p x ≡ true)
any-Among p [] h = cc
any-Among p (y ∷ xs) h = elim (Bool-cases (p y)) [
  | inl e ↦ (y, inl refl, e)
  | inr n ↦ let (x, m, e) = any-Among p xs (ground (arith, h, n)) in (x, inr m, e)
]

pub Among-any-false :
    {A : Type 0} (p : A → Bool) (xs : List A) (x : A) → any p xs ≡ false → Among x xs → p x ≡ false
Among-any-false p [] x h m = absurd m
Among-any-false p (y ∷ xs) x h (inl e) = subst⁻¹ (λ z. p z ≡ false) e (ground (arith, h))
Among-any-false p (y ∷ xs) x h (inr m) = Among-any-false p xs x (ground (arith, h)) m

pub Among-any :
    {A : Type 0} (p : A → Bool) (xs : List A) (x : A) → Among x xs → p x ≡ true → any p xs ≡ true
Among-any p [] x m h = absurd m
Among-any p (y ∷ xs) x (inl e) h = let h' = subst (λ z. p z ≡ true) e h in ground (arith, h')
Among-any p (y ∷ xs) x (inr m) h = ground (arith, Among-any p xs x m h)

pub Among-map-elem :
    {A : Type 0} (f : A → ℕ) (xs : List A) (x : A) → Among x xs → elem (f x) (map f xs) ≡ true
Among-map-elem f [] x m = absurd m
Among-map-elem f (y ∷ xs) x (inl e) = let e' = ap f e in ground (arith, e')
Among-map-elem f (y ∷ xs) x (inr m) = ground (arith, Among-map-elem f xs x m)

pub elem-map-Among :
    {A : Type 0} (f : A → ℕ) (xs : List A) (n : ℕ)
    → elem n (map f xs) ≡ true
    → (x : A) × Among x xs × (f x ≡ n)
elem-map-Among f [] n h = cc
elem-map-Among f (y ∷ xs) n h = elim (Bool-cases (n == f y)) [
  | inl e ↦ (y, inl refl, sym ((==_iff n (f y)).0 e))
  | inr d ↦ let (x, m, e) = elem-map-Among f xs n (ground (arith, h, d)) in (x, inr m, e)
]

pub filter-append :
    {A : Type 0} (p : A → Bool) (xs ys : List A) → filter p (xs ++ ys) ≡ filter p xs ++ filter p ys
filter-append p [] ys = refl
filter-append p (x ∷ xs) ys = elim (Bool-cases (p x)) [
  | inl e ↦ rw e (ap (λ l. x ∷ l) (filter-append p xs ys))
  | inr e ↦ rw e (filter-append p xs ys)
]

pub filter-all :
    {A : Type 0} (p : A → Bool) (xs : List A) → any (λ x. not (p x)) xs ≡ false → filter p xs ≡ xs
filter-all p [] h = refl
filter-all p (x ∷ xs) h = elim (Bool-cases (p x)) [
  | inl e ↦ rw e (ap (λ l. x ∷ l) (filter-all p xs (ground (arith, h))))
  | inr e ↦ absurd (ground (arith, e, h))
]

-- Membership in what a comprehension builds.
pub Among-map :
    {A B : Type 0} (f : A → B) (xs : List A) (x : A) → Among x xs → Among (f x) (map f xs)
Among-map f [] x m = absurd m
Among-map f (y ∷ xs) x (inl e) = inl (ap f e)
Among-map f (y ∷ xs) x (inr m) = inr (Among-map f xs x m)

pub Among-of-map :
    {A B : Type 0} (f : A → B) (xs : List A) (y : B)
    → Among y (map f xs)
    → (x : A) × Among x xs × (y ≡ f x)
Among-of-map f [] y m = absurd m
Among-of-map f (x ∷ xs) y (inl e) = (x, inl refl, e)
Among-of-map f (x ∷ xs) y (inr m) = let (z, n, e) = Among-of-map f xs y m in (z, inr n, e)

pub Among-flat_map :
    {A B : Type 0} (f : A → List B) (xs : List A) (x : A) (y : B)
    → Among x xs
    → Among y (f x)
    → Among y (flat_map f xs)
Among-flat_map f [] x y m n = absurd m
Among-flat_map f (z ∷ xs) x y (inl e) n =
    Among-append_left y (f z) (flat_map f xs) (subst (λ v. Among y (f v)) e n)
Among-flat_map f (z ∷ xs) x y (inr m) n =
    Among-append_right y (f z) (flat_map f xs) (Among-flat_map f xs x y m n)

pub Among-of-flat_map :
    {A B : Type 0} (f : A → List B) (xs : List A) (y : B)
    → Among y (flat_map f xs)
    → (x : A) × Among x xs × Among y (f x)
Among-of-flat_map f [] y m = absurd m
Among-of-flat_map f (x ∷ xs) y m = elim (Among-append y (f x) (flat_map f xs) m) [
  | inl n ↦ (x, inl refl, n)
  | inr n ↦ let (z, i, k) = Among-of-flat_map f xs y n in (z, inr i, k)
]
