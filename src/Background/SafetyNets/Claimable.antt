-- ===== src/Background/SafetyNets/Claimable.antt =====
-- The order of the claimable rows: the oldest first, none lost, none added.
use django_logic.Prelude.{
  subst, sym, ◌⊎◌, some_injective, All-self, Among-filter, find, Among-of-filter, All-Among, ℕ, ◌≤◌,
  ◌≡◌, refl, Bool, true, false, Option, List, [], ◌∷◌, filter, Among, All, leb, Bool-cases, subst⁻¹,
  inl, inr, arith,
}
use django_logic.Django.{Name, Settings, Message}
use django_logic.Background.SafetyNets.{
  some, is_claimable, insert_by_created, order_by_created, claimable,
}

abbrev pub NoOlder : Message → Message → Type 0
NoOlder m n = m.created ≤ n.created

abbrev pub IsSorted : List Message → Type 0
IsSorted [] = Unit
IsSorted (m ∷ ms) = All (NoOlder m) ms × IsSorted ms

insert-All :
    (P : Message → Type 0) (m : Message) (ms : List Message)
    → P m
    → All P ms
    → All P (insert_by_created m ms)
unfolding insert_by_created
insert-All P m [] p a = (p, tt)
insert-All P m (n ∷ ns) p a = elim (Bool-cases (leb m.created n.created)) [
  | inl b ↦ rw b (p, a)
  | inr b ↦ rw b (a.0, insert-All P m ns p a.1)
]

NoOlder-All :
    (m n : Message) (ms : List Message) → NoOlder m n → All (NoOlder n) ms → All (NoOlder m) ms
NoOlder-All m n [] h a = tt
NoOlder-All m n (k ∷ ms) h a = (omega (arith, a.0), NoOlder-All m n ms h a.1)

insert-IsSorted :
    (m : Message) (ms : List Message) → IsSorted ms → IsSorted (insert_by_created m ms)
unfolding insert_by_created
insert-IsSorted m [] s = (tt, tt)
insert-IsSorted m (n ∷ ns) s = elim (Bool-cases (leb m.created n.created)) [
  | inl b ↦
      let first : NoOlder m n = ground (arith, b) in rw b ((first, NoOlder-All m n ns first s.0), s)
  | inr b ↦
      let first : NoOlder n m = ground (arith, b) in
      rw b (insert-All (NoOlder n) m ns first s.0, insert-IsSorted m ns s.1)
]

order_by_created-IsSorted : (ms : List Message) → IsSorted (order_by_created ms)
unfolding order_by_created
order_by_created-IsSorted [] = tt
order_by_created-IsSorted (m ∷ ms) =
    insert-IsSorted m (order_by_created ms) (order_by_created-IsSorted ms)

order-All : (P : Message → Type 0) (ms : List Message) → All P ms → All P (order_by_created ms)
unfolding order_by_created
order-All P [] a = tt
order-All P (m ∷ ms) a = insert-All P m (order_by_created ms) a.0 (order-All P ms a.1)

Among-insert_self : (m : Message) (ms : List Message) → Among m (insert_by_created m ms)
unfolding insert_by_created
Among-insert_self m [] = inl refl
Among-insert_self m (n ∷ ns) = elim (Bool-cases (leb m.created n.created)) [
  | inl b ↦ rw b (inl refl)
  | inr b ↦ rw b (inr (Among-insert_self m ns))
]

Among-insert : (r m : Message) (ms : List Message) → Among r ms → Among r (insert_by_created m ms)
unfolding insert_by_created
Among-insert r m [] a = absurd a
Among-insert r m (n ∷ ns) (inl e) = elim (Bool-cases (leb m.created n.created)) [
  | inl b ↦ rw b (inr (inl e))
  | inr b ↦ rw b (inl e)
]
Among-insert r m (n ∷ ns) (inr a) = elim (Bool-cases (leb m.created n.created)) [
  | inl b ↦ rw b (inr (inr a))
  | inr b ↦ rw b (inr (Among-insert r m ns a))
]

Among-order : (r : Message) (ms : List Message) → Among r ms → Among r (order_by_created ms)
unfolding order_by_created
Among-order r [] a = absurd a
Among-order r (m ∷ ms) (inl e) =
    subst⁻¹ (λ z. Among z (insert_by_created m (order_by_created ms))) e
      (Among-insert_self m (order_by_created ms))
Among-order r (m ∷ ms) (inr a) = Among-insert r m (order_by_created ms) (Among-order r ms a)

Among-of-order : (r : Message) (ms : List Message) → Among r (order_by_created ms) → Among r ms
Among-of-order r ms a =
    All-Among (λ m. Among m ms) (order_by_created ms) (order-All (λ m. Among m ms) ms (All-self ms))
      a

module _ (p : Message → Bool) where
  -- The first hit in a sorted list is the oldest.
  pub find-oldest :
      (xs : List Message) (m r : Message)
      → IsSorted xs
      → find p xs ≡ some m
      → Among r xs
      → p r ≡ true
      → NoOlder m r
  find-oldest [] m r s e a h = cc
  find-oldest (x ∷ xs) m r s e a h = elim (Bool-cases (p x)) [
    | inl b ↦ subst (λ z. NoOlder z r) (some_injective (rw b at e)) (first a)
    | inr b ↦ find-oldest xs m r s.1 (rw b at e) (later a b) h
  ]
    where
      first : (r ≡ x) ⊎ Among r xs → NoOlder x r
      first (inl q) = subst⁻¹ (NoOlder x) q (omega arith)
      first (inr q) = All-Among (NoOlder x) xs s.0 q

      later : (r ≡ x) ⊎ Among r xs → p x ≡ false → Among r xs
      later (inl q) b = absurd (cc (subst (λ z. p z ≡ true) q h, b))
      later (inr q) b = q

  pub find-some :
      (xs : List Message) (r : Message)
      → Among r xs
      → p r ≡ true
      → (m : Message) × (find p xs ≡ some m)
  find-some [] r a h = absurd a
  find-some (x ∷ xs) r (inl e) h = (x, rw (subst (λ z. p z ≡ true) e h) refl)
  find-some (x ∷ xs) r (inr a) h = elim (Bool-cases (p x)) [
    | inl b ↦ (x, rw b refl)
    | inr b ↦ rw b (find-some xs r a h)
  ]

  pub find-Among :
      (xs : List Message) (m : Message) → find p xs ≡ some m → Among m xs × (p m ≡ true)
  find-Among [] m e = cc
  find-Among (x ∷ xs) m e = elim (Bool-cases (p x)) [
    | inl b ↦ let q = some_injective (rw b at e) in (inl (sym q), subst (λ z. p z ≡ true) q b)
    | inr b ↦ let (a, h) = find-Among xs m (rw b at e) in (inr a, h)
  ]

module _ (settings : Settings) (now : ℕ) (queues : Option (List Name)) (rows : List Message) where
  pub claimable-IsSorted : IsSorted (claimable settings now queues rows)
  unfolding claimable
  claimable-IsSorted = order_by_created-IsSorted (filter (is_claimable settings now queues) rows)

  pub Among-claimable :
      (r : Message)
      → Among r rows
      → is_claimable settings now queues r ≡ true
      → Among r (claimable settings now queues rows)
  unfolding claimable
  Among-claimable r a h =
      Among-order r (filter (is_claimable settings now queues) rows)
        (Among-filter (is_claimable settings now queues) rows r a h)

  pub Among-of-claimable :
      (r : Message)
      → Among r (claimable settings now queues rows)
      → Among r rows × (is_claimable settings now queues r ≡ true)
  unfolding claimable
  Among-of-claimable r a =
      Among-of-filter (is_claimable settings now queues) rows r
        (Among-of-order r (filter (is_claimable settings now queues) rows) a)
