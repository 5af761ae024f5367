-- ===== src/Background/SafetyNets/Watchdog.antt =====
-- The floor that narrows the watchdog's scan leaves out no overdue attempt.
use django_logic.Prelude.{
  ℕ, ◌+◌, ◌≤◌, ◌≡◌, refl, sym, ap, fun_ext, ◌∙◌, subst⁻¹, ◌⊎◌, Bool, true, false, ◌&&◌, Option,
  none, some, List, [], ◌∷◌, filter, All, Bool-cases, Option-cases, inl, inr, arith,
}
use django_logic.Exec.{Result, ok, err, pure, gets, ◌>>=◌, continue, caught}
use django_logic.Django.{Django, Message}
use django_logic.World.{sees, World, M, query}
use django_logic.Background.Deployment.{Deployment}
use django_logic.Background.Finalize.{is_overdue}
use django_logic.Background.SafetyNets.{
  Error, for_each, counted, is_timed, least, min_timeout, is_under_floor, abandon_overdue,
  scan_under_floor, watchdog_stale_attempts,
}

-- No shorter timeout than `s`.
abbrev IsFloor : ℕ → Option ℕ → Type 0
IsFloor s none = ⊥
IsFloor s (some t) = s ≤ t

not_overdue :
    (now s : ℕ) (started timeout : Option ℕ)
    → IsFloor s timeout
    → is_under_floor now s started ≡ false
    → is_overdue now started timeout ≡ false
not_overdue now s none timeout f h = refl
not_overdue now s (some a) none f h = absurd f
not_overdue now s (some a) (some t) f h = ground arith

-- A timed row declares a timeout.
timeout-is_timed : (m : Message) → is_timed m ≡ true → (t : ℕ) × (m.timeout_seconds ≡ some t)
timeout-is_timed m h = elim (Option-cases m.timeout_seconds) [
  | inl e ↦ absurd (ground (arith, h, e))
  | inr e ↦ e
]

least-some :
    (a : ℕ) (b : Option ℕ) (s t : ℕ)
    → least (some a) b ≡ some t
    → s ≤ t
    → (s ≤ a) × ((b ≡ none) ⊎ ((u : ℕ) × (b ≡ some u) × (s ≤ u)))
least-some a none s t e l = (ground (arith, e), inl refl)
least-some a (some b) s t e l = (ground (arith, e), inr (b, refl, ground (arith, e)))

least_ne_none : (a : ℕ) (b : Option ℕ) → least (some a) b ≡ none → ⊥
least_ne_none a none e = cc
least_ne_none a (some b) e = ground (arith, e)

no_minimum : (xs : List Message) → All (λ m. is_timed m ≡ true) xs → min_timeout xs ≡ none → xs ≡ []
unfolding min_timeout
no_minimum [] a e = refl
no_minimum (m ∷ ms) a e =
    let (t, h) = timeout-is_timed m a.0 in absurd (least_ne_none t (min_timeout ms) (rw h at e))

-- The least timeout is a floor of each.
min_timeout-IsFloor :
    (xs : List Message) (s t : ℕ)
    → All (λ m. is_timed m ≡ true) xs
    → min_timeout xs ≡ some t
    → s ≤ t
    → All (λ m. IsFloor s m.timeout_seconds) xs
unfolding min_timeout
min_timeout-IsFloor [] s t a e l = tt
min_timeout-IsFloor (m ∷ ms) s t a e l =
    let (x, h) = timeout-is_timed m a.0 in
    let (own, rest) = least-some x (min_timeout ms) s t (rw h at e) l in
    (
      rw h own,
      elim rest [
        | inl none_left ↦
            subst⁻¹ (All (λ k. IsFloor s k.timeout_seconds)) (no_minimum ms a.1 none_left) tt
        | inr found ↦ min_timeout-IsFloor ms s found.0 a.1 found.1 found.2
      ],
    )

filter-All : (p : Message → Bool) (xs : List Message) → All (λ m. p m ≡ true) (filter p xs)
filter-All p [] = tt
filter-All p (x ∷ xs) = elim (Bool-cases (p x)) [
  | inl b ↦ rw b (b, filter-All p xs)
  | inr b ↦ rw b (filter-All p xs)
]

module _ {d : Django} (deployed : Deployment d) where
  add_none : (m : M d ℕ) → (m >>= λ n. pure (0 + n)) ≡ m
  add_none m = fun_ext λ w. unchanged (m w).0 (m w).1
    where
      unchanged : (r : Result ℕ) (w : World d) → continue r (λ n. pure (0 + n)) w ≡ (r, w)
      unchanged (ok n) w = ap (λ (k : ℕ). (ok k, w)) (omega arith)
      unchanged (err e) w = refl

  -- A row that is not overdue does not count.
  for_each-idle :
      (now : ℕ) (m : Message) (ms : List Message)
      → is_overdue now m.started_at m.timeout_seconds ≡ false
      → for_each deployed (abandon_overdue deployed now) (m ∷ ms)
        ≡ for_each deployed (abandon_overdue deployed now) ms
  unfolding for_each abandon_overdue
  for_each-idle now m ms h = rw h (add_none (for_each deployed (abandon_overdue deployed now) ms))

  for_each-cons :
      (act : Message → M d Bool) (m : Message) (xs ys : List Message)
      → for_each deployed act xs ≡ for_each deployed act ys
      → for_each deployed act (m ∷ xs) ≡ for_each deployed act (m ∷ ys)
  unfolding for_each
  for_each-cons act m xs ys e =
      ap (λ (rest : M d ℕ). caught (act m) >>= λ outcome. rest >>= λ n. pure (counted outcome + n))
        e

  for_each-floor :
      (now s : ℕ) (rows : List Message)
      → All (λ m. IsFloor s m.timeout_seconds) (filter is_timed rows)
      → for_each deployed
          (abandon_overdue deployed now)
          (filter (λ m. is_timed m && is_under_floor now s m.started_at) rows)
        ≡ for_each deployed (abandon_overdue deployed now) (filter is_timed rows)
  for_each-floor now s [] a = refl
  for_each-floor now s (m ∷ ms) a = elim (Bool-cases (is_timed m)) [
    | inl b ↦
        let both : IsFloor s m.timeout_seconds
            × All (λ k. IsFloor s k.timeout_seconds) (filter is_timed ms) =
          rw b at a in
        let own = both.0 in
        let tail = both.1 in
        elim (Bool-cases (is_under_floor now s m.started_at)) [
          | inl c ↦
              rw (b, c)
                (for_each-cons (abandon_overdue deployed now) m _ _ (for_each-floor now s ms tail))
          | inr c ↦
              rw (b, c)
                (for_each-floor now s ms tail
                  ∙ sym (
                      for_each-idle now m (filter is_timed ms)
                        (not_overdue now s m.started_at m.timeout_seconds own c)))
        ]
    | inr b ↦ rw b (for_each-floor now s ms (rw b at a))
  ]

  -- The scan without the floor: every uncompleted row with a declared timeout is compared.
  abbrev pub compare_each : M d ℕ
  compare_each = do
    now ← gets (λ w. w.now)
    v ← query
    for_each deployed (abandon_overdue deployed now) (filter is_timed v.rows)

  scan-eq :
      (w : World d) (shortest : Option ℕ)
      → query w ≡ (ok (sees w), w)
      → min_timeout (filter is_timed (sees w).rows) ≡ shortest
      → scan_under_floor deployed w.now shortest w
        ≡ for_each deployed (abandon_overdue deployed w.now) (filter is_timed (sees w).rows) w
  unfolding for_each
  scan-eq w none q e =
      rw (no_minimum (filter is_timed (sees w).rows) (filter-All is_timed (sees w).rows) e) refl
  scan-eq w (some s) q e =
      let floor =
        min_timeout-IsFloor (filter is_timed (sees w).rows) s s (filter-All is_timed (sees w).rows)
          e (omega arith) in
      rw q (ap (λ (m : M d ℕ). m w) (for_each-floor w.now s (sees w).rows floor))

  query-cases :
      (w : World d) → (query w ≡ (ok (sees w), w)) ⊎ ((e : Error) × (query w ≡ (err e, w)))
  unfolding query
  query-cases w = elim (Option-cases (d.ready w.conn)) [
    | inl e ↦ inl (rw (e, query) refl)
    | inr found ↦ inr (found.0, rw (found.1, query) refl)
  ]

  -- In every world, the watchdog with its floor on `started_at` does what the plain scan does
  -- that compares each started, uncompleted row with its own timeout.
  pub watchdog_stale_attempts-compare_each : watchdog_stale_attempts deployed ≡ compare_each
  unfolding watchdog_stale_attempts
  watchdog_stale_attempts-compare_each = fun_ext λ w. elim (query-cases w) [
    | inl q ↦ rw q (scan-eq w (min_timeout (filter is_timed (sees w).rows)) q refl)
    | inr failed ↦ rw failed.1 refl
  ]
