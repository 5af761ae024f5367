-- ===== src/Checks/Routing.antt =====
-- What the check of the database routing accepts.
use django_logic.Prelude.{
  ℕ, ◌≡◌, refl, subst⁻¹, ◌↔◌, inl, inr, true, List, [], ◌∷◌, ◌++◌, elem, Among, append-nil_left,
  Bool-cases, ==_iff, ◌==◌, arith,
}
use django_logic.Exec.{ok, ok_injective}
use django_logic.Django.{Django}
use django_logic.Process.{Program}
use django_logic.Process.Binding.{Binding}
use django_logic.Checks.{
  Finding, model_routed, Router, default_alias, or_alias, tm_write, message_findings,
  model_findings, route_findings, check_background_database_routing,
}
use django_logic.Checks.Background.{DeclaresBackground, AllFinite, has_background_cases}

module _ {d : Django} (program : Program d) (all : List ℕ) where
  module _ (router : Router) where
    -- The model is written where the rows are.
    abbrev pub IsTogether : ℕ → Type 0
    IsTogether model = or_alias (router.db_for_write model) ≡ tm_write router

    model_findings-none : (m : ℕ) → (model_findings router m ≡ []) ↔ IsTogether m
    model_findings-none m =
        elim (Bool-cases (or_alias (router.db_for_write m) == tm_write router)) [
          | inl e ↦ (λ _. (==_iff _ _).0 e, λ _. rw e refl)
          | inr e ↦ (λ h. cc (rw e at h), λ h. cc ((==_iff _ _).1 h, e))
        ]

    route_findings_ok :
        (bs : List Binding) (seen : List ℕ)
        → AllFinite program all bs
        → (fs : List Finding) × (route_findings program router seen bs ≡ ok fs)
    unfolding route_findings
    route_findings_ok [] seen f = ([], refl)
    route_findings_ok (b ∷ bs) seen f =
        let f' = λ (x : Binding) (m : Among x bs). f x (inr m) in
        let (fs, e) = route_findings_ok bs seen f' in
        let (gs, e') = route_findings_ok bs (b.model ∷ seen) f' in
        elim (Bool-cases (elem b.model seen)) [
          | inl old ↦ (fs, rw (old, e) refl)
          | inr new ↦ elim (has_background_cases program all b.process_class (f b (inl refl))) [
            | inl (h, _) ↦ (model_findings router b.model ++ gs, rw (new, h, e') refl)
            | inr (h, _) ↦ (fs, rw (new, h, e) refl)
          ]
        ]

    -- The loop over the bindings, after models that are written where the rows are.
    route_findings_lem :
        (bs : List Binding) (seen : List ℕ)
        → AllFinite program all bs
        → ((m : ℕ) → elem m seen ≡ true → IsTogether m)
        → (fs : List Finding) × (route_findings program router seen bs ≡ ok fs)
          × ((fs ≡ []) ↔ (
              (b : Binding)
              → Among b bs
              → DeclaresBackground program b.process_class
              → IsTogether b.model))
    unfolding route_findings
    route_findings_lem [] seen f g = ([], refl, (λ _ b m. absurd m, λ _. refl))
    route_findings_lem (b ∷ bs) seen f g =
        let f' = λ (x : Binding) (m : Among x bs). f x (inr m) in
        let later = λ (seen' : List ℕ) (g' : (m : ℕ) → elem m seen' ≡ true → IsTogether m).
          route_findings_lem bs seen' f' g' in
        elim (Bool-cases (elem b.model seen)) [
          | inl old ↦
              let (fs, e, iff) = later seen g in
              (fs, rw (old, e) refl, both fs iff (λ _. g b.model old))
          | inr new ↦ elim (has_background_cases program all b.process_class (f b (inl refl))) [
            | inr (h, n) ↦
                let (fs, e, iff) = later seen g in
                (fs, rw (new, h, e) refl, both fs iff (λ y. absurd (n y)))
            | inl (h, y) ↦
                elim (Bool-cases (or_alias (router.db_for_write b.model) == tm_write router)) [
                  | inl t ↦
                      let good = (==_iff _ _).0 t in
                      let (fs, e, iff) = later (b.model ∷ seen) (noted good) in
                      (fs, rw (new, h, e, t) refl, both fs iff (λ _. good))
                  | inr t ↦
                      let (fs, e) = route_findings_ok bs (b.model ∷ seen) f' in
                      (
                        model_routed b.model (or_alias (router.db_for_write b.model)) ∷ fs,
                        rw (new, h, e, t) refl,
                        (λ k. cc, λ k. cc ((==_iff _ _).1 (k b (inl refl) y), t)),
                      )
                ]
          ]
        ]
      where
        both :
            (fs : List Finding)
            → ((fs ≡ []) ↔ (
                (x : Binding)
                → Among x bs
                → DeclaresBackground program x.process_class
                → IsTogether x.model))
            → (DeclaresBackground program b.process_class → IsTogether b.model)
            → (fs ≡ []) ↔ (
                (x : Binding)
                → Among x (b ∷ bs)
                → DeclaresBackground program x.process_class
                → IsTogether x.model)
        both fs iff here = (
          λ k x m. elim m [
            | inl s ↦
                subst⁻¹ (λ z. DeclaresBackground program z.process_class → IsTogether z.model) s
                  here
            | inr i ↦ iff.0 k x i
          ],
          λ k. iff.1 (λ x m. k x (inr m)),
        )

        noted : IsTogether b.model → (m : ℕ) → elem m (b.model ∷ seen) ≡ true → IsTogether m
        noted good m h = elim (Bool-cases (m == b.model)) [
          | inl s ↦ subst⁻¹ IsTogether ((==_iff m b.model).0 s) good
          | inr o ↦ g m (ground (arith, h, o))
        ]

    message_findings-none :
        (message_findings router ≡ [])
        ↔ ((tm_write router ≡ default_alias) × (or_alias router.message_read ≡ tm_write router))
    message_findings-none = elim (Bool-cases (tm_write router == default_alias)) [
      | inl a ↦ elim (Bool-cases (or_alias router.message_read == tm_write router)) [
        | inl b ↦ (λ _. ((==_iff _ _).0 a, (==_iff _ _).0 b), λ _. rw (a, b) refl)
        | inr b ↦ (λ h. cc (rw (a, b) at h), λ (_, p). cc ((==_iff _ _).1 p, b))
      ]
      | inr a ↦ (λ h. cc (rw a at h), λ (p, _). cc ((==_iff _ _).1 p, a))
    ]

    -- In finite programs the routing check reports nothing exactly where the rows are written and
    -- read in the default database, and each model that is bound to a process which declares a
    -- background transition, itself or nested, is written there too.
    pub check_background_database_routing_lem :
        (bs : List Binding)
        → AllFinite program all bs
        → (check_background_database_routing program router true bs ≡ ok []) ↔ (
            (tm_write router ≡ default_alias)
            × (or_alias router.message_read ≡ tm_write router)
            × ((b : Binding)
                → Among b bs
                → DeclaresBackground program b.process_class
                → IsTogether b.model))
    unfolding check_background_database_routing
    check_background_database_routing_lem bs f =
        let (fs, e, iff) = route_findings_lem bs [] f (λ m h. cc) in
        rw e (
          λ h.
              let (a, b) = append-nil_left (message_findings router) fs (ok_injective h) in
              let (p, q) = message_findings-none.0 a in (p, q, iff.0 b),
          λ (p, q, k). rw (message_findings-none.1 (p, q), iff.1 k) refl,
        )
