-- ===== src/Configuration/Bridge/Installing.antt =====
-- conf.py: what `install_legacy_exception_base` leaves of the bases of `TransitionNotAllowed`.
use django_logic.Prelude.{
  ℕ, ◌≡◌, refl, ap, sym, subst, true, ◌&&◌, List, [], ◌∷◌, ◌++◌, Bool-cases, inl, inr, ◌⊎◌,
}
use django_logic.Errors.{Error}
use django_logic.Exec.{err_injective, Result, ok, err, lift, ◌>>=◌}
use django_logic.Values.{Text, Value, Values}
use django_logic.Configuration.Bridge.{
  Interpreter, Probe, failed, constructed, is_message, contains, probe_message, is_truthy,
  check_probe, mix_in, install_imported, install_path, legacy_exception_base,
  install_legacy_exception_base,
}

module _ (py : Interpreter) where
  -- The test of the message raises, on the `args` or the `str` of an instance.
  abbrev pub Breaks : Probe → Error → Type 0
  Breaks (failed b e') e = ⊥
  Breaks (constructed args str) e =
      (args ≡ err e)
      ⊎ ((values : Values) × (args ≡ ok values) × (is_message values ≡ true) × (str ≡ err e))

  tested-refused :
      (original bases : List ℕ) (args : Result Values) (str : Result Text) (e : Error)
      → (check_probe py original (constructed args str) bases).0 ≡ err e
      → ((check_probe py original (constructed args str) bases).1 ≡ original)
        ⊎ (((check_probe py original (constructed args str) bases).1 ≡ bases)
            × Breaks (constructed args str) e)
  unfolding check_probe
  tested-refused original bases (err e') str e h =
      inr (refl, inl (ap (λ x. err x) (err_injective h)))
  tested-refused original bases (ok args) (err e') e h = elim (Bool-cases (is_message args)) [
    | inl b ↦ rw b (inr (refl, inr (args, refl, b, ap (λ x. err x) (err_injective (rw b at h)))))
    | inr b ↦ rw b (inl refl)
  ]
  tested-refused original bases (ok args) (ok str) e h =
      elim (Bool-cases (is_message args && contains probe_message str)) [
        | inl b ↦ absurd (cc (rw b at h))
        | inr b ↦ rw b (inl refl)
      ]

  check_probe-refused :
      (original bases : List ℕ) (p : Probe) (e : Error)
      → (check_probe py original p bases).0 ≡ err e
      → ((check_probe py original p bases).1 ≡ original)
        ⊎ (((check_probe py original p bases).1 ≡ bases) × Breaks p e)
  unfolding check_probe
  check_probe-refused original bases (failed b e') e h = inl refl
  check_probe-refused original bases (constructed args str) e h =
      tested-refused original bases args str e h

  tested-kept :
      (original bases after : List ℕ) (args : Result Values) (str : Result Text)
      → check_probe py original (constructed args str) bases ≡ (ok tt, after)
      → after ≡ bases
  unfolding check_probe
  tested-kept original bases after (err e) str h = absurd (cc (ap (λ r. r.0) h))
  tested-kept original bases after (ok args) (err e) h = elim (Bool-cases (is_message args)) [
    | inl b ↦ absurd (cc (ap (λ r. r.0) (rw b at h)))
    | inr b ↦ absurd (cc (ap (λ r. r.0) (rw b at h)))
  ]
  tested-kept original bases after (ok args) (ok str) h =
      elim (Bool-cases (is_message args && contains probe_message str)) [
        | inl b ↦ sym (ap (λ r. r.1) (rw b at h))
        | inr b ↦ absurd (cc (ap (λ r. r.0) (rw b at h)))
      ]

  check_probe-kept :
      (original bases after : List ℕ) (p : Probe)
      → check_probe py original p bases ≡ (ok tt, after)
      → after ≡ bases
  unfolding check_probe
  check_probe-kept original bases after (failed b e') h = absurd (cc (ap (λ r. r.0) h))
  check_probe-kept original bases after (constructed args str) h =
      tested-kept original bases after args str h

  -- The base was added, and the test of the message has raised: it stays.
  abbrev pub IsStuck : ℕ → List ℕ → List ℕ → Error → Type 0
  IsStuck base bases after e =
      (after ≡ bases ++ base ∷ []) × Breaks (py.construct (bases ++ base ∷ []) probe_message) e

  mix_in-refused :
      (base : ℕ) (bases : List ℕ) (e : Error)
      → (mix_in py base bases).0 ≡ err e
      → ((mix_in py base bases).1 ≡ bases) ⊎ IsStuck base bases (mix_in py base bases).1 e
  unfolding mix_in
  mix_in-refused base bases e h = elim (Bool-cases (py.can_assign (bases ++ base ∷ []))) [
    | inl b ↦ rw b (
        check_probe-refused bases (bases ++ base ∷ [])
          (py.construct (bases ++ base ∷ []) probe_message) e (rw b at h))
    | inr b ↦ rw b (inl refl)
  ]

  -- A base that was mixed in is an ancestor.
  mix_in-mixed :
      (base : ℕ) (bases after : List ℕ)
      → mix_in py base bases ≡ (ok tt, after)
      → py.is_ancestor after base ≡ true
  unfolding mix_in
  mix_in-mixed base bases after h = elim (Bool-cases (py.can_assign (bases ++ base ∷ []))) [
    | inl b ↦
        let kept = check_probe-kept bases (bases ++ base ∷ []) after _ (rw b at h) in
        subst (λ l. py.is_ancestor l base ≡ true) (sym kept) (py.added_is_ancestor bases base b)
    | inr b ↦ absurd (cc (ap (λ r. r.0) (rw b at h)))
  ]

  install_imported-refused :
      (r : Result ℕ) (bases : List ℕ) (e : Error)
      → (install_imported py r bases).0 ≡ err e
      → ((install_imported py r bases).1 ≡ bases)
        ⊎ ((base : ℕ) × (r ≡ ok base) × IsStuck base bases (install_imported py r bases).1 e)
  unfolding install_imported
  install_imported-refused (err e') bases e h = inl refl
  install_imported-refused (ok base) bases e h = elim (Bool-cases (py.is_exception_class base)) [
    | inl b ↦ elim (Bool-cases (py.is_ancestor bases base)) [
      | inl a ↦ rw (b, a) (inl refl)
      | inr a ↦
          rw (b, a)
            (elim (mix_in-refused base bases e (rw (b, a) at h)) [
              | inl same ↦ inl same
              | inr stuck ↦ inr (base, refl, stuck)
            ])
    ]
    | inr b ↦ rw b (inl refl)
  ]

  -- A base that is installed is an exception class and an ancestor.
  install_imported-installed :
      (r : Result ℕ) (bases after : List ℕ)
      → install_imported py r bases ≡ (ok tt, after)
      → (base : ℕ) × (r ≡ ok base)
        × (py.is_exception_class base ≡ true)
        × (py.is_ancestor after base ≡ true)
  unfolding install_imported
  install_imported-installed (err e) bases after h = absurd (cc (ap (λ r. r.0) h))
  install_imported-installed (ok base) bases after h =
      elim (Bool-cases (py.is_exception_class base)) [
        | inl b ↦ (
          base,
          refl,
          b,
          elim (Bool-cases (py.is_ancestor bases base)) [
            | inl a ↦ subst (λ l. py.is_ancestor l base ≡ true) (ap (λ r. r.1) (rw (b, a) at h)) a
            | inr a ↦ mix_in-mixed base bases after (rw (b, a) at h)
          ],
        )
        | inr b ↦ absurd (cc (ap (λ r. r.0) (rw b at h)))
      ]

  install_imported-again :
      (base : ℕ) (bases : List ℕ)
      → py.is_exception_class base ≡ true
      → py.is_ancestor bases base ≡ true
      → install_imported py (ok base) bases ≡ (ok tt, bases)
  unfolding install_imported
  install_imported-again base bases b a = rw (b, a) refl

  install_path-refused :
      (r : Result Value) (bases : List ℕ) (e : Error)
      → ((lift r >>= install_path py) bases).0 ≡ err e
      → (((lift r >>= install_path py) bases).1 ≡ bases)
        ⊎ ((base : ℕ) × (path : Value) × (r ≡ ok path)
            × (py.import_string path ≡ ok base)
            × IsStuck base bases ((lift r >>= install_path py) bases).1 e)
  unfolding install_path
  install_path-refused (err e') bases e h = inl refl
  install_path-refused (ok path) bases e h = elim (Bool-cases (is_truthy py path)) [
    | inl b ↦ rw b (elim (install_imported-refused (py.import_string path) bases e (rw b at h)) [
      | inl same ↦ inl same
      | inr (base, imported, stuck) ↦ inr (base, path, refl, imported, stuck)
    ])
    | inr b ↦ rw b (inl refl)
  ]

  -- An installation that raises leaves the bases of `TransitionNotAllowed` as they were, at whatever
  -- step but one: where the `args` or the `str` of an instance with the imported base raise, that
  -- exception is passed on and the base stays among the bases.
  pub install_legacy_exception_base-refused :
      (setting : Value) (bases : List ℕ) (e : Error)
      → (install_legacy_exception_base py setting bases).0 ≡ err e
      → let after = (install_legacy_exception_base py setting bases).1 in
        (after ≡ bases)
        ⊎ ((base : ℕ) × (path : Value) × (legacy_exception_base py setting ≡ ok path)
            × (py.import_string path ≡ ok base)
            × IsStuck base bases after e)
  unfolding install_legacy_exception_base
  install_legacy_exception_base-refused setting =
      install_path-refused (legacy_exception_base py setting)

  -- An installation that returns, where the settings name a base, has imported an exception class
  -- that is then an ancestor of `TransitionNotAllowed`, and a second installation changes nothing.
  pub install_legacy_exception_base-installed :
      (setting path : Value) (bases after : List ℕ)
      → legacy_exception_base py setting ≡ ok path
      → is_truthy py path ≡ true
      → install_legacy_exception_base py setting bases ≡ (ok tt, after)
      → (base : ℕ) × (py.import_string path ≡ ok base)
        × (py.is_exception_class base ≡ true)
        × (py.is_ancestor after base ≡ true)
        × (install_legacy_exception_base py setting after ≡ (ok tt, after))
  unfolding install_legacy_exception_base install_path
  install_legacy_exception_base-installed setting path bases after named t h =
      let (base, imported, b, a) =
        install_imported-installed (py.import_string path) bases after (rw (named, t) at h) in
      (base, imported, b, a, rw (named, t, imported) (install_imported-again base after b a))
