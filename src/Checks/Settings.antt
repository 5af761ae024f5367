-- ===== src/Checks/Settings.antt =====
-- What the check of the settings' keys accepts.
use django_logic.Prelude.{
  ◌≡◌, refl, sym, ap, subst, subst⁻¹, ◌∙◌, ◌↔◌, inl, inr, true, false, ◌||◌, List, [], ◌∷◌, ◌++◌,
  any, Among, any-Among, Among-any, Among-any-false, append-nil_left, Bool-cases, arith,
}
use django_logic.Exec.{Result, ok, ok_injective}
use django_logic.Results.{>>=-ok}
use django_logic.Values.{
  Text, Value, text, dict, Entries, end, entry, is_text, has, text_eq, eq-of-text_eq, text_eq_refl,
}
use django_logic.Checks.{
  known_settings, removed_settings, one_of, removed_in, unknown_in, unknown_findings,
  check_no_unknown_settings,
}

abbrev pub keys : Entries → List Value
keys end = []
keys (entry k v es) = k ∷ keys es

is_text-eq : (name : Text) (k : Value) → is_text name k ≡ true → k ≡ text name
is_text-eq name (text s) h = ap text (eq-of-text_eq s name h)
is_text-eq name _ h = cc

has-Among : (name : Text) (es : Entries) → (has name es ≡ true) ↔ Among (text name) (keys es)
has-Among name end = (λ h. cc, λ m. absurd m)
has-Among name (entry k v es) = elim (Bool-cases (is_text name k)) [
  | inl e ↦ rw e (λ _. inl (sym (is_text-eq name k e)), λ _. refl)
  | inr e ↦ rw e (
    λ h. inr ((has-Among name es).0 h),
    λ m. elim m [
      | inl s ↦ cc (subst (λ z. is_text name z ≡ true) s (text_eq_refl name), e)
      | inr i ↦ (has-Among name es).1 i
    ],
  )
]

-- None of the names is a key.
removed_in-none :
    (es : Entries) (names : List Text)
    → (removed_in es names ≡ []) ↔ ((n : Text) → Among n names → ¬ Among (text n) (keys es))
unfolding removed_in
removed_in-none es [] = (λ _ n m. absurd m, λ _. refl)
removed_in-none es (name ∷ names) = elim (Bool-cases (has name es)) [
  | inl h ↦ rw h (λ e. cc, λ k. absurd (k name (inl refl) ((has-Among name es).0 h)))
  | inr h ↦ rw h (
    λ e n m. elim m [
      | inl s ↦ subst⁻¹ (λ z. ¬ Among (text z) (keys es)) s (λ i. cc ((has-Among name es).1 i, h))
      | inr i ↦ (removed_in-none es names).0 e n i
    ],
    λ k. (removed_in-none es names).1 (λ n m. k n (inr m)),
  )
]

abbrev pub IsOneOf : List Text → Value → Type 0
IsOneOf names k = (n : Text) × Among n names × (k ≡ text n)

one_of-IsOneOf : (names : List Text) (k : Value) → (one_of names k ≡ true) ↔ IsOneOf names k
one_of-IsOneOf names k = (
  λ h. let (n, m, e) = any-Among (λ n. is_text n k) names h in (n, m, is_text-eq n k e),
  λ (n, m, e).
      Among-any (λ n. is_text n k) names n m (subst⁻¹ (λ z. is_text n z ≡ true) e (text_eq_refl n)),
)

-- Each key is a known or a removed one.
unknown_in-none :
    (es : Entries)
    → (unknown_in es ≡ []) ↔ (
        (k : Value)
        → Among k (keys es)
        → (one_of known_settings k || one_of removed_settings k) ≡ true)
unfolding unknown_in
unknown_in-none end = (λ _ k m. absurd m, λ _. refl)
unknown_in-none (entry key v es) =
    elim (Bool-cases (one_of known_settings key || one_of removed_settings key)) [
      | inl h ↦ (
        λ e k m. elim m [
          | inl s ↦ subst⁻¹ (λ z. (one_of known_settings z || one_of removed_settings z) ≡ true) s h
          | inr i ↦ (unknown_in-none es).0 (rw h at e) k i
        ],
        λ g. rw h ((unknown_in-none es).1 (λ k m. g k (inr m))),
      )
      | inr h ↦ (λ e. cc (rw h at e), λ g. cc (g key (inl refl), h))
    ]

unknown_findings-none : (ks : List Value) → unknown_findings ks ≡ [] → ks ≡ []
unknown_findings-none [] h = refl
unknown_findings-none (k ∷ ks) h = cc

apart : any (λ r. one_of known_settings (text r)) removed_settings ≡ false
unfolding text_eq
apart = refl

-- No name stands in both lists.
known-removed : (n : Text) → Among n removed_settings → one_of known_settings (text n) ≡ false
known-removed n m = Among-any-false (λ r. one_of known_settings (text r)) removed_settings n apart m

-- What `sorted` does with the emptiness of a list.
pub record IsSorting (sorted : List Value → Result (List Value)) : Type 0 where
  pub empty : sorted [] ≡ ok []
  pub nonempty : (ks : List Value) → sorted ks ≡ ok [] → ks ≡ []

-- The check returns without a finding exactly where each key of DJANGO_LOGIC is a text that the
-- engine reads.
pub check_no_unknown_settings_lem :
    (sorted : List Value → Result (List Value))
    → IsSorting sorted
    → (es : Entries)
    → (check_no_unknown_settings sorted (dict es) ≡ ok [])
      ↔ ((k : Value) → Among k (keys es) → IsOneOf known_settings k)
unfolding check_no_unknown_settings
check_no_unknown_settings_lem sorted sorting es = (
  λ h k m.
      let (unknown, s, returned) =
        >>=-ok (sorted (unknown_in es))
          (λ ks. ok (removed_in es removed_settings ++ unknown_findings ks)) h in
      let (r, u) = append-nil_left (removed_in es removed_settings) _ (ok_injective returned) in
      let none_left =
        sorting.nonempty (unknown_in es) (s ∙ ap ok (unknown_findings-none unknown u)) in
      let known = (unknown_in-none es).0 none_left k m in
      (one_of-IsOneOf known_settings k).0 (elim (Bool-cases (one_of removed_settings k)) [
        | inl old ↦
            let (n, i, e) = (one_of-IsOneOf removed_settings k).0 old in
            absurd
              ((removed_in-none es removed_settings).0 r n i (subst (λ z. Among z (keys es)) e m))
        | inr new ↦ ground (arith, known, new)
      ]),
  λ good.
      let known =
        λ (k : Value) (m : Among k (keys es)). (one_of-IsOneOf known_settings k).1 (good k m) in
      let u = (unknown_in-none es).1 (λ k m. let e = known k m in rw e refl) in
      let r =
        (removed_in-none es removed_settings).1
          (λ n i m. cc (known (text n) m, known-removed n i)) in
      rw (u, sorting.empty, r) refl,
)
