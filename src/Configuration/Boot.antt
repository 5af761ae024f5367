-- ===== src/Configuration/Boot.antt =====
-- What a deployment that passed the validation at boot can rely on.
use django_logic.Prelude.{
  subst, ℕ, ◌≤◌, ◌≡◌, refl, sym, ◌∙◌, ap, true, false, not, ltb, Bool-cases, inl, inr, arith,
}
use django_logic.Errors.{improperly_configured}
use django_logic.Exec.{Result, ok, err, ok_injective}
use django_logic.Results.{refuse_if-ok, ◌>>=◌, ◌>>◌, >>=-ok}
use django_logic.Values.{
  codes, pos, negsuc, finite, nan, infinity, Value, null, bool, int, float, text, library, opaque,
  list, tuple, set, frozenset, dict, Text,
}
use django_logic.Configuration.{
  is_number, Floats, Surroundings, Mode, read, checked_number, validated_number, max_errors,
  retry_minutes, cleanup_days, default_queue, background_execution, validate_bool,
  validate_core_settings, check_mode, validate_on_ready, is_below,
}

module _ (floats : Floats) where
  -- A whole number in range, by the kinds of values.
  abbrev IsAtLeast : ℕ → Value → Type 0
  IsAtLeast minimum v = (n : ℕ) × (v ≡ int (pos n)) × (minimum ≤ n)

  checked_number-IsAtLeast :
      (minimum : ℕ) (value : Value) {v : Value}
      → checked_number floats minimum true value ≡ ok v
      → IsAtLeast minimum v
  unfolding checked_number
  checked_number-IsAtLeast minimum (int (pos n)) h = elim (Bool-cases (ltb n minimum)) [
    | inl b ↦ cc (rw b at h)
    | inr b ↦ (n, sym (ok_injective (rw b at h)), ground (arith, b))
  ]
  checked_number-IsAtLeast minimum (int (negsuc n)) h = cc
  checked_number-IsAtLeast minimum (float (finite x)) h = elim (Bool-cases (floats.is_integer x)) [
    | inl b ↦ elim (Bool-cases (floats.lt x minimum)) [
      | inl c ↦ cc (rw (b, c) at h)
      | inr c ↦
          (floats.truncate x, sym (ok_injective (rw (b, c) at h)), floats.truncate_ge x minimum b c)
    ]
    | inr b ↦ cc (rw b at h)
  ]
  checked_number-IsAtLeast minimum (float nan) h = cc
  checked_number-IsAtLeast minimum (float infinity) h = cc
  checked_number-IsAtLeast minimum null h = cc
  checked_number-IsAtLeast minimum (bool b) h = cc
  checked_number-IsAtLeast minimum (text s) h = cc
  checked_number-IsAtLeast minimum (library k n) h = cc
  checked_number-IsAtLeast minimum (opaque n) h = cc
  checked_number-IsAtLeast minimum (list vs) h = cc
  checked_number-IsAtLeast minimum (tuple vs) h = cc
  checked_number-IsAtLeast minimum (set vs) h = cc
  checked_number-IsAtLeast minimum (frozenset vs) h = cc
  checked_number-IsAtLeast minimum (dict es) h = cc

  -- A reader of a whole number that returns gives an int that is at least the minimum.
  pub validated_number-bound :
      (setting : Value) (key : Text) (default : Value) (minimum : ℕ) {v : Value}
      → validated_number floats setting key default minimum true ≡ ok v
      → (n : ℕ) × (v ≡ int (pos n)) × (minimum ≤ n)
  unfolding validated_number
  validated_number-bound setting key default minimum h =
      let (value, _, h₁) = >>=-ok (read setting key default) _ h in
      checked_number-IsAtLeast minimum value h₁

  checked_number-le :
      (minimum : ℕ) (value : Value) {v : Value}
      → checked_number floats minimum false value ≡ ok v
      → is_below floats minimum v ≡ false
  unfolding checked_number
  checked_number-le minimum value h =
      let (_, h₁) = refuse_if-ok (not (is_number value)) improperly_configured _ h in
      let (b, h₂) =
        refuse_if-ok (is_below floats minimum value) improperly_configured (ok value) h₁ in
      subst (λ x. is_below floats minimum x ≡ false) (ok_injective h₂) b

  number-le :
      (setting : Value) (key : Text) (default : Value) (minimum : ℕ) {v : Value}
      → validated_number floats setting key default minimum false ≡ ok v
      → is_below floats minimum v ≡ false
  unfolding validated_number
  number-le setting key default minimum h =
      let (value, _, h₁) = >>=-ok (read setting key default) _ h in
      checked_number-le minimum value h₁

  -- A reader that is called for its exceptions.
  probe-ok :
      (m : Result Value) (k : Result (Unit {0}))
      → ((m >>= λ _. ok tt) >> k) ≡ ok tt
      → (v : Value) × (m ≡ ok v) × (k ≡ ok tt)
  probe-ok (ok v) k h = (v, refl, h)
  probe-ok (err e) k h = cc

  then-ok : (m k : Result (Unit {0})) → (m >> k) ≡ ok tt → k ≡ ok tt
  then-ok (ok _) k h = h
  then-ok (err e) k h = cc

  -- Where the validation at boot passes, the readers of the mode, the default queue and the
  -- three numbers return; the number of errors is an int of at least 1, the other two numbers
  -- are not negative, and the checks of the mode hold.
  pub validate_on_ready-readers :
      (around : Surroundings) (setting : Value)
      → validate_on_ready floats around setting ≡ ok tt
      → (mode : Mode) × (queue : Value) × (errors : ℕ) × (retry : Value) × (days : Value)
        × (background_execution setting ≡ ok mode)
        × (default_queue setting ≡ ok queue)
        × (max_errors floats setting ≡ ok (int (pos errors)))
        × (1 ≤ errors)
        × (retry_minutes floats setting ≡ ok retry)
        × (is_below floats 0 retry ≡ false)
        × (cleanup_days floats setting ≡ ok days)
        × (is_below floats 0 days ≡ false)
        × (check_mode floats around mode ≡ ok tt)
  unfolding validate_on_ready max_errors retry_minutes cleanup_days
  validate_on_ready-readers around setting h =
      let (mode, e, h₁) = >>=-ok (background_execution setting) _ h in
      let (queue, q, h₂) = probe-ok (default_queue setting) _ h₁ in
      let (errors, m, h₃) = probe-ok (max_errors floats setting) _ h₂ in
      let (retry, r, h₄) = probe-ok (retry_minutes floats setting) _ h₃ in
      let (days, c, h₅) = probe-ok (cleanup_days floats setting) _ h₄ in
      let checked =
        then-ok (validate_core_settings floats setting) (check_mode floats around mode)
          (then-ok (validate_bool setting (codes "STRICT_KWARGS_SERIALIZATION")) _ h₅) in
      let (n, is_n, bound) = validated_number-bound setting _ _ 1 m in
      (
        mode,
        queue,
        n,
        retry,
        days,
        e,
        q,
        m ∙ ap ok is_n,
        bound,
        r,
        number-le setting _ _ 0 r,
        c,
        number-le setting _ _ 0 c,
        checked,
      )
