-- ===== src/Exec.antt =====
-- A Python call: it changes a state and returns or raises. What was written before a raise stays
-- written, so the state comes back beside an error too.
use django_logic.Prelude.{
  ◌≡◌, refl, ap, ◌⊎◌, inl, inr, Bool, true, false, Option, none, some, if◌then◌else◌,
}
use django_logic.Errors.{Error}

pub data Result {ℓ} (A : Type ℓ) : Type ℓ where
  ok : A → Result A
  err : Error → Result A

pub ok_injective {ℓ} : {A : Type ℓ} {a b : A} → ok a ≡ ok b → a ≡ b
ok_injective {a} e = ap (λ r. elim r [ ok x ↦ x | err _ ↦ a ]) e

pub err_injective {ℓ} : {A : Type ℓ} {x y : Error} → (let r : Result A = err x in r ≡ err y) → x ≡ y
err_injective {x} e = ap (λ r. elim r [ ok _ ↦ x | err z ↦ z ]) e

pub Result-cases {ℓ} :
    {A : Type ℓ} (r : Result A) → ((a : A) × (r ≡ ok a)) ⊎ ((e : Error) × (r ≡ err e))
Result-cases (ok a) = inl (a, refl)
Result-cases (err e) = inr (e, refl)

abbrev pub is_err {ℓ} : {A : Type ℓ} → Result A → Bool
is_err (ok _) = false
is_err (err _) = true

abbrev pub Exec {ℓ} : Type ℓ → Type ℓ → Type ℓ
Exec S A = S → Result A × S

module _ {ℓ} {S A : Type ℓ} where
  abbrev pub pure : A → Exec S A
  pure a s = (ok a, s)

  abbrev pub raise : Error → Exec S A
  raise e s = (err e, s)

  abbrev pub gets : (S → A) → Exec S A
  gets f s = (ok (f s), s)

module _ {ℓ} {S A B : Type ℓ} where
  abbrev pub continue : Result A → (A → Exec S B) → Exec S B
  continue (ok a) f s = f a s
  continue (err e) f s = (err e, s)

  infixl 5 ◌>>=◌ ◌>>◌
  abbrev pub ◌>>=◌ : Exec S A → (A → Exec S B) → Exec S B
  ◌>>=◌ m f s = let (r, s') = m s in continue r f s'

  abbrev pub ◌>>◌ : Exec S A → Exec S B → Exec S B
  m >> n = m >>= λ _. n

module _ {ℓ} {S A : Type ℓ} where
  -- What follows a raise: `except Exception as error:`.
  abbrev pub handled : Result A → (Error → Exec S A) → Exec S A
  handled (ok a) h s = (ok a, s)
  handled (err e) h s = h e s

  abbrev pub catch : Exec S A → (Error → Exec S A) → Exec S A
  catch m h s = let (r, s') = m s in handled r h s'

  abbrev pub lift : Result A → Exec S A
  lift r s = (r, s)

abbrev pub outcome : Result (Unit {0}) → Option Error
outcome (ok _) = none
outcome (err e) = some e

module _ {S : Type 0} where
  -- `try: m except Exception as error:`, with the exception as a value.
  abbrev pub attempted : Exec S Unit → Exec S (Option Error)
  attempted m s = let (r, s') = m s in (ok (outcome r), s')

module _ {S A : Type 0} where
  -- The outcome of a call as a value.
  abbrev pub caught : Exec S A → Exec S (Result A)
  caught m s = let (r, s') = m s in (ok r, s')

  -- `try: m finally: after`. A raise of `after` replaces the outcome of `m`.
  abbrev pub finally : Exec S A → Exec S Unit → Exec S A
  finally m after s = let (r, s') = m s in (after >> lift r) s'

module _ {S : Type 0} where
  abbrev pub modify : (S → S) → Exec S Unit
  modify f s = (ok tt, f s)

  abbrev pub when : Bool → Exec S Unit → Exec S Unit
  when c m = if c then m else pure tt

  -- `if c: raise e`
  abbrev pub raise_if : Bool → Error → Exec S Unit
  raise_if c e = if c then raise e else pure tt

module _ {ℓ} {S A B : Type ℓ} where
  -- Inversion of a chain that succeeds.
  pub continue-ok :
      (r : Result A) (f : A → Exec S B) (s : S) {b : B} {s' : S}
      → continue r f s ≡ (ok b, s')
      → (a : A) × (r ≡ ok a) × (f a s ≡ (ok b, s'))
  continue-ok (ok a) f s h = (a, refl, h)
  continue-ok (err e) f s h = cc

  pub >>=-ok :
      (m : Exec S A) (f : A → Exec S B) (s : S) {b : B} {s' : S}
      → (m >>= f) s ≡ (ok b, s')
      → (a : A) × (s₁ : S) × (m s ≡ (ok a, s₁)) × (f a s₁ ≡ (ok b, s'))
  >>=-ok m f s h =
      let (a, e, rest) = continue-ok (m s).0 f (m s).1 h in
      (a, (m s).1, ap (λ r. (r, (m s).1)) e, rest)
