-- ===== src/Results.antt =====
-- Code that raises and changes no state: a chain of results.
use django_logic.Prelude.{Bool, false, List, [], refl, true, ◌∷◌, ◌≡◌}
use django_logic.Errors.{Error}
use django_logic.Exec.{err, ok, Result}

module _ {ℓ κ} {A : Type ℓ} {B : Type κ} where
  infixl 5 ◌>>=◌
  -- A call, and the code that uses what it returned.
  abbrev pub ◌>>=◌ : Result A → (A → Result B) → Result B
  err e >>= rest = err e
  ok value >>= rest = rest value

  -- A chain that returns has a first call that returned.
  pub >>=-ok :
      {value : B} (call : Result A) (rest : A → Result B)
      → (call >>= rest) ≡ ok value
      → (x : A) × (call ≡ ok x) × (rest x ≡ ok value)
  >>=-ok (err e) rest returned = cc
  >>=-ok (ok x) rest returned = (x, refl, returned)

module _ {ℓ} {B : Type ℓ} where
  infixl 5 ◌>>◌
  -- A call that returns None, and the code after it.
  abbrev pub ◌>>◌ : Result (Unit {0}) → Result B → Result B
  call >> rest = call >>= λ _. rest

-- `if c: raise e`
abbrev pub refuse_if : Bool → Error → Result (Unit {0})
refuse_if false e = ok tt
refuse_if true e = err e

-- A loop whose body may raise.
abbrev pub each {ℓ} : {A : Type ℓ} → (A → Result (Unit {0})) → List A → Result (Unit {0})
each check [] = ok tt
each check (x ∷ xs) = check x >> each check xs

-- A refusal that did not happen.
pub refuse_if-ok :
    {A : Type 0} (c : Bool) (e : Error) (rest : Result A) {a : A}
    → (refuse_if c e >> rest) ≡ ok a
    → (c ≡ false) × (rest ≡ ok a)
refuse_if-ok false e rest returned = (refl, returned)
refuse_if-ok true e rest returned = cc
