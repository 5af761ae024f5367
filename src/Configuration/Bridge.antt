-- ===== src/Configuration/Bridge.antt =====
-- conf.py: `install_legacy_exception_base`, which adds a base class that the settings name to
-- `TransitionNotAllowed`. The state is `TransitionNotAllowed.__bases__`; a class is a number.
mod Tests
pub mod Installing
use django_logic.Prelude.{
  ℕ, ◌≡◌, refl, Bool, true, false, not, ◌&&◌, ◌||◌, List, [], ◌∷◌, ◌++◌, ◌==◌, ltb, if◌then◌else◌,
}
use django_logic.Errors.{Error, improperly_configured, is_import_error}
use django_logic.Exec.{Exec, Result, ok, err, pure, raise, gets, lift, ◌>>=◌, ◌>>◌}
use django_logic.Values.{
  Text, codes, pos, negsuc, Value, null, bool, int, float, text, library, opaque, list, tuple, set,
  frozenset, dict, Values, nil, cons, Entries, end, is_text, get,
}
use django_logic.Configuration.{conf}

-- What comes of `TransitionNotAllowed(message)`: what the `args` and the `str` of the instance give or
-- raise, or what its constructor raises, and whether that is an `Exception`.
pub data Probe : Type 0 where
  constructed : Result Values → Result Text → Probe
  failed : Bool → Error → Probe

-- What the code uses of Python's classes: `bool(v)` of a float, a library value or another object,
-- `import_string`, whether an object is an exception class, whether a class is
-- `TransitionNotAllowed` with the bases given or an ancestor of it, whether the bases can be assigned,
-- and the construction of an instance. A class among the bases of a class is an ancestor of it.
pub record Interpreter : Type 0 where
  pub truth : Value → Bool
  pub import_string : Value → Result ℕ
  pub is_exception_class : ℕ → Bool
  pub is_ancestor : List ℕ → ℕ → Bool
  pub can_assign : List ℕ → Bool
  pub construct : List ℕ → Text → Probe
  pub added_is_ancestor :
      (bases : List ℕ) (base : ℕ)
      → can_assign (bases ++ base ∷ []) ≡ true
      → is_ancestor (bases ++ base ∷ []) base ≡ true

abbrev pub probe_message : Text
probe_message = codes "legacy-base constructor compatibility probe"

-- `needle in hay`
abbrev is_prefix : Text → Text → Bool
is_prefix [] t = true
is_prefix (a ∷ s) [] = false
is_prefix (a ∷ s) (b ∷ t) = (a == b) && is_prefix s t

abbrev pub contains : Text → Text → Bool
contains needle [] = is_prefix needle []
contains needle (a ∷ hay) = is_prefix needle (a ∷ hay) || contains needle hay

-- `probe.args == (probe_msg,)`
abbrev pub is_message : Values → Bool
is_message (cons v nil) = is_text probe_message v
is_message _ = false

module _ (py : Interpreter) where
  -- `bool(path)`
  abbrev pub is_truthy : Value → Bool
  is_truthy null = false
  is_truthy (bool b) = b
  is_truthy (int (pos n)) = ltb 0 n
  is_truthy (int (negsuc n)) = true
  is_truthy (text []) = false
  is_truthy (text (c ∷ cs)) = true
  is_truthy (list nil) = false
  is_truthy (tuple nil) = false
  is_truthy (set nil) = false
  is_truthy (frozenset nil) = false
  is_truthy (dict end) = false
  is_truthy (float x) = py.truth (float x)
  is_truthy (library k n) = py.truth (library k n)
  is_truthy (opaque n) = py.truth (opaque n)
  is_truthy _ = true

  -- `conf.get('LEGACY_EXCEPTION_BASE') or None`
  abbrev base_among : Result Entries → Result Value
  base_among (err e) = err e
  base_among (ok es) =
      let value = get (codes "LEGACY_EXCEPTION_BASE") es in
      ok (if is_truthy value then value else null)

  unfoldable pub legacy_exception_base : Value → Result Value
  unfolding conf
  legacy_exception_base setting = base_among (conf setting)

  abbrev set_bases : List ℕ → Exec (List ℕ) Unit
  set_bases bases s = (ok tt, bases)

  -- `probe.args != (probe_msg,) or probe_msg not in str(probe)`
  abbrev pub eats_message : Result Values → Result Text → Result Bool
  eats_message (err e) str = err e
  eats_message (ok args) (err e) = if is_message args then err e else ok true
  eats_message (ok args) (ok str) = ok (not (is_message args && contains probe_message str))

  abbrev pub restore_bases : List ℕ → Result Bool → Exec (List ℕ) Unit
  restore_bases original (ok true) = set_bases original >> raise improperly_configured
  restore_bases original (ok false) = pure tt
  restore_bases original (err e) = raise e

  -- A base that breaks or eats the message of a denial is taken out again. The test stands outside of
  -- the `try`: what it raises leaves the base in.
  unfoldable pub check_probe : List ℕ → Probe → Exec (List ℕ) Unit
  check_probe original (failed is_exception e) =
      set_bases original >> raise (if is_exception then improperly_configured else e)
  check_probe original (constructed args str) = restore_bases original (eats_message args str)

  unfoldable pub mix_in : ℕ → Exec (List ℕ) Unit
  unfolding check_probe
  mix_in base = do
    original ← gets (λ bases. bases)
    let mixed = original ++ base ∷ []
    if py.can_assign mixed
        then (set_bases mixed >> check_probe original (py.construct mixed probe_message))
        else raise improperly_configured

  unfoldable pub install_imported : Result ℕ → Exec (List ℕ) Unit
  unfolding mix_in
  install_imported (err e) = raise (if is_import_error e then improperly_configured else e)
  install_imported (ok base) = do
    bases ← gets (λ bases. bases)
    if not (py.is_exception_class base)
        then raise improperly_configured
        else (if py.is_ancestor bases base then pure tt else mix_in base)

  unfoldable pub install_path : Value → Exec (List ℕ) Unit
  unfolding install_imported
  install_path path = if is_truthy path then install_imported (py.import_string path) else pure tt

  unfoldable pub install_legacy_exception_base : Value → Exec (List ℕ) Unit
  unfolding install_path legacy_exception_base
  install_legacy_exception_base setting = lift (legacy_exception_base setting) >>= install_path
