-- ===== src/Configuration/Bridge/Tests.antt =====
-- A settings file that names a base.
use django_logic.Prelude.{ℕ, ◌≡◌, refl, ◌⊎◌, true, List, [], ◌∷◌, ◌++◌, elem, elem-append, arith}
use django_logic.Errors.{improperly_configured, type_error}
use django_logic.Exec.{ok, err}
use django_logic.Values.{text_eq, codes, Value, text, cons, nil, dict, end, entry}
use django_logic.Configuration.Bridge.{
  Probe, probe_message, legacy_exception_base, Interpreter, constructed,
  install_legacy_exception_base,
}
use django_logic.Configuration.Bridge.Installing.{IsStuck, install_legacy_exception_base-refused}

elem_last : (x : ℕ) (xs : List ℕ) → elem x (xs ++ x ∷ []) ≡ true
elem_last x xs = ground (arith, elem-append x xs (x ∷ []))

-- The class 7 is the fork's; an instance of it gives `probe`.
abbrev fork : Probe → Interpreter
fork probe = record {
  truth = λ v. true;
  import_string = λ path. ok 7;
  is_exception_class = λ base. true;
  is_ancestor = λ bases base. elem base bases;
  can_assign = λ bases. true;
  construct = λ bases message. probe;
  added_is_ancestor = λ bases base h. elem_last base bases;
}

-- It drops the message.
abbrev drops : Probe
drops = constructed (ok nil) (ok [])

abbrev setting : Value
setting = dict (entry (text (codes "LEGACY_EXCEPTION_BASE")) (text (codes "fork.Denied")) end)

install_legacy_exception_base-refused_example :
    let after = (install_legacy_exception_base (fork drops) setting (1 ∷ [])).1 in
    (after ≡ 1 ∷ [])
    ⊎ ((base : ℕ) × (path : Value) × (legacy_exception_base (fork drops) setting ≡ ok path)
        × (ok 7 ≡ ok base)
        × IsStuck (fork drops) base (1 ∷ []) after improperly_configured)
unfolding install_legacy_exception_base text_eq
install_legacy_exception_base-refused_example =
    install_legacy_exception_base-refused (fork drops) setting (1 ∷ []) improperly_configured refl

-- An instance of a class whose `__str__` raises.
abbrev breaks : Probe
breaks = constructed (ok (cons (text probe_message) nil)) (err type_error)

stuck_lem :
    install_legacy_exception_base (fork breaks) setting (1 ∷ []) ≡ (err type_error, 1 ∷ 7 ∷ [])
unfolding install_legacy_exception_base text_eq
stuck_lem = refl
