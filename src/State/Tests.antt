-- ===== src/State/Tests.antt =====
-- The theorems on the state field and its lock on a small site.
use django_logic.Prelude.{◌≡◌, refl, true, false, none, some, [], ◌==◌, if◌then◌else◌}
use django_logic.Exec.{ok}
use django_logic.Django.{State}
use django_logic.World.{World}
use django_logic.State.{lock, unlock}
use django_logic.State.Ownership.{IsFresh, done, locks, lock-excludes}
use django_logic.Sample.Site.{site, draft, invoice, other_invoice, start}

abbrev idle : World site
idle = start [] draft false

fresh : IsFresh idle
fresh = record { below = λ a t e. cc e; distinct = λ a b t e e'. cc e }

abbrev taken : World site
taken = record idle {
  cache = λ k. if k == 10 then some 5 else none;
  supply = 6;
  tokens = λ a. if a == 1 then some 5 else none;
}

-- Another State object of the invoice tries the lock meanwhile.
abbrev tried : World site
tried = record taken { supply = 7 }

lock-excludes_example :
    (lock other_invoice tried ≡ (ok false, record tried { supply = 8 }))
    × ((lock other_invoice (unlock invoice tried).1).0 ≡ ok true)
    × ((stranger : State)
        → stranger.instance_key ≡ 10
        → tried.tokens stranger.ref ≡ none
        → (lock other_invoice (unlock stranger tried).1).0 ≡ ok true)
unfolding lock
lock-excludes_example =
    lock-excludes invoice idle tried fresh refl (locks other_invoice refl done) other_invoice refl
