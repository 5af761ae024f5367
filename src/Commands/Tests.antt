-- ===== src/Commands/Tests.antt =====
-- The theorems on savepoints and hooks on a small site.
use mathlib.Core.List.Memᴰ.{head}
use django_logic.Prelude.{refl, true, [], ◌∷◌}
use django_logic.Errors.{raised}
use django_logic.Exec.{err, raise, ◌>>◌}
use django_logic.World.{World, M}
use django_logic.Atomic.Laws.{entered}
use django_logic.Commands.{run_in_savepoint, note_deferred_unlock}
use django_logic.Commands.Deferred.{Released, run_in_savepoint-Released}
use django_logic.Sample.Site.{site, draft, invoice, start}

abbrev inside : World site
inside = start [] draft true

-- A block that defers the unlock of the invoice and then raises.
abbrev defers_then_raises : M site Unit
unfolding note_deferred_unlock
defers_then_raises = note_deferred_unlock invoice >> raise (raised 7)

abbrev noted : World site
unfolding note_deferred_unlock
noted = (note_deferred_unlock invoice (entered inside)).1

run_in_savepoint-Released_example :
    Released true defers_then_raises inside noted invoice
      (run_in_savepoint true defers_then_raises inside).1
unfolding noted
run_in_savepoint-Released_example =
    run_in_savepoint-Released true defers_then_raises inside noted (invoice ∷ []) refl refl invoice
      (head refl) (err (raised 7)) refl refl
