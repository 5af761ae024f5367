-- ===== src/Transition/Action/Tests.antt =====
-- The theorems on actions on a small site.
use django_logic.Prelude.{◌≡◌, refl, false, none, [], ◌∷◌}
use django_logic.Errors.{raised}
use django_logic.World.{World}
use django_logic.Commands.{callbacks_execute}
use django_logic.Message.{occupies}
use django_logic.Transition.{Transition, action, failure_callbacks_of}
use django_logic.Transition.Action.{fail_transition}
use django_logic.Transition.Action.Yielding.{action_fail-in_flight}
use django_logic.Transition.Release.{SameData}
use django_logic.Sample.Site.{site, draft, invoice, start, fails, send, queued}

abbrev remind : Transition site
remind = send action 0 fails

abbrev idle : World site
idle = start [] draft false

abbrev in_flight : World site
in_flight = start (queued ∷ []) draft false

action_fail-in_flight_example :
    (w' : World site) × (fail_transition remind invoice (raised 7) in_flight
      ≡ callbacks_execute (failure_callbacks_of remind (raised 7)) w')
    × SameData in_flight w'
    × (site.get 10 w'.cache ≡ none)
unfolding occupies
action_fail-in_flight_example =
    action_fail-in_flight remind invoice (raised 7) in_flight refl refl refl refl refl
