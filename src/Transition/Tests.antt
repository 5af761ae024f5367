-- ===== src/Transition/Tests.antt =====
-- The theorems on transitions on a small site.
use django_logic.Prelude.{◌≡◌, refl, true, false, some, [], ◌∷◌, update, none, arith}
use django_logic.Errors.{
  raised, integrity_error, temporarily_unavailable, transition_not_allowed, stranded,
}
use django_logic.Exec.{err, ◌>>◌}
use django_logic.Django.{Message}
use django_logic.World.{World, sees}
use django_logic.State.{set_state}
use django_logic.Commands.{run_commands, callbacks_execute, next_transition_execute}
use django_logic.Message.{occupies, newest}
use django_logic.Message.Classification.{IsLost}
use django_logic.Transition.{Declaration, change_state, failure_callbacks_of, init}
use django_logic.Transition.Declaring.{IsDeclared, init-IsDeclared}
use django_logic.Transition.Entry.{locked, IsReady, Refusal, Untouched, change_state-refused}
use django_logic.Transition.Release.{IsReleasing}
use django_logic.Transition.Running.{Settled, change_state-failed, change_state-completed}
use django_logic.Sample.Site.{
  site, draft, sent, invoice, start, call, succeeds, fails, send_now, send_later, queued,
}

abbrev idle : World site
idle = start [] draft true

ready : IsReady (send_now fails) invoice call idle
unfolding occupies
ready = record {
  kwargs = refl;
  healthy = refl;
  free = refl;
  current = draft;
  persisted = refl;
  is_source = refl;
  unoccupied = refl;
}

ready_to_send : IsReady (send_now succeeds) invoice call idle
unfolding occupies
ready_to_send = record {
  kwargs = refl;
  healthy = refl;
  free = refl;
  current = draft;
  persisted = refl;
  is_source = refl;
  unoccupied = refl;
}

change_state-failed_example :
    (w' : World site) × Settled (send_now fails) invoice (locked invoice idle) w'
    × (change_state (send_now fails) invoice call idle ≡ (
      err (raised 7),
      (callbacks_execute (failure_callbacks_of (send_now fails) (raised 7)) w').1,
    ))
unfolding run_commands
change_state-failed_example =
    change_state-failed (send_now fails) invoice call idle (locked invoice idle) ready (raised 7)
      refl refl

change_state-completed_example :
    (w' : World site) × ((sees w').columns ≡ update (sees idle).columns 10 (some sent))
    × ((sees w').rows ≡ [])
    × IsReleasing invoice w'
    × (change_state (send_now succeeds) invoice call idle
        ≡ (callbacks_execute [] >> next_transition_execute call.process 0) w')
unfolding set_state run_commands
change_state-completed_example =
    change_state-completed (send_now succeeds) invoice call idle (locked invoice idle) ready_to_send
      refl refl

-- The same site with a database that refuses the target.
abbrev refusing : World site
refusing = record idle { conn = record idle.conn { refuses = λ k n. some integrity_error } }

ready_on_refusing : IsReady (send_now succeeds) invoice call refusing
unfolding occupies
ready_on_refusing = record {
  kwargs = refl;
  healthy = refl;
  free = refl;
  current = draft;
  persisted = refl;
  is_source = refl;
  unoccupied = refl;
}

-- A row that was just enqueued and waits for its first attempt, and a site on which it is in flight.
abbrev waiting : Message
waiting = record queued { started_at = none }

abbrev in_flight : World site
in_flight = start (waiting ∷ []) draft false

not-IsLost : ¬ (IsLost site.settings waiting in_flight.now × (false ≡ false))
not-IsLost (l, _) = let k = l.idle.0 in omega arith

change_state-refused_example :
    ((change_state (send_now succeeds) invoice call in_flight).0 ≡ err temporarily_unavailable)
    × Untouched
        (send_now succeeds)
        invoice
        in_flight
        (change_state (send_now succeeds) invoice call in_flight).1
unfolding occupies newest
change_state-refused_example =
    change_state-refused (send_now succeeds) invoice call in_flight refl (λ e. refl)
      temporarily_unavailable refl (Refusal.in_flight refl refl refl refl refl refl refl not-IsLost)

-- The same row long after it was last touched is refused as stranded.
stranded_lem :
    (change_state (send_now succeeds) invoice call (record in_flight { now = 9000000 })).0
    ≡ err (transition_not_allowed stranded)
unfolding change_state occupies
stranded_lem = refl

abbrev declaration : Declaration site
declaration = record {
  fields = record (send_later succeeds) { sources = draft ∷ [] };
  has_removed_kwarg = false;
  sources_is_string = false;
}

init-IsDeclared_example : IsDeclared (send_later succeeds)
unfolding init
init-IsDeclared_example = init-IsDeclared declaration (send_later succeeds) refl
