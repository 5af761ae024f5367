-- ===== src/Testing/Snapshot/Tests.antt =====
-- A row that ended in a failure, captured and restored.
use django_logic.Prelude.{ℕ, ◌≡◌, refl, true, false, not, Option, none, some, [], ◌∷◌, ◌++◌, filter}
use django_logic.Errors.{type_error}
use django_logic.Exec.{ok, err}
use django_logic.Django.{Message}
use django_logic.World.{World, sees}
use django_logic.Values.{
  Value, null, text, list, tuple, set, dict, library, decimal, LibraryKind, nil, cons, end, entry,
}
use django_logic.Serializers.{Python}
use django_logic.Testing.Snapshot.{
  Recorded, jsonable, is_for, record_message, restore_message, latest_message,
}
use django_logic.Testing.Snapshot.Replay.{ReadsDates, replay_of, restore_message-record_message}
use django_logic.Sample.Site.{site, failed, start, queued}

abbrev parse_one : LibraryKind → Value → Option ℕ
parse_one k (text (c ∷ [])) = some c
parse_one k _ = none

abbrev python : Python
python = record {
  print = λ k n. n ∷ [];
  parse = parse_one;
  same = λ v u. false;
  str = λ v. [];
  pk = λ v. null;
}

reads : ReadsDates python
reads = record { printed = λ t. (t, []); nonempty = λ t. refl; parsed = λ t. refl }

-- A tuple becomes a list, a set is refused.
tuple_lem :
    jsonable python (tuple (cons (library decimal 4) (cons (dict end) nil)))
    ≡ ok (list (cons (text (4 ∷ [])) (cons (dict end) nil)))
unfolding jsonable
tuple_lem = refl

set_lem : jsonable python (dict (entry (text []) (set nil) end)) ≡ err type_error
unfolding jsonable
set_lem = refl

abbrev parked : Message
parked = record queued {
  is_completed = true;
  ended_in_failure = true;
  errors_count = 3;
  last_error_dt = some 950000;
  completed_at = some 950000;
}

abbrev world : World site
world = start (parked ∷ []) failed false

restore_message-record_message_example :
    (recorded : Recorded) × (record_message python parked ≡ ok recorded)
    × (pk : ℕ) × (let r = replay_of 1000000 20 pk parked in
        let (res, w') = restore_message python 20 recorded world in
        (res ≡ ok r)
        × ((sees w').rows ≡ filter (λ x. not (is_for 20 1 x)) (sees world).rows ++ r ∷ [])
        × ((latest_message 20 1 w').0 ≡ ok (some r)))
restore_message-record_message_example =
    restore_message-record_message python reads world refl 20 parked refl (λ x. refl)
