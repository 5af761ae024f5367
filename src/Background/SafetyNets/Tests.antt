-- ===== src/Background/SafetyNets/Tests.antt =====
-- The safety nets on a small table.
use django_logic.Prelude.{◌≡◌, refl, true, false, some, [], ◌∷◌, Among, inl}
use django_logic.Django.{Message}
use django_logic.World.{World, sees}
use django_logic.Background.SafetyNets.{
  is_swept, watchdog_stale_attempts, cleanup_completed_transitions, is_newer,
}
use django_logic.Background.SafetyNets.Watchdog.{compare_each, watchdog_stale_attempts-compare_each}
use django_logic.Background.SafetyNets.Cleanup.{SameParking, cleanup-parked}
use django_logic.Sample.Site.{site, failed, start, succeeds, queued, deployed}

-- Two failures of one instance, long ago, and a success.
abbrev old_failure : Message
old_failure = record queued {
  is_completed = true;
  ended_in_failure = true;
  completed_at = some 100;
  modified = 100;
}

abbrev newer_failure : Message
newer_failure = record old_failure { pk = 2; completed_at = some 200; modified = 200 }

abbrev success : Message
success = record old_failure { pk = 3; ended_in_failure = false }

abbrev years_later : World site
years_later = record (start (old_failure ∷ newer_failure ∷ success ∷ []) failed false) {
  now = 100000000000;
}

swept_lem : (sees (cleanup_completed_transitions years_later).1).rows ≡ newer_failure ∷ []
unfolding cleanup_completed_transitions is_swept
swept_lem = refl

cleanup-parked_example :
    (k : Message) × Among k (sees (cleanup_completed_transitions years_later).1).rows
    × SameParking old_failure k
    × (is_newer old_failure k ≡ false)
cleanup-parked_example = cleanup-parked years_later refl old_failure (inl refl) refl refl

watchdog_stale_attempts-compare_each_example :
    watchdog_stale_attempts (deployed succeeds) ≡ compare_each (deployed succeeds)
watchdog_stale_attempts-compare_each_example =
    watchdog_stale_attempts-compare_each (deployed succeeds)
