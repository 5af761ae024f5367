-- ===== src/Background/Finalize/Tests.antt =====
-- The theorems on the safety nets on a small site.
use django_logic.Prelude.{◌≡◌, refl, true, false, some, [], ◌∷◌}
use django_logic.Errors.{timeout_error, restore_error}
use django_logic.Exec.{ok, pure, raise}
use django_logic.World.{World, sees}
use django_logic.Message.{count_error}
use django_logic.Message.Rows.{row_of, rewrite_row}
use django_logic.Background.Deployment.{Deployment}
use django_logic.Background.Finalize.{is_charged, abandon_timed_out_attempt}
use django_logic.Background.Finalize.Abandoned.{abandon_timed_out_attempt-charges}
use django_logic.Sample.Site.{site, sending, start, succeeds, queued, deployed}

abbrev overdue : World site
overdue = start (queued ∷ []) sending false

abandon_timed_out_attempt-charges_example :
    let w' = (abandon_timed_out_attempt (deployed succeeds) 1 overdue).1 in
    let r = count_error 1000000 timeout_error queued in
    ((abandon_timed_out_attempt (deployed succeeds) 1 overdue).0 ≡ ok true)
    × ((sees w').rows ≡ rewrite_row 1 (count_error 1000000 timeout_error) (queued ∷ []))
    × ((sees w').columns ≡ (sees overdue).columns)
    × (row_of 1 (sees w').rows ≡ some r)
    × (is_charged r.last_error_dt r.started_at ≡ true)
abandon_timed_out_attempt-charges_example =
    abandon_timed_out_attempt-charges (deployed succeeds) 1 queued overdue
      (record { healthy = refl; found = refl; uncompleted = refl; unlocked = refl }) refl refl

-- A deployment in which the model of the row is gone.
abbrev uninstalled : Deployment site
uninstalled = record { restore = λ m. raise restore_error; decode = λ m. pure tt }
