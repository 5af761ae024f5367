-- ===== src/Message/Tests.antt =====
-- The theorem on `retry_status` on a small site.
use django_logic.Prelude.{◌≡◌, refl, false, some, [], ◌∷◌, ◌⊎◌}
use django_logic.Exec.{ok}
use django_logic.World.{World}
use django_logic.Message.{occupies, newest, stranded, retrying, retry_status}
use django_logic.Message.Classification.{IsLost, retry_status-classifies}
use django_logic.Sample.Site.{site, sending, start, queued}

-- A site on which nothing has touched the queued row for longer than the retry window.
abbrev late : World site
late = record (start (queued ∷ []) sending false) { now = 9000000 }

retry_status-classifies_example :
    ((retry_status 20 1 late).0 ≡ ok (some stranded))
      × IsLost site.settings queued late.now
      × (false ≡ false)
    ⊎ ((retry_status 20 1 late).0 ≡ ok (some retrying))
      × ¬ (IsLost site.settings queued late.now × (false ≡ false))
unfolding occupies newest
retry_status-classifies_example = retry_status-classifies queued late refl refl 20 1 refl false refl

-- The row of the witness is lost, so it is the first case that holds.
late_lem : (retry_status 20 1 late).0 ≡ ok (some stranded)
unfolding retry_status occupies
late_lem = refl
