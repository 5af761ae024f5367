-- ===== src/Background/Enqueue/Tests.antt =====
-- The theorems on enqueue on a small site.
use django_logic.Prelude.{◌≡◌, refl, false, some, [], ◌∷◌, update}
use django_logic.Errors.{already_in_progress}
use django_logic.Exec.{ok, err}
use django_logic.Django.{Message}
use django_logic.World.{World, sees}
use django_logic.Message.{occupies}
use django_logic.Background.Enqueue.{new_row, create, enqueue_atomic}
use django_logic.Background.Enqueue.Admission.{enqueue_atomic-accepted, enqueue_atomic-conflict}
use django_logic.Background.Enqueue.Uniqueness.{IsExclusive, create-IsExclusive}
use django_logic.Sample.Site.{
  site, draft, sending, invoice, start, succeeds, send_later, queued, submission,
}

abbrev idle : World site
idle = start [] draft false

abbrev busy : World site
busy = start (queued ∷ []) draft false

abbrev submitted_row : Message
submitted_row = new_row (send_later succeeds) invoice 1 [] 1000000 1

enqueue_atomic-accepted_example :
    let w' = (enqueue_atomic (send_later succeeds) invoice submission idle).1 in
    ((enqueue_atomic (send_later succeeds) invoice submission idle).0 ≡ ok submitted_row)
    × ((sees w').rows ≡ submitted_row ∷ [])
    × ((sees w').columns ≡ update (sees idle).columns 10 (some sending))
unfolding occupies
enqueue_atomic-accepted_example =
    enqueue_atomic-accepted (send_later succeeds) invoice submission idle [] refl refl draft refl
      refl refl refl

enqueue_atomic-conflict_example :
    ((enqueue_atomic (send_later succeeds) invoice submission busy).0 ≡ err already_in_progress)
    × (sees (enqueue_atomic (send_later succeeds) invoice submission busy).1 ≡ sees busy)
unfolding occupies
enqueue_atomic-conflict_example =
    enqueue_atomic-conflict (send_later succeeds) invoice submission busy [] refl refl refl

create-IsExclusive_example :
    IsExclusive (sees (create (new_row (send_later succeeds) invoice 1 [] 1000000) busy).1).rows
create-IsExclusive_example =
    create-IsExclusive busy (new_row (send_later succeeds) invoice 1 [] 1000000) refl (tt, tt)
