-- ===== src/Background/Dispatch.antt =====
-- background/dispatch.py beside `dispatch_transition`: the probe for callers, and the inline retry of
-- sync mode.
use django_logic.Prelude.{ℕ, Bool, false, none, if◌then◌else◌}
use django_logic.Exec.{pure, ◌>>=◌}
use django_logic.Django.{Django, Name}
use django_logic.World.{M}
use django_logic.Message.{is_retrying, retry_status}
use django_logic.Background.Deployment.{Deployment}
use django_logic.Background.SafetyNets.{run_pending}
use django_logic.Configuration.{Mode}

-- `_current_mode`: `force_sync` is the value of the context variable.
unfoldable pub current_mode : Bool → Mode → Mode
current_mode force_sync configured = if force_sync then Mode.sync else configured

module _ {d : Django} where
  unfoldable pub in_flight : ℕ → Name → M d Bool
  unfolding retry_status
  in_flight instance process_name =
      if d.settings.background_installed
      then (do status ← retry_status instance process_name; pure (is_retrying status))
      else pure false

  unfoldable pub retry_pending : Deployment d → M d ℕ
  unfolding run_pending
  retry_pending deployed = run_pending deployed none
