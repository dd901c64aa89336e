-- ===== src/Notices/OptOut.antt =====
-- What an owner is told (services/worker/notifications.py).
use tmask_tt.Base.{ℕ, ◌≡◌, true, false, none, arith}
use tmask_tt.Worker.{ok}
use tmask_tt.Transfers.{Job}
use tmask_tt.Accounts.{User}
use tmask_tt.Webhooks.Send.{Web, Notice, is_wanted, send_webhook_notification}
use tmask_tt.Notices.{Channels, is_muted, send_email_notification, send_telegram_notification}

-- Every channel of the owner is off for the status of the job.
abbrev pub IsOff : User → Job → Type 0
IsOff u j =
    (is_muted u.notify_on_done u.notify_on_failed j ≡ true)
    × (is_muted u.telegram_on_done u.telegram_on_failed j ≡ true)
    × (is_wanted u j ≡ false)

-- An owner who turned all three channels off for the status of a job gets no mail, no Telegram
-- message and no webhook on it, and none of the three functions raises.
pub notifications_off :
    (C : Channels Job) (W : Web) (now : ℕ) (u : User) (n : Notice)
    → IsOff u n.job
    → (send_email_notification C u n.job ≡ (ok false, none))
      × (send_telegram_notification C u n.job ≡ (ok false, none))
      × (send_webhook_notification W now u n ≡ (ok false, none))
unfolding send_email_notification send_telegram_notification send_webhook_notification
notifications_off C W now u n (no_mail, no_telegram, no_webhook) =
    (ground arith, ground arith, ground arith)
