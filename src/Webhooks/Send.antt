-- ===== src/Webhooks/Send.antt =====
-- The task `transfers.send_webhook` (services/worker/tasks.py) and the request it makes
-- (services/worker/notifications.py, `send_webhook_notification`).
use tmask_tt.Base.{
  ℕ, String, Bool, true, false, ◌&&◌, ◌||◌, not, Option, none, some, List, [], ◌∷◌, truthy,
  if◌then◌else◌,
}
use tmask_tt.Base.Str.{has_part}
use tmask_tt.Worker.{message, Result, ok, err}
use tmask_tt.Transfers.{Job}
use tmask_tt.Accounts.{User}
use tmask_tt.Webhooks.{
  Delivery, circuit_is_open, record_success, record_failure, circuit_skipped_message,
}
use tmask_tt.Webhooks.Guard.{Network, block_private_url}
use tmask_tt.Webhooks.Payload.{
  Target, Payload, is_done, is_failed, build_webhook_payload, build_slack_payload,
}

-- The network and the libraries that the request uses: what `requests.post` followed by
-- `raise_for_status` raises, if anything, and how a time is written.
pub record Web : Type 0 where
  pub network : Network
  pub post : ℕ → String → Payload → Result (Unit {0})
  pub strftime : ℕ → String

-- A job with the rows that it points to.
pub record Notice : Type 0 where
  pub job : Job
  pub target : Target

-- The row of the owner, the rows of the delivery log (the last one first) and the URLs that were
-- posted to (the last one first).
pub record Outbox : Type 0 where
  pub user : User
  pub deliveries : List Delivery
  pub posted : List String

-- Whether the owner wants the job's status; a job that is neither done nor failed passes.
abbrev pub is_wanted : User → Job → Bool
is_wanted u j =
    not (is_done j.status && not u.webhook_on_done)
    && not (is_failed j.status && not u.webhook_on_failed)

abbrev pub payload_for : Web → Notice → String → Payload
payload_for W n url =
    if has_part "hooks.slack.com" url
    then build_slack_payload n.job
    else build_webhook_payload W.strftime n.target n.job

abbrev sent_by : Result (Unit {0}) → Result Bool
sent_by (ok u) = ok true
sent_by (err e) = err e

-- `send_webhook_notification`: its result, and the URL that it posted to.
unfoldable pub send_webhook_notification : Web → ℕ → User → Notice → Result Bool × Option String
send_webhook_notification W now u n =
    if not (truthy u.webhook_url) || not (is_wanted u n.job)
    then (ok false, none)
    else if not (block_private_url W.network u.webhook_url)
    then (ok false, none)
    else (sent_by (W.post now u.webhook_url (payload_for W n u.webhook_url)), some u.webhook_url)

abbrev row : User → Notice → Bool → Bool → String → Delivery
row u n success skipped text = record {
  user = u.pk;
  job = some n.job.pk;
  url = u.webhook_url;
  success = success;
  skipped = skipped;
  error_message = text;
}

abbrev with_posted : Option String → List String → List String
with_posted none urls = urls
with_posted (some url) urls = url ∷ urls

-- `send_webhook` of a job that exists: an error is raised again as a retry.
unfoldable pub send_webhook : Web → ℕ → Notice → Outbox → Result (Unit {0}) × Outbox
send_webhook W now n o =
    let u = o.user in
    if not (truthy u.webhook_url)
    then (ok tt, o)
    else if circuit_is_open u now
    then (
      ok tt,
      record o { deliveries = row u n false true circuit_skipped_message ∷ o.deliveries },
    )
    else let (sent, posted) = send_webhook_notification W now u n in
      let urls = with_posted posted o.posted in
      elim sent [
        | err e ↦ (
          err e,
          record {
            user = record_failure u now;
            deliveries = row u n false false (message e) ∷ o.deliveries;
            posted = urls;
          },
        )
        | ok was_sent ↦
            if was_sent
            then (
              ok tt,
              record {
                user = record_success u;
                deliveries = row u n true false "" ∷ o.deliveries;
                posted = urls;
              },
            )
            else (ok tt, record o { posted = urls })
      ]

-- Runs of the task one after another, retries among them: the time of each and its job.
unfoldable pub send_webhooks : Web → List (ℕ × Notice) → Outbox → Outbox
unfolding send_webhook
send_webhooks W [] o = o
send_webhooks W ((now, n) ∷ runs) o = send_webhooks W runs (send_webhook W now n o).1
