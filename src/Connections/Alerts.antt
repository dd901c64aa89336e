-- ===== src/Connections/Alerts.antt =====
-- What an owner is told of the health of a connection (services/worker/notifications.py,
-- `send_connection_health_…`) and the task (services/worker/tasks.py, `send_health_notification`).
use tmask_tt.Base.{
  ℕ, String, ◌<>◌, Bool, true, false, ◌&&◌, ◌||◌, not, Option, none, some, List, [], ◌∷◌, ◌++◌,
  truthy, if◌then◌else◌,
}
use tmask_tt.Base.Str.{show, join, has_part}
use tmask_tt.Worker.{Result, ok, err, message}
use tmask_tt.Worker.Params.{none_if_empty}
use tmask_tt.Accounts.{User}
use tmask_tt.Webhooks.{
  Delivery, circuit_is_open, record_success, record_failure, circuit_skipped_message,
}
use tmask_tt.Webhooks.Guard.{Network, block_private_url}
use tmask_tt.Notices.{Channels, Mail, Telegram, mail_rendered, post_telegram, sent}
use tmask_tt.Connections.{Connection, HealthStatus, unknown, healthy, unhealthy}

-- `status == 'ok'`, `status == 'failed'`
abbrev is_ok : HealthStatus → Bool
is_ok healthy = true
is_ok unhealthy = false
is_ok unknown = false

abbrev is_failure : HealthStatus → Bool
is_failure unhealthy = true
is_failure healthy = false
is_failure unknown = false

abbrev status_value : HealthStatus → String
status_value unknown = "unknown"
status_value healthy = "ok"
status_value unhealthy = "failed"

abbrev label : HealthStatus → String
label status = if is_ok status then "RECOVERED" else "FAILED"

abbrev template : HealthStatus → String
template status = if is_ok status then "connection_health_recovered" else "connection_health_failed"

-- `_render_connection_health_notification` and `send_connection_health_email`
unfoldable pub send_health_email :
    Channels Connection → User → Connection → HealthStatus → Result Bool × Option Mail
unfolding mail_rendered
send_health_email C u c status =
    if not (truthy u.email) || not u.notify_on_failed
    then (ok false, none)
    else mail_rendered C u.email
        ("[TMask] Connection " <> (c.name <> (" — HEALTH " <> label status)))
        (C.render ("notifications/" <> (template status <> ".txt")) c)
        (C.render ("notifications/" <> (template status <> ".html")) c)

-- The line on the error, where there is one.
abbrev error_lines : Connection → HealthStatus → List String
error_lines c status =
    if is_failure status && truthy c.health_error then ("Błąd: " <> c.health_error) ∷ [] else []

unfoldable pub health_telegram_text : Connection → HealthStatus → String
health_telegram_text c status =
    let lines =
      ((if is_ok status then "✅" else "🔴")
        <> (" <b>Connection " <> (c.name <> (" — HEALTH " <> (label status <> "</b>")))))
      ∷ ("Host: <code>" <> (c.host <> (":" <> (show c.port <> "</code>"))))
      ∷ [] in
    join "\n" (lines ++ error_lines c status)

-- `send_connection_health_telegram`
unfoldable pub send_health_telegram :
    Channels Connection → User → Connection → HealthStatus → Result Bool × Option Telegram
unfolding post_telegram health_telegram_text
send_health_telegram C u c status =
    if not (truthy u.telegram_chat_id) || not u.telegram_on_failed
    then (ok false, none)
    else if not (truthy C.telegram_bot_token)
    then (ok false, none)
    else post_telegram C u.telegram_chat_id (health_telegram_text c status)

-- The body of a request: the dictionary of `_build_connection_health_payload` or a text for Slack.
pub data HealthPayload : Type 0 where
  health_fields :
      (connection_id : ℕ) (connection_name status host : String) (port : ℕ) (error : Option String)
      → HealthPayload
  health_slack : (text : String) → HealthPayload

unfoldable pub build_health_payload : Connection → HealthStatus → HealthPayload
build_health_payload c status =
    health_fields c.pk c.name (status_value status) c.host c.port (none_if_empty c.health_error)

unfoldable pub build_health_slack_payload : Connection → HealthStatus → HealthPayload
build_health_slack_payload c status =
    let text =
      (if is_ok status then ":white_check_mark:" else ":x:")
      <> (" *Connection "
          <> (c.name
              <> (" — HEALTH "
                  <> (label status
                      <> ("*\nHost: `" <> (c.host <> (":" <> (show c.port <> "`")))))))) in
    health_slack (
      if is_failure status && truthy c.health_error
      then text <> ("\nBłąd: " <> c.health_error)
      else text)

-- The network, and what `requests.post` followed by `raise_for_status` raises.
pub record HealthWeb : Type 0 where
  pub network : Network
  pub post : String → HealthPayload → Result (Unit {0})

-- `send_connection_health_webhook`: its result, and the URL that it posted to.
unfoldable pub send_health_webhook :
    HealthWeb → User → Connection → HealthStatus → Result Bool × Option String
unfolding build_health_payload build_health_slack_payload
send_health_webhook W u c status =
    if not (truthy u.webhook_url) || not u.webhook_on_failed
    then (ok false, none)
    else if not (block_private_url W.network u.webhook_url)
    then (ok false, none)
    else (
      sent (
          W.post u.webhook_url (
            if has_part "hooks.slack.com" u.webhook_url
            then build_health_slack_payload c status
            else build_health_payload c status)),
      some u.webhook_url,
    )

-- The row of the owner, the rows of the delivery log (the last one first), and what went out.
pub record Told : Type 0 where
  pub user : User
  pub deliveries : List Delivery
  pub mail : Option Mail
  pub telegram : Option Telegram
  pub posted : Option String

abbrev row : User → Bool → Bool → String → Delivery
row u success skipped text = record {
  user = u.pk;
  job = none;
  url = u.webhook_url;
  success = success;
  skipped = skipped;
  error_message = text;
}

-- The record of a webhook, by how it ended.
unfoldable pub record_webhook : ℕ → Result Bool → Told → Told
record_webhook now (err e) t = record t {
  user = record_failure t.user now;
  deliveries = row t.user false false (message e) ∷ t.deliveries;
}
record_webhook now (ok true) t = record t {
  user = record_success t.user;
  deliveries = row t.user true false "" ∷ t.deliveries;
}
record_webhook now (ok false) t = t

-- The part of the task behind the two messages.
unfoldable pub tell_by_webhook : HealthWeb → ℕ → Connection → HealthStatus → Told → Told
unfolding send_health_webhook record_webhook
tell_by_webhook W now c status t =
    if not (truthy t.user.webhook_url)
    then t
    else if circuit_is_open t.user now
    then record t { deliveries = row t.user false true circuit_skipped_message ∷ t.deliveries }
    else let (result, posted) = send_health_webhook W t.user c status in
      record_webhook now result (record t { posted = posted })

-- `send_health_notification` on a connection that is found: an error of a message ends the task.
unfoldable pub send_health_notification :
    Channels Connection
    → HealthWeb
    → ℕ
    → Connection
    → HealthStatus
    → User
    → List Delivery
    → Result (Unit {0}) × Told
unfolding send_health_email send_health_telegram tell_by_webhook
send_health_notification C W now c status u deliveries =
    let (mailed, mail) = send_health_email C u c status in
    let (messaged, telegram) = send_health_telegram C u c status in
    let silent : Told = record {
      user = u;
      deliveries = deliveries;
      mail = mail;
      telegram = none;
      posted = none;
    } in
    elim mailed [
      | err e ↦ (err e, silent)
      | ok _ ↦ elim messaged [
        | err e ↦ (err e, record silent { telegram = telegram })
        | ok _ ↦ (ok tt, tell_by_webhook W now c status (record silent { telegram = telegram }))
      ]
    ]
