-- ===== src/Webhooks/Payload.antt =====
-- The text of a webhook (services/worker/notifications.py, `_build_webhook_payload`,
-- `_build_slack_payload`).
use tmask_tt.Base.{ℕ, String, ◌<>◌, Bool, true, false, Option, none, some, truthy, if◌then◌else◌}
use tmask_tt.Base.Str.{show}
use tmask_tt.Worker.Params.{none_if_empty}
use tmask_tt.Transfers.{Job, Status, pending, running, done, failed, cancelled}

-- PROTOCOL_SFTP, PROTOCOL_RSYNC
pub data Protocol : Type 0 where
  sftp rsync : Protocol

-- What `job.connection` and `job.flow` point to.
pub data Target : Type 0 where
  by_connection : String → Protocol → Target
  by_flow : String → Target
  by_none : Target

-- `status` and `status.upper()`
abbrev pub status_text : Status → String
status_text pending = "pending"
status_text running = "running"
status_text done = "done"
status_text failed = "failed"
status_text cancelled = "cancelled"

abbrev pub status_upper : Status → String
status_upper pending = "PENDING"
status_upper running = "RUNNING"
status_upper done = "DONE"
status_upper failed = "FAILED"
status_upper cancelled = "CANCELLED"

abbrev pub is_done : Status → Bool
is_done done = true
is_done _ = false

abbrev pub is_failed : Status → Bool
is_failed failed = true
is_failed _ = false

abbrev protocol_upper : Protocol → String
protocol_upper sftp = "SFTP"
protocol_upper rsync = "RSYNC"

abbrev pub connection_label : Target → String
connection_label (by_connection name protocol) = name <> (" (" <> (protocol_upper protocol <> ")"))
connection_label (by_flow name) = "RELAY: " <> name
connection_label by_none = "—"

-- The body of a request: the dictionary of `_build_webhook_payload` or the text for Slack.
pub data Payload : Type 0 where
  fields :
      (job_id : ℕ) (status source_path destination_path connection : String)
      (started_at finished_at error : Option String)
      → Payload
  slack : (text : String) → Payload

-- `fmt_dt`, by the `strftime` of a time.
abbrev fmt_dt : (ℕ → String) → Option ℕ → Option String
fmt_dt strftime none = none
fmt_dt strftime (some t) = some (strftime t)

unfoldable pub build_webhook_payload : (ℕ → String) → Target → Job → Payload
build_webhook_payload strftime target j =
    fields j.pk (status_text j.status) j.source_path j.destination_path (connection_label target)
      (fmt_dt strftime j.started_at) (fmt_dt strftime j.finished_at) (none_if_empty j.error_message)

unfoldable pub build_slack_payload : Job → Payload
build_slack_payload j =
    let icon = if is_done j.status then ":white_check_mark:" else ":x:" in
    let text =
      icon
      <> (" *Transfer #"
          <> (show j.pk
              <> (" — "
                  <> (status_upper j.status
                      <> ("*\nPlik: `"
                          <> (j.source_path <> ("`\nCel: `" <> (j.destination_path <> "`")))))))) in
    slack (if truthy j.error_message then text <> ("\nBłąd: " <> j.error_message) else text)
