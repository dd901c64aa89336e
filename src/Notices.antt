-- ===== src/Notices.antt =====
-- The e-mails and Telegram messages on a job (services/worker/notifications.py) and the tasks that send
-- them (services/worker/tasks.py, `send_notification`, `send_telegram`).
pub mod OptOut
use tmask_tt.Base.{
  ℕ, String, ◌<>◌, Bool, true, false, ◌&&◌, ◌||◌, not, Option, none, some, List, [], ◌∷◌, ◌++◌,
  truthy, if◌then◌else◌,
}
use tmask_tt.Base.Str.{show, join}
use tmask_tt.Worker.{Result, ok, err, Exn}
use tmask_tt.Transfers.{Job, Status}
use tmask_tt.Accounts.{User}
use tmask_tt.Webhooks.Payload.{status_text, status_upper, is_done, is_failed}

pub record Mail : Type 0 where
  pub subject : String
  pub plain : String
  pub sender : String
  pub recipients : List String
  pub html : String

-- A request to the Telegram API: its URL and the `json` of it.
pub record Telegram : Type 0 where
  pub url : String
  pub chat_id : String
  pub text : String
  pub parse_mode : String

-- What the functions call: `render_to_string`, `send_mail`, `requests.post` followed by
-- `raise_for_status`, each with what it raises, and the settings. `about` is what a template is given.
pub record Channels (About : Type 0) : Type 0 where
  pub render : String → About → Result String
  pub send_mail : Mail → Result (Unit {0})
  pub post : Telegram → Result (Unit {0})
  pub default_from_email : String
  pub telegram_bot_token : String

-- The last statement of a function that sends: `return True`, or what sending raised.
abbrev pub sent : Result (Unit {0}) → Result Bool
sent (ok done) = ok true
sent (err e) = err e

-- A message with its two bodies, `plain` first, sent where both can be rendered.
unfoldable pub mail_rendered :
    {About : Type 0}
    → Channels About
    → String
    → String
    → Result String
    → Result String
    → Result Bool × Option Mail
mail_rendered C to subject (err e) html = (err e, none)
mail_rendered C to subject (ok plain) (err e) = (err e, none)
mail_rendered C to subject (ok plain) (ok html) =
    let mail : Mail = record {
      subject = subject;
      plain = plain;
      sender = C.default_from_email;
      recipients = to ∷ [];
      html = html;
    } in
    (sent (C.send_mail mail), some mail)

-- The request to the Telegram API.
unfoldable pub post_telegram :
    {About : Type 0} → Channels About → String → String → Result Bool × Option Telegram
post_telegram C chat_id text =
    let message : Telegram = record {
      url = "https://api.telegram.org/bot" <> (C.telegram_bot_token <> "/sendMessage");
      chat_id = chat_id;
      text = text;
      parse_mode = "HTML";
    } in
    (sent (C.post message), some message)

-- The subject of `_render_notification`
unfoldable pub subject_of : Job → String
subject_of j =
    "[TMask] Transfer #"
    <> (show j.pk <> (" — " <> (if is_done j.status then "DONE" else "FAILED")))

-- `job.status == 'done' and not on_done`, `job.status == 'failed' and not on_failed`
abbrev pub is_muted : Bool → Bool → Job → Bool
is_muted on_done on_failed j =
    (is_done j.status && not on_done) || (is_failed j.status && not on_failed)

-- `send_email_notification`: its result, and the mail that it handed over.
unfoldable pub send_email_notification : Channels Job → User → Job → Result Bool × Option Mail
unfolding mail_rendered subject_of
send_email_notification C u j =
    if not (truthy u.email) || is_muted u.notify_on_done u.notify_on_failed j
    then (ok false, none)
    else mail_rendered C u.email (subject_of j)
        (C.render ("notifications/transfer_" <> (status_text j.status <> ".txt")) j)
        (C.render ("notifications/transfer_" <> (status_text j.status <> ".html")) j)

-- The lines of a Telegram message.
unfoldable pub telegram_text : Job → String
telegram_text j =
    let lines =
      ((if is_done j.status then "✅" else "❌")
        <> (" <b>Transfer #" <> (show j.pk <> (" — " <> (status_upper j.status <> "</b>")))))
      ∷ ("Plik: <code>" <> (j.source_path <> "</code>"))
      ∷ ("Cel: <code>" <> (j.destination_path <> "</code>"))
      ∷ [] in
    join "\n" (lines ++ (if truthy j.error_message then ("Błąd: " <> j.error_message) ∷ [] else []))

-- `send_telegram_notification`: its result, and the request that it made.
unfoldable pub send_telegram_notification :
    Channels Job → User → Job → Result Bool × Option Telegram
unfolding post_telegram telegram_text
send_telegram_notification C u j =
    if not (truthy u.telegram_chat_id) || is_muted u.telegram_on_done u.telegram_on_failed j
    then (ok false, none)
    else if not (truthy C.telegram_bot_token)
    then (ok false, none)
    else post_telegram C u.telegram_chat_id (telegram_text j)

abbrev pub ended : Result Bool → Result (Unit {0})
ended (ok sent) = ok tt
ended (err e) = err e

-- `send_notification` and `send_telegram` on a job that is found: an error is raised again as a retry.
unfoldable pub send_notification : Channels Job → User → Job → Result (Unit {0}) × Option Mail
unfolding send_email_notification
send_notification C u j = let (result, mail) = send_email_notification C u j in (ended result, mail)

unfoldable pub send_telegram : Channels Job → User → Job → Result (Unit {0}) × Option Telegram
unfolding send_telegram_notification
send_telegram C u j =
    let (result, message) = send_telegram_notification C u j in (ended result, message)
