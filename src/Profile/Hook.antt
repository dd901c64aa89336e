-- ===== src/Profile/Hook.antt =====
-- The settings of a user and the test of a webhook (services/web/apps/accounts/views.py, `profile_view`,
-- `test_webhook`; accounts/forms.py, `ProfileForm`), with the web application's own copy of the guard
-- (services/web/utils/url_validator.py).
use tmask_tt.Base.{
  ℕ, ◌≡◌, refl, inl, inr, String, ◌<>◌, Bool, true, false, ◌||◌, ◌&&◌, not, Option, none, some,
  List, arith, ◌==◌, Option-cases, is_some, str_eq, truthy, if◌then◌else◌,
}
use mathlib.Core.Option
use tmask_tt.Accounts.Roles.LastAdmin.{find_user-save_user}
use tmask_tt.Base.Str.{strip, has_part, show}
use tmask_tt.Base.Text.{Text}
use tmask_tt.Accounts.{User, find_user, save_user}
use tmask_tt.Webhooks.Guard.{Network, given, is_private, resolves_private, block_private_url}
use tmask_tt.Webhooks.Payload.{Payload, fields, slack}

-- _ERR_PRIVATE
abbrev pub err_private : String
err_private = "Połączenia do adresów wewnętrznych są niedozwolone."

-- `block_private_url`: the text of the `ValueError` that it raises.
unfoldable pub private_url_error : Network → String → Option String
private_url_error N url =
    let host = given (N.hostname url) in
    if not (str_eq (N.scheme url) "http" || str_eq (N.scheme url) "https")
    then some "Dozwolone są tylko adresy http:// i https://."
    else if not (truthy host)
    then some "Brak nazwy hosta w URL."
    else if str_eq (N.lower host) "localhost"
    then some err_private
    else if is_private N host
    then some err_private
    else if resolves_private N host
    then some err_private
    else none

-- What `requests.post` and `raise_for_status` end with: a status code or a `RequestException`.
pub data PostResult : Type 0 where
  answered : (status : ℕ) → PostResult
  request_error : String → PostResult

pub record HookResult : Type 0 where
  pub ok : Bool
  pub message : String

abbrev refused_with : String → HookResult
refused_with text = record { ok = false; message = text }

-- The body of the test.
unfoldable pub test_payload : String → Payload
unfolding has_part
test_payload url =
    if has_part "hooks.slack.com" url
    then slack ":white_check_mark: *TMask Transporter* — test powiadomienia Slack"
    else fields 0 "test" "/test/source" "/test/destination" "TEST" none none none

abbrev hook_result : PostResult → HookResult
hook_result (answered status) = record {
  ok = true;
  message = "WEBHOOK OK (" <> (show status <> ")");
}
hook_result (request_error m) = refused_with m

-- `test_webhook` of the text that was posted: the result that is shown, and the URL that it posts to.
unfoldable pub test_webhook :
    Network → (String → Payload → PostResult) → String → HookResult × Option String
unfolding private_url_error test_payload strip
test_webhook N post raw =
    let url = strip raw in
    if not (truthy url) then (refused_with "Brak URL", none) else elim (private_url_error N url) [
      | some text ↦ (refused_with text, none)
      | none ↦ (hook_result (post url (test_payload url)), some url)
    ]

-- The fields of `ProfileForm`.
pub record Settings : Type 0 where
  pub email : String
  pub notify_on_done : Bool
  pub notify_on_failed : Bool
  pub webhook_url : String
  pub webhook_on_done : Bool
  pub webhook_on_failed : Bool
  pub telegram_chat_id : String
  pub telegram_on_done : Bool
  pub telegram_on_failed : Bool

-- `clean_webhook_url`: the URL, or none where it raises `ValidationError`.
unfoldable pub clean_webhook_url : Network → String → Option String
unfolding private_url_error strip
clean_webhook_url N raw =
    let url = strip raw in
    if truthy url && is_some (private_url_error N url) then none else some url

-- `form.save()`
unfoldable pub write_settings : Settings → String → User → User
write_settings f url u = record u {
  email = f.email;
  notify_on_done = f.notify_on_done;
  notify_on_failed = f.notify_on_failed;
  webhook_url = url;
  webhook_on_done = f.webhook_on_done;
  webhook_on_failed = f.webhook_on_failed;
  telegram_chat_id = f.telegram_chat_id;
  telegram_on_done = f.telegram_on_done;
  telegram_on_failed = f.telegram_on_failed;
}

-- A request: a post with what Django's own checks of the fields say of it.
pub data ProfileRequest : Type 0 where
  get : ProfileRequest
  post : (fields_are_valid : Bool) → Settings → ProfileRequest

pub data ProfileAnswer : Type 0 where
  -- 'Ustawienia zapisane.'
  saved : ProfileAnswer
  -- the page, with a new token that is shown once
  page : (new_token : Option Text) → ProfileAnswer

pub record ProfileState : Type 0 where
  pub users : List User
  pub new_api_token : Option Text

-- `profile_view` of the user with this key.
unfoldable pub profile_view :
    Network → ℕ → ProfileRequest → ProfileState → ProfileAnswer × ProfileState
unfolding clean_webhook_url write_settings save_user
profile_view N k get s = (page s.new_api_token, record s { new_api_token = none })
profile_view N k (post true f) s = elim (clean_webhook_url N f.webhook_url) [
  | some url ↦ (saved, record s { users = save_user (write_settings f url) k s.users })
  | none ↦ (page none, s)
]
profile_view N k (post false f) s = (page none, s)

-- The guard of the web application lets a URL through exactly where that of the worker does.
pub private_url_error-block_private_url :
    (N : Network) (url : String) → is_some (private_url_error N url) ≡ not (block_private_url N url)
unfolding private_url_error block_private_url
private_url_error-block_private_url N url = ground arith

clean_webhook_url-block_private_url :
    (N : Network) (raw url : String)
    → clean_webhook_url N raw ≡ some url
    → truthy url ≡ true
    → block_private_url N url ≡ true
unfolding clean_webhook_url
clean_webhook_url-block_private_url N raw url h given = ground (
  arith,
  private_url_error-block_private_url N (strip raw),
  private_url_error-block_private_url N url,
)

-- Settings that are answered as saved are those of the form, and the URL that the worker will post to is
-- empty or one that its guard lets through at that time; the other users stay as they were.
pub profile_view_saved :
    (N : Network) (j k : ℕ) (valid : Bool) (f : Settings) (s : ProfileState)
    → (profile_view N k (post valid f) s).0 ≡ saved
    → (url : String) × (truthy url ≡ true → block_private_url N url ≡ true)
      × (find_user j (profile_view N k (post valid f) s).1.users ≡ (
          if j == k
          then Option.map (write_settings f url) (find_user k s.users)
          else find_user j s.users))
unfolding profile_view
profile_view_saved N j k false f s h = cc
profile_view_saved N j k true f s h = elim (Option-cases (clean_webhook_url N f.webhook_url)) [
  | inl bad ↦ cc (h, bad)
  | inr (url, clean) ↦
      rw (clean, profile_view)
        (
          url,
          clean_webhook_url-block_private_url N f.webhook_url url clean,
          find_user-save_user (write_settings f url) j k s.users (λ u. refl),
        )
]

-- The test of a webhook posts to no URL, or to one that the guard of the worker lets through.
pub test_webhook_guarded :
    (N : Network) (send : String → Payload → PostResult) (raw url : String)
    → (test_webhook N send raw).1 ≡ some url
    → block_private_url N url ≡ true
unfolding test_webhook
test_webhook_guarded N send raw url h =
    ground (arith, private_url_error-block_private_url N (strip raw))
