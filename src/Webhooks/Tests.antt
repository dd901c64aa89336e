-- ===== src/Webhooks/Tests.antt =====
-- The webhooks of one user with a server that refuses every request.
use tmask_tt.Base.{
  ◌+◌, ◌≡◌, ◌≤◌, ◌⊎◌, inr, refl, Bool, true, false, Option, none, some, [], ◌∷◌, arith, length,
  str_eq,
}
use tmask_tt.Worker.{transfer_error, err}
use tmask_tt.Accounts.{User, operator}
use tmask_tt.Transfers.{done}
use tmask_tt.Webhooks.{circuit_is_open}
use tmask_tt.Webhooks.Guard.{
  Address, is_blocked, Network, v4, ipv4, IsInternal, is_private, block_private_url,
  block_private_url_external,
}
use tmask_tt.Webhooks.Payload.{by_flow}
use tmask_tt.Webhooks.Send.{Web, Notice, Outbox, is_wanted, send_webhook, send_webhooks}
use tmask_tt.Webhooks.Breaker.{send_webhooks_bound, send_webhook_safe}

abbrev network : Network
network = record {
  scheme = λ url. "https";
  hostname = λ url. some "example.org";
  lower = λ host. host;
  ip_address = λ text. if_address (str_eq text "8.8.8.8");
  gethostbyname = λ host. some "8.8.8.8";
}
  where
    if_address : Bool → Option Address
    if_address true = some (v4 (ipv4 8 8 8 8))
    if_address false = none

abbrev web : Web
web = record {
  network = network;
  post = λ now url body. err (transfer_error "refused");
  strftime = λ t. "";
}

abbrev owner : User
owner = record {
  pk = 1;
  username = "ann";
  email = "";
  role = operator;
  notify_on_done = false;
  notify_on_failed = true;
  webhook_url = "https://example.org/hook";
  webhook_on_done = true;
  webhook_on_failed = true;
  telegram_chat_id = "";
  telegram_on_done = false;
  telegram_on_failed = true;
  totp_secret = "";
  totp_enabled = false;
  failed_login_attempts = 0;
  locked_until = none;
  webhook_failure_count = 4;
  webhook_circuit_open_until = none;
}

abbrev notice : Notice
notice = record {
  job = record {
    pk = 7;
    owner = 1;
    connection = none;
    flow = some 3;
    source_path = "/data/a";
    destination_path = "/b";
    status = done;
    celery_task_id = "";
    created_at = 1;
    started_at = some 1;
    finished_at = some 2;
    error_message = "";
    cancelled_by = none;
    progress_percent = some 100;
  };
  target = by_flow "nightly";
}

abbrev outbox : Outbox
outbox = record { user = owner; deliveries = []; posted = [] }

block_private_url_external_example : ¬ IsInternal (ipv4 8 8 8 8)
unfolding block_private_url is_private is_blocked
block_private_url_external_example =
    block_private_url_external network "https://example.org/hook" "example.org" "8.8.8.8"
      (ipv4 8 8 8 8) refl refl (inr refl) refl

send_webhooks_bound_example :
    length (send_webhooks web ((10, notice) ∷ (20, notice) ∷ []) outbox).posted ≤ 0 + 5
send_webhooks_bound_example =
    send_webhooks_bound web 10 ((10, notice) ∷ (20, notice) ∷ []) outbox
      (λ now url body. (transfer_error "refused", refl))
      (omega arith, omega arith, (omega arith, omega arith, tt))

send_webhook_safe_example :
    let o = (send_webhook web 10 notice outbox).1 in
    ((o.posted ≡ [])
      ⊎ ((o.posted ≡ "https://example.org/hook" ∷ [])
          × (block_private_url network "https://example.org/hook" ≡ true)
          × (circuit_is_open owner 10 ≡ false)
          × (is_wanted owner notice.job ≡ true)))
    × (length o.deliveries ≤ 0 + 1)
send_webhook_safe_example = send_webhook_safe web 10 notice outbox
