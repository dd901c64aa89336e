-- ===== src/Webhooks/Breaker.antt =====
-- The circuit breaker of the webhooks over sequences of tasks
-- (services/web/apps/webhook_deliveries/services.py, services/worker/tasks.py, `send_webhook`).
use tmask_tt.Base.{
  ℕ, ◌+◌, ◌≤◌, ◌<◌, ◌≡◌, ◌⊎◌, refl, inl, inr, String, true, false, some, List, [], ◌∷◌, arith,
  length,
}
use native.Mathlib.Decide.{dec_lt}
use tmask_tt.Worker.{Exn, err}
use tmask_tt.Accounts.{User}
use tmask_tt.Webhooks.{circuit_is_open, record_failure, cooldown}
use tmask_tt.Webhooks.Payload.{Payload}
use tmask_tt.Webhooks.Guard.{block_private_url}
use tmask_tt.Webhooks.Send.{
  Web, Notice, Outbox, send_webhook_notification, send_webhook, send_webhooks, is_wanted,
  payload_for,
}

-- A server that refuses every request.
abbrev pub IsDown : Web → Type 0
IsDown W = (now : ℕ) (url : String) (body : Payload) → (e : Exn) × (W.post now url body ≡ err e)

-- The runs at times from `start` on, before `start + cooldown`.
abbrev pub InWindow : ℕ → List (ℕ × Notice) → Type 0
InWindow start [] = Unit {0}
InWindow start ((now, n) ∷ runs) = (start ≤ now) × (now < start + cooldown) × InWindow start runs

-- Of at most five requests in the window, the fifth leaves the circuit open to its end; before, each
-- request has counted one failure.
abbrev Budget : ℕ → ℕ → Outbox → Type 0
Budget start before o =
    ((until : ℕ) × (o.user.webhook_circuit_open_until ≡ some until)
      × (start + cooldown ≤ until)
      × (length o.posted ≤ before + 5))
    ⊎ ((length o.posted ≤ before + o.user.webhook_failure_count) × (length o.posted ≤ before + 4))

record_failure_counts :
    (u : User) (now : ℕ)
    → (record_failure u now).webhook_failure_count ≡ u.webhook_failure_count + 1
unfolding record_failure
record_failure_counts u now = refl

record_failure_opens :
    (u : User) (now : ℕ)
    → 4 ≤ u.webhook_failure_count
    → (record_failure u now).webhook_circuit_open_until ≡ some (now + cooldown)
unfolding record_failure
record_failure_opens u now h = ground arith

record_failure-Budget :
    (start now before : ℕ) (o o' : Outbox) (url : String)
    → start ≤ now
    → length o.posted ≤ before + o.user.webhook_failure_count
    → length o.posted ≤ before + 4
    → o'.user ≡ record_failure o.user now
    → o'.posted ≡ url ∷ o.posted
    → Budget start before o'
record_failure-Budget start now before o o' url h few most same grown =
    elim (dec_lt o.user.webhook_failure_count 4) [
      | yes counting ↦
          inr (
            rw (same, grown, record_failure_counts o.user now) (omega arith),
            rw grown (omega arith),
          )
      | no opens ↦ inl (
        now + cooldown,
        rw same (record_failure_opens o.user now (omega arith)),
        omega arith,
        rw grown (omega arith),
      )
    ]

-- What a task does while the server is down: nothing to the owner's row and no request, or one
-- request that counts as a failure, and this only while the circuit is closed.
abbrev Refused : ℕ → Outbox → Outbox → Type 0
Refused now o o' =
    ((o'.user ≡ o.user) × (o'.posted ≡ o.posted))
    ⊎ ((circuit_is_open o.user now ≡ false)
        × (o'.user ≡ record_failure o.user now)
        × (o'.posted ≡ o.user.webhook_url ∷ o.posted))

send_webhook-Refused :
    (W : Web) (now : ℕ) (n : Notice) (o : Outbox)
    → IsDown W
    → Refused now o (send_webhook W now n o).1
unfolding send_webhook send_webhook_notification
send_webhook-Refused W now n o down =
    let (e, refused) = down now o.user.webhook_url (payload_for W n o.user.webhook_url) in
    ground arith

stays_open :
    (u : User) (now until : ℕ)
    → u.webhook_circuit_open_until ≡ some until
    → now < until
    → circuit_is_open u now ≡ true
unfolding circuit_is_open
stays_open u now until h l = ground arith

send_webhook-Budget :
    (W : Web) (start now before : ℕ) (n : Notice) (o : Outbox)
    → IsDown W
    → start ≤ now
    → now < start + cooldown
    → Budget start before o
    → Budget start before (send_webhook W now n o).1
send_webhook-Budget W start now before n o down h1 h2 b =
    elim (send_webhook-Refused W now n o down) [
      | inl (user, posted) ↦ rw (user, posted) b
      | inr (closed, user, posted) ↦ elim b [
        | inl (until, opened, late, most) ↦
            absurd (ground (arith, stays_open o.user now until opened (omega arith)))
        | inr (few, most) ↦
            record_failure-Budget start now before o (send_webhook W now n o).1 o.user.webhook_url
              h1 few most user posted
      ]
    ]

send_webhooks-Budget :
    (W : Web) (start before : ℕ) (runs : List (ℕ × Notice)) (o : Outbox)
    → IsDown W
    → InWindow start runs
    → Budget start before o
    → Budget start before (send_webhooks W runs o)
unfolding send_webhooks
send_webhooks-Budget W start before [] o down w b = b
send_webhooks-Budget W start before ((now, n) ∷ runs) o down (h1, h2, w) b =
    send_webhooks-Budget W start before runs _ down w
      (send_webhook-Budget W start now before n o down h1 h2 b)

-- While the server is down, the runs of the task within one cooldown, retries among them and in any
-- number, make at most five requests, whatever the owner's row was before.
pub send_webhooks_bound :
    (W : Web) (start : ℕ) (runs : List (ℕ × Notice)) (o : Outbox)
    → IsDown W
    → InWindow start runs
    → length (send_webhooks W runs o).posted ≤ length o.posted + 5
send_webhooks_bound W start runs o down w =
    elim (send_webhooks-Budget W start (length o.posted) runs o down w
      (inr (omega arith, omega arith))) [
        | inl (until, opened, late, most) ↦ most
        | inr (few, most) ↦ omega arith
      ]

-- A run posts to the owner's URL or to none, and only to a URL that the guard lets through while the
-- circuit is closed; one row at most joins the delivery log.
pub send_webhook_safe :
    (W : Web) (now : ℕ) (n : Notice) (o : Outbox)
    → let o' = (send_webhook W now n o).1 in
      ((o'.posted ≡ o.posted)
        ⊎ ((o'.posted ≡ o.user.webhook_url ∷ o.posted)
            × (block_private_url W.network o.user.webhook_url ≡ true)
            × (circuit_is_open o.user now ≡ false)
            × (is_wanted o.user n.job ≡ true)))
      × (length o'.deliveries ≤ length o.deliveries + 1)
unfolding send_webhook send_webhook_notification
send_webhook_safe W now n o = (ground arith, ground arith)
