-- ===== src/Webhooks.antt =====
-- The webhook of a user: the delivery log (services/web/apps/webhook_deliveries/models.py) and the
-- circuit breaker (services/web/apps/webhook_deliveries/services.py).
pub mod Guard
pub mod Payload
pub mod Send
pub mod Breaker
mod Tests
use tmask_tt.Base.{
  ℕ, ◌+◌, String, Bool, true, false, ◌||◌, not, Option, none, some, leb, ◌==◌, is_some,
  if◌then◌else◌,
}
use tmask_tt.Accounts.{User, minutes}
use tmask_tt.Accounts.Lockout.{is_later}

-- `WebhookDeliveryLog`
pub record Delivery : Type 0 where
  pub user : ℕ
  pub job : Option ℕ
  pub url : String
  pub success : Bool
  pub skipped : Bool
  pub error_message : String

-- WEBHOOK_CIRCUIT_THRESHOLD, WEBHOOK_CIRCUIT_COOLDOWN_MINUTES, CIRCUIT_SKIPPED_MESSAGE
abbrev pub circuit_threshold : ℕ
circuit_threshold = 5

abbrev pub cooldown_minutes : ℕ
cooldown_minutes = 15

abbrev pub cooldown : ℕ
cooldown = minutes cooldown_minutes

abbrev pub circuit_skipped_message : String
circuit_skipped_message = "Circuit breaker otwarty — dostarczenie pominięte"

unfoldable pub circuit_is_open : User → ℕ → Bool
circuit_is_open u now = is_later u.webhook_circuit_open_until now

unfoldable pub record_success : User → User
record_success u =
    if not (u.webhook_failure_count == 0) || is_some u.webhook_circuit_open_until
    then record u { webhook_failure_count = 0; webhook_circuit_open_until = none }
    else u

unfoldable pub record_failure : User → ℕ → User
record_failure u now =
    let n = u.webhook_failure_count + 1 in
    record u {
      webhook_failure_count = n;
      webhook_circuit_open_until =
          if leb circuit_threshold n then some (now + cooldown) else u.webhook_circuit_open_until;
    }
