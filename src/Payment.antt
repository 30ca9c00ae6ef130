-- ===== src/Payment.antt =====
-- src/payment/payment.service.ts: the call of the Payment Service with retries.
pub mod Service
pub mod Retries
pub mod Stepping
mod Examples
use Prim.Native.String.{◌++◌ as append}
use text.Mathlib.Text.{◌==◌ as str_eq}
use sky_high_core.Common.{
  ℕ, zero, suc, ◌-◌, ◌*◌, ◌^◌, String, Bool, true, false, Option, none, some, List, [], ◌∷◌,
  if◌then◌else◌, ltb,
}
use sky_high_core.Domain.Enums.{AuditAction}
use sky_high_core.Domain.Entities.{EntityType, AuditState, Metadata, AuditLog}
use sky_high_core.Domain.Errors.{Action, pure, ◌>>=◌, ◌>>◌}
use sky_high_core.Domain.Dtos.{Metric}
use sky_high_core.Platform.Backend.{Backend}
use sky_high_core.Platform.World.{World, now, observe, await}
use sky_high_core.Audit

pub record PaymentConfig : Type 0 where
  pub max_retries : ℕ
  pub initial_backoff_ms : ℕ

abbrev backoff_multiplier : ℕ
backoff_multiplier = 2

pub record PaymentRequest : Type 0 where
  pub passenger_id : ℕ
  pub amount : ℕ
  pub currency : String
  pub check_in_id : ℕ

pub record PaymentResult : Type 0 where
  pub success : Bool
  pub transaction_id : Option String
  pub status : String
  pub error_message : Option String

-- What one POST comes to: a response in time, or an error with its message.
pub data Reply : Type 0 where
  response : (transaction_id status : String) → Reply
  failure : (message : String) → Reply

-- The result, the number of POSTs, and the delays before retries, first to last.
pub record Calls : Type 0 where
  pub result : PaymentResult
  pub posts : ℕ
  pub delays : List ℕ

pub confirmed_result : String → String → PaymentResult
confirmed_result transaction_id status = record {
  success = true;
  transaction_id = some transaction_id;
  status = status;
  error_message = none;
}

pub refused_result : String → PaymentResult
refused_result status = record {
  success = false;
  transaction_id = none;
  status = status;
  error_message = some (append "Payment returned non-confirmed status: " status);
}

pub failed_result : Option String → PaymentResult
failed_result last_error = record {
  success = false;
  transaction_id = none;
  status = "failed";
  error_message = elim last_error [
    | none ↦ some "Payment failed after all retries"
    | some e ↦ some e
  ];
}

pub response_result : String → String → PaymentResult
unfolding confirmed_result refused_result
response_result transaction_id status =
    if str_eq status "confirmed"
    then confirmed_result transaction_id status
    else refused_result status

pub backoff_ms : PaymentConfig → ℕ → ℕ
backoff_ms c attempt = c.initial_backoff_ms * backoff_multiplier ^ (attempt - 1)

abbrev waited : PaymentConfig → ℕ → List ℕ → List ℕ
waited c attempt delays = if ltb 0 attempt then backoff_ms c attempt ∷ delays else delays

-- One POST, then what the rounds after it come to.
abbrev add_round : PaymentConfig → ℕ → Calls → Calls
add_round c attempt rest = record rest {
  posts = suc rest.posts;
  delays = waited c attempt rest.delays;
}

-- The loop from `attempt` on, with `left` attempts to go. `reply n` is what attempt n meets.
pub attempts_from : PaymentConfig → (ℕ → Reply) → ℕ → ℕ → Option String → Calls
unfolding failed_result response_result
attempts_from c reply zero attempt last_error = record {
  result = failed_result last_error;
  posts = 0;
  delays = [];
}
attempts_from c reply (suc left) attempt last_error = elim (reply attempt) [
  | response transaction_id status ↦
      add_round c attempt
        (record { result = response_result transaction_id status; posts = 0; delays = [] })
  | failure message ↦ add_round c attempt (attempts_from c reply left (suc attempt) (some message))
]

pub call_payment_service_with_retry : PaymentConfig → (ℕ → Reply) → Calls
unfolding attempts_from
call_payment_service_with_retry c reply = attempts_from c reply (suc c.max_retries) 0 none

pub requested_row : PaymentRequest → AuditLog
requested_row r = record {
  entity_type = EntityType.payment;
  entity_id = r.check_in_id;
  action = AuditAction.payment_requested;
  from_state = none;
  to_state = AuditState.requested;
  actor_id = r.passenger_id;
  metadata = Metadata.charge r.amount r.currency;
}

pub confirmed_row : PaymentRequest → Option String → AuditLog
confirmed_row r transaction_id = record {
  entity_type = EntityType.payment;
  entity_id = r.check_in_id;
  action = AuditAction.payment_confirmed;
  from_state = some AuditState.requested;
  to_state = AuditState.confirmed;
  actor_id = r.passenger_id;
  metadata = Metadata.receipt r.amount r.currency transaction_id;
}

module _ {be : Backend} where
  -- `meanwhile` is what happens while the call is under way.
  pub process_payment :
      PaymentConfig
      → (World be → World be)
      → (ℕ → Reply)
      → PaymentRequest
      → Action (World be) PaymentResult
  process_payment c meanwhile reply r = do
    Audit.log (requested_row r)
    start ← now
    await meanwhile
    let result = (call_payment_service_with_retry c reply).result
    end ← now
    observe (Metric.payment_duration result.status (end - start))
    if result.success then Audit.log (confirmed_row r result.transaction_id) else pure tt
    pure result
