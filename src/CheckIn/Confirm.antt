-- ===== src/CheckIn/Confirm.antt =====
-- `confirmCheckIn`, with the fee for excess baggage.
pub mod Effects
pub mod Charging
pub mod Branches
pub mod Foreign
pub mod Bypass
pub mod Stepping
mod Examples
use sky_high_core.Common.{ℕ, ◌-◌, String, Option, none, some, not, ◌==◌, if◌then◌else◌}
use sky_high_core.Domain.Enums.{SeatStatus, CheckInStatus, AuditAction, is_holding}
use sky_high_core.Domain.Entities.{Seat, CheckIn, EntityType, AuditState, Metadata, AuditLog}
use sky_high_core.Domain.Errors.{
  Action, domain, hold_expired, numeric_overflow, pure, modify, ◌>>=◌, ◌>>◌,
}
use sky_high_core.Domain.Dtos.{CheckInResponse, Message, RedisKey, Metric, Stage}
use sky_high_core.Platform.Backend.{Backend, Database, Tables}
use sky_high_core.Platform.World.{World, or_throw, throw_if, now, await, observe, in_transaction}
use sky_high_core.Redis
use sky_high_core.Audit
use sky_high_core.Baggage.{BaggageConfig, calculate_fee}
use sky_high_core.Payment.{PaymentConfig, PaymentResult, Reply, process_payment}
use sky_high_core.CheckIn.Steps.{
  to_check_in_response, calculate_hold_expires_at, find_check_in_or_throw, find_one_or_fail,
  forget_hold,
}

pub confirmed_row : CheckIn → ℕ → AuditLog
confirmed_row check_in seat_id = record {
  entity_type = EntityType.seat;
  entity_id = seat_id;
  action = AuditAction.seat_confirmed;
  from_state = some (AuditState.of_seat SeatStatus.held);
  to_state = AuditState.of_seat SeatStatus.confirmed;
  actor_id = check_in.passenger_id;
  metadata = Metadata.confirmation check_in.flight_id check_in.id;
}

pub completed_row : CheckIn → Option String → AuditLog
completed_row check_in payment_id = record {
  entity_type = EntityType.check_in;
  entity_id = check_in.id;
  action = AuditAction.checkin_completed;
  from_state = some (AuditState.of_check_in check_in.status);
  to_state = AuditState.of_check_in CheckInStatus.completed;
  actor_id = check_in.passenger_id;
  metadata = Metadata.completion check_in.flight_id payment_id;
}

abbrev pub completed : ℕ → Option String → CheckIn → CheckIn
completed weight payment_id c = record c {
  status = CheckInStatus.completed;
  baggage_weight = some weight;
  payment_id = payment_id;
}

abbrev pub confirmed : Seat → Seat
confirmed s = record s { status = SeatStatus.confirmed }

abbrev pub awaiting_payment : ℕ → ℕ → CheckIn → CheckIn
awaiting_payment weight fee c = record c {
  status = CheckInStatus.awaiting_payment;
  baggage_weight = some weight;
  excess_fee = some fee;
}

-- `dto.baggageWeight ?? 0`
abbrev pub declared : Option ℕ → ℕ
declared none = 0
declared (some weight) = weight

module _ {db : Database} where
  -- `if (seatId)`: the seat is confirmed whatever its status and holder.
  pub confirm_seat : CheckIn → Option ℕ → Action (Tables db) (Unit {0})
  confirm_seat check_in none = pure tt
  confirm_seat check_in (some seat_id) = do
    modify λ t. record t { seats = db.seat_rows.update (λ s. s.id == seat_id) confirmed t.seats }
    Audit.log_with_transaction (confirmed_row check_in seat_id)
    pure tt

  -- `weight` is the declared weight as its column takes it, or an overflow.
  pub complete_transaction : CheckIn → Option ℕ → Option String → Action (Tables db) (Unit {0})
  unfolding confirm_seat
  complete_transaction check_in weight payment_id = do
    confirm_seat check_in check_in.seat_id
    numeral ← or_throw numeric_overflow weight
    modify λ t. record t {
      check_ins =
          db.check_in_rows.update (λ c. c.id == check_in.id) (completed numeral payment_id)
            t.check_ins;
    }
    Audit.log_with_transaction (completed_row check_in payment_id)
    pure tt

module _ {be : Backend} where
  pub complete_check_in : CheckIn → ℕ → Option String → Action (World be) CheckInResponse
  complete_check_in check_in baggage_weight payment_id = do
    confirmed_at ← now
    in_transaction (complete_transaction check_in (be.to_weight baggage_weight) payment_id)
    forget_hold check_in.seat_id check_in.flight_id
    completed_check_in ← find_one_or_fail check_in.id
    let duration = confirmed_at - check_in.created_at
    observe (Metric.seat_hold_duration check_in.flight_id duration)
    observe (Metric.checkin_duration check_in.flight_id Stage.completed duration)
    pure (to_check_in_response completed_check_in none (some confirmed_at) none)

  abbrev validate_hold_key : Option ℕ → Action (World be) (Unit {0})
  validate_hold_key none = pure tt
  validate_hold_key (some seat_id) = do
    hold_exists ← Redis.exists (RedisKey.seat_hold seat_id)
    throw_if (not hold_exists) (domain hold_expired)

  pub validate_hold_not_expired : CheckIn → Action (World be) (Unit {0})
  validate_hold_not_expired check_in = do
    throw_if (not (is_holding check_in.status)) (domain hold_expired)
    validate_hold_key check_in.seat_id

  -- `checkInRepository.update({ id }, { status: AWAITING_PAYMENT, … })`
  pub await_payment : ℕ → ℕ → ℕ → Action (World be) (Unit {0})
  await_payment check_in_id baggage_weight excess_fee = do
    weight ← or_throw numeric_overflow (be.to_weight baggage_weight)
    fee ← or_throw numeric_overflow (be.to_fee excess_fee)
    modify λ w. record w {
      tables = record w.tables {
        check_ins =
            be.check_in_rows.update (λ c. c.id == check_in_id) (awaiting_payment weight fee)
              w.check_ins;
      };
    }

  abbrev after_payment : CheckIn → ℕ → ℕ → PaymentResult → Action (World be) CheckInResponse
  after_payment check_in baggage_weight excess_fee payment =
      if payment.success
      then complete_check_in
          (record check_in { baggage_weight = some baggage_weight; excess_fee = some excess_fee })
          baggage_weight payment.transaction_id
      else do
        updated_check_in ← find_one_or_fail check_in.id
        pure (
            to_check_in_response updated_check_in (calculate_hold_expires_at updated_check_in) none
              (some (Message.fee_must_be_paid excess_fee)))

  pub handle_excess_baggage :
      PaymentConfig
      → (World be → World be)
      → (ℕ → Reply)
      → CheckIn
      → ℕ
      → ℕ
      → Action (World be) CheckInResponse
  handle_excess_baggage payments meanwhile reply check_in baggage_weight excess_fee = do
    await_payment check_in.id baggage_weight excess_fee
    payment ← process_payment payments meanwhile reply (record {
      passenger_id = check_in.passenger_id;
      amount = excess_fee;
      currency = "USD";
      check_in_id = check_in.id;
    })
    after_payment check_in baggage_weight excess_fee payment

  -- The rest of `confirmCheckIn`, once the hold was validated. The reply of the Weight Service is
  -- only logged, so it is no part of the state.
  pub decide_baggage :
      BaggageConfig
      → PaymentConfig
      → (World be → World be)
      → (ℕ → Reply)
      → CheckIn
      → ℕ
      → Action (World be) CheckInResponse
  decide_baggage baggage payments meanwhile reply check_in weight =
      let fee = calculate_fee baggage weight in
      if fee.is_overweight
      then handle_excess_baggage payments meanwhile reply check_in weight fee.excess_fee
      else complete_check_in check_in weight none

  -- `weighing` and `meanwhile` are what others do during the call of the Weight Service and during
  -- the payment, and `reply` is what the Payment Service answers.
  pub confirm_check_in :
      BaggageConfig
      → PaymentConfig
      → (World be → World be)
      → (World be → World be)
      → (ℕ → Reply)
      → ℕ
      → ℕ
      → Option ℕ
      → Action (World be) CheckInResponse
  confirm_check_in baggage payments weighing meanwhile reply check_in_id passenger_id
        baggage_weight =
      do
        check_in ← find_check_in_or_throw check_in_id passenger_id
        validate_hold_not_expired check_in
        await weighing
        decide_baggage baggage payments meanwhile reply check_in (declared baggage_weight)
