-- ===== src/CheckIn/Cancel.antt =====
-- `cancelCheckIn`: the seat is released and the check-in cancelled.
pub mod Effects
pub mod Endings
pub mod Stale
pub mod Stepping
mod Examples
use sky_high_core.Common.{ℕ, Option, none, some, Bool, false, ◌==◌, if◌then◌else◌}
use sky_high_core.Domain.Enums.{SeatStatus, CheckInStatus, AuditAction, is_completed, is_departed}
use sky_high_core.Domain.Entities.{
  CheckIn, Seat, Flight, EntityType, AuditState, Metadata, AuditLog,
}
use sky_high_core.Domain.Errors.{
  Action, domain, cancellation_not_allowed, pure, gets, modify, ◌>>=◌, ◌>>◌,
}
use sky_high_core.Domain.Dtos.{CheckInCancelledResponse, Event}
use sky_high_core.Platform.Backend.{Backend, Database, Tables}
use sky_high_core.Platform.World.{World, throw_if, now, await, emit, in_transaction}
use sky_high_core.Audit
use sky_high_core.CheckIn.Steps.{find_check_in_or_throw, forget_hold}

-- `flight?.status === FlightStatus.DEPARTED`
abbrev has_departed : Option Flight → Bool
has_departed none = false
has_departed (some f) = is_departed f.status

abbrev pub freed : Seat → Seat
freed s = record s { status = SeatStatus.available; held_by = none; held_at = none }

abbrev pub cancelled : CheckIn → CheckIn
cancelled c = record c { status = CheckInStatus.cancelled }

pub cancelled_seat_row : CheckIn → ℕ → AuditLog
cancelled_seat_row check_in seat_id = record {
  entity_type = EntityType.seat;
  entity_id = seat_id;
  action = AuditAction.seat_cancelled;
  from_state = some (
      AuditState.of_seat
        (if is_completed check_in.status then SeatStatus.confirmed else SeatStatus.held));
  to_state = AuditState.of_seat SeatStatus.available;
  actor_id = check_in.passenger_id;
  metadata = Metadata.cancellation check_in.flight_id check_in.id;
}

pub cancelled_check_in_row : CheckIn → AuditLog
cancelled_check_in_row check_in = record {
  entity_type = EntityType.check_in;
  entity_id = check_in.id;
  action = AuditAction.checkin_cancelled;
  from_state = some (AuditState.of_check_in check_in.status);
  to_state = AuditState.of_check_in CheckInStatus.cancelled;
  actor_id = check_in.passenger_id;
  metadata = Metadata.cancelled_flight check_in.flight_id;
}

module _ {db : Database} where
  -- `if (checkIn.seatId)`: the seat is freed whatever its status and holder.
  unfoldable pub free_seat : CheckIn → Option ℕ → Action (Tables db) (Unit {0})
  free_seat check_in none = pure tt
  free_seat check_in (some seat_id) = do
    modify λ t. record t { seats = db.seat_rows.update (λ s. s.id == seat_id) freed t.seats }
    Audit.log_with_transaction (cancelled_seat_row check_in seat_id)
    pure tt

  unfoldable pub cancel_transaction : CheckIn → Action (Tables db) (Unit {0})
  unfolding free_seat
  cancel_transaction check_in = do
    free_seat check_in check_in.seat_id
    modify λ t. record t {
      check_ins = db.check_in_rows.update (λ c. c.id == check_in.id) cancelled t.check_ins;
    }
    Audit.log_with_transaction (cancelled_check_in_row check_in)
    pure tt

module _ {be : Backend} where
  -- `meanwhile` is what others do between the reading of the check-in and the transaction.
  unfoldable pub cancel_check_in :
      (World be → World be) → ℕ → ℕ → Action (World be) CheckInCancelledResponse
  cancel_check_in meanwhile check_in_id passenger_id = do
    check_in ← find_check_in_or_throw check_in_id passenger_id
    flight ← gets λ w. be.flight_rows.find_one (λ f. f.id == check_in.flight_id) w.flights
    throw_if (has_departed flight) (domain cancellation_not_allowed)
    cancelled_at ← now
    await meanwhile
    in_transaction (cancel_transaction check_in)
    forget_hold check_in.seat_id check_in.flight_id
    emit (Event.waitlist_process check_in.flight_id none)
    pure
        (record { id = check_in_id; status = CheckInStatus.cancelled; cancelled_at = cancelled_at })
