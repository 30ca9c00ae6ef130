-- ===== src/CheckIn/Start.antt =====
-- `startCheckIn`: a seat is held for a passenger.
pub mod Held
pub mod Outcome
pub mod Success
pub mod Failure
pub mod Rebooking
pub mod Exclusive
pub mod Stepping
mod Examples
use sky_high_core.Common.{
  ℕ, ◌+◌, ◌-◌, Option, none, some, Bool, not, true, false, ◌&&◌, ◌==◌, if◌then◌else◌,
}
use sky_high_core.Domain.Enums.{SeatStatus, CheckInStatus, AuditAction, is_available, is_cancelled}
use sky_high_core.Domain.Entities.{CheckIn, Seat, EntityType, AuditState, Metadata, AuditLog}
use sky_high_core.Domain.Errors.{
  Action, ok, err, Exception, domain, flight_not_found, seat_not_found, already_checked_in,
  seat_already_held, unique_violation, foreign_key_violation, pure, throw, gets, ◌>>=◌, ◌>>◌,
}
use sky_high_core.Domain.Dtos.{CheckInResponse, RedisKey, Metric, Stage}
use sky_high_core.Platform.Backend.{Backend, Database, Tables}
use sky_high_core.Platform.World.{World, or_throw, throw_if, now, await, observe, in_transaction}
use sky_high_core.Redis
use sky_high_core.Redis.Ttl
use sky_high_core.Audit
use sky_high_core.Seat
use sky_high_core.CheckIn.Steps.{to_check_in_response}

-- `existing && existing.status !== CheckInStatus.CANCELLED`
abbrev is_active : Option CheckIn → Bool
is_active none = false
is_active (some c) = not (is_cancelled c.status)

-- `!seat || seat.status !== SeatStatus.AVAILABLE`
abbrev is_unavailable : Option Seat → Bool
is_unavailable none = true
is_unavailable (some s) = not (is_available s.status)

abbrev pub held_seat : ℕ → ℕ → Seat → Seat
held_seat passenger_id held_at s = record s {
  status = SeatStatus.held;
  held_by = some passenger_id;
  held_at = some held_at;
}

-- `manager.create(CheckIn, …)`, with the columns that the database fills in.
unfoldable pub new_check_in : ℕ → ℕ → ℕ → ℕ → ℕ → CheckIn
new_check_in id passenger_id flight_id seat_id created_at = record {
  id = id;
  passenger_id = passenger_id;
  flight_id = flight_id;
  seat_id = some seat_id;
  status = CheckInStatus.in_progress;
  baggage_weight = none;
  excess_fee = none;
  payment_id = none;
  created_at = created_at;
}

pub held_row : ℕ → ℕ → ℕ → ℕ → AuditLog
held_row passenger_id flight_id seat_id check_in_id = record {
  entity_type = EntityType.seat;
  entity_id = seat_id;
  action = AuditAction.seat_held;
  from_state = some (AuditState.of_seat SeatStatus.available);
  to_state = AuditState.of_seat SeatStatus.held;
  actor_id = passenger_id;
  metadata = Metadata.hold flight_id check_in_id;
}

module _ {db : Database} where
  -- The compare-and-set of a seat: it is held for the passenger if it is still available. `held_by`
  -- is a foreign key to `passenger`, which an update that meets the row checks.
  unfoldable pub cas_hold : ℕ → ℕ → ℕ → Action (Tables db) (Unit {0})
  cas_hold seat_id passenger_id held_at t =
      if db.seat_rows.affected (λ s. s.id == seat_id && is_available s.status) t.seats == 0
      then (err (domain seat_already_held), t)
      else if db.is_passenger passenger_id
      then (
        ok tt,
        record t {
          seats =
              db.seat_rows.update (λ s. s.id == seat_id && is_available s.status)
                (held_seat passenger_id held_at) t.seats;
        },
      )
      else (err foreign_key_violation, t)

  -- `manager.save(CheckIn, manager.create(CheckIn, …))`: the unique key is checked first, then the
  -- foreign keys. Those to `flight` and `seat` hold: the callers have found rows that name both, and
  -- no service deletes a flight or a seat.
  unfoldable pub insert_check_in : ℕ → ℕ → ℕ → ℕ → Action (Tables db) CheckIn
  unfolding new_check_in
  insert_check_in passenger_id flight_id seat_id created_at t =
      let row =
        new_check_in (db.check_in_rows.fresh t.check_ins) passenger_id flight_id seat_id
          created_at in
      elim (db.check_in_rows.insert row t.check_ins) [
        | none ↦ (err unique_violation, t)
        | some rows ↦
            if db.is_passenger passenger_id
            then (ok row, record t { check_ins = rows })
            else (err foreign_key_violation, t)
      ]

  unfoldable pub hold_transaction : ℕ → ℕ → ℕ → ℕ → ℕ → Action (Tables db) CheckIn
  hold_transaction passenger_id flight_id seat_id held_at created_at = do
    cas_hold seat_id passenger_id held_at
    saved ← insert_check_in passenger_id flight_id seat_id created_at
    Audit.log_with_transaction (held_row passenger_id flight_id seat_id saved.id)
    pure saved

module _ {be : Backend} where
  pub validate_flight_exists : ℕ → Action (World be) (Unit {0})
  validate_flight_exists flight_id = do
    flight ← gets λ w. be.flight_rows.find_one (λ f. f.id == flight_id) w.flights
    or_throw (domain flight_not_found) flight
    pure tt

  pub validate_seat_belongs_to_flight : ℕ → ℕ → Action (World be) (Unit {0})
  validate_seat_belongs_to_flight seat_id flight_id = do
    seat ←
        gets λ w. be.seat_rows.find_one (λ s. s.id == seat_id && s.flight_id == flight_id) w.seats
    or_throw (domain seat_not_found) seat
    pure tt

  pub validate_no_active_check_in : ℕ → ℕ → Action (World be) (Unit {0})
  validate_no_active_check_in passenger_id flight_id = do
    existing ← gets λ w.
        be.check_in_rows.find_one (λ c. c.passenger_id == passenger_id && c.flight_id == flight_id)
          w.check_ins
    throw_if (is_active existing) (domain already_checked_in)

  -- `meanwhile` is what others do between the first look at the seat and the transaction.
  unfoldable pub hold_seat_within_lock :
      (World be → World be) → ℕ → ℕ → ℕ → Action (World be) CheckInResponse
  hold_seat_within_lock meanwhile passenger_id flight_id seat_id = do
    seat ← gets λ w. be.seat_rows.find_one (λ s. s.id == seat_id) w.seats
    throw_if (is_unavailable seat) (domain seat_already_held)
    held_at ← now
    await meanwhile
    created_at ← now
    check_in ← in_transaction (hold_transaction passenger_id flight_id seat_id held_at created_at)
    Redis.set_seat_hold (RedisKey.seat_hold seat_id) passenger_id Ttl.seat_hold
    Seat.invalidate_cache flight_id
    pure (to_check_in_response check_in (some (held_at + Ttl.in_ms Ttl.seat_hold)) none none)

  -- `if (error instanceof SeatAlreadyHeldException)` counts it, and every error goes on.
  abbrev count_contention : ℕ → Exception → Action (World be) CheckInResponse
  count_contention flight_id (domain seat_already_held) = do
    observe (Metric.seat_contention flight_id)
    throw (domain seat_already_held)
  count_contention flight_id e = throw e

  abbrev catch_contention :
      ℕ → Action (World be) CheckInResponse → Action (World be) CheckInResponse
  catch_contention flight_id m w =
      let (r, w') = m w in elim r [ ok a ↦ (ok a, w') | err e ↦ count_contention flight_id e w' ]

  -- The three checks before the lock.
  unfoldable pub validate_request : ℕ → ℕ → ℕ → Action (World be) (Unit {0})
  unfolding validate_flight_exists validate_seat_belongs_to_flight validate_no_active_check_in
  validate_request passenger_id flight_id seat_id = do
    validate_flight_exists flight_id
    validate_seat_belongs_to_flight seat_id flight_id
    validate_no_active_check_in passenger_id flight_id

  -- The callback of the span: the seat is held under its lock.
  unfoldable pub hold_seat_under_lock :
      (World be → World be) → ℕ → ℕ → ℕ → Action (World be) CheckInResponse
  unfolding Redis.acquire_lock Redis.and_release_lock
  hold_seat_under_lock meanwhile passenger_id flight_id seat_id = do
    Redis.acquire_lock (RedisKey.seat_lock seat_id) (Ttl.in_ms Ttl.seat_lock)
    Redis.and_release_lock (RedisKey.seat_lock seat_id)
        (hold_seat_within_lock meanwhile passenger_id flight_id seat_id)

  unfoldable pub start_check_in :
      (World be → World be) → ℕ → ℕ → ℕ → Action (World be) CheckInResponse
  start_check_in meanwhile passenger_id flight_id seat_id = do
    start ← now
    validate_request passenger_id flight_id seat_id
    catch_contention flight_id do
      result ← hold_seat_under_lock meanwhile passenger_id flight_id seat_id
      end ← now
      observe (Metric.checkin_duration flight_id Stage.started (end - start))
      pure result
