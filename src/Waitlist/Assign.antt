-- ===== src/Waitlist/Assign.antt =====
-- The assignment of a freed seat to the first passenger in the queue.
pub mod Effects
pub mod Serving
pub mod Success
pub mod Blocked
pub mod Stepping
mod Examples
use sky_high_core.Common.{ℕ, Option, none, some, Bool, true, false, ◌&&◌, ◌==◌, if◌then◌else◌}
use sky_high_core.Domain.Enums.{WaitlistStatus, AuditAction, is_waiting, is_available}
use sky_high_core.Domain.Entities.{Waitlist, Seat, EntityType, AuditState, Metadata, AuditLog}
use sky_high_core.Domain.Errors.{Action, ok, err, pure, gets, modify, ◌>>=◌, ◌>>◌}
use sky_high_core.Domain.Dtos.{Event, Metric, RedisKey}
use sky_high_core.Platform.Backend.{Backend, Database, Tables}
use sky_high_core.Platform.World.{World, now, await, emit, observe, in_transaction}
use sky_high_core.Redis
use sky_high_core.Redis.Ttl
use sky_high_core.Audit
use sky_high_core.Seat
use sky_high_core.CheckIn.Start.{held_seat, insert_check_in}
use sky_high_core.Expiry.Release.{system_actor_id, mark_waitlist_entry_expired}

abbrev pub assigned : Waitlist → Waitlist
assigned entry = record entry { status = WaitlistStatus.assigned }

-- `{ flightId, status: WAITING }`
abbrev pub waiting_on : ℕ → Waitlist → Bool
waiting_on flight_id e = e.flight_id == flight_id && is_waiting e.status

pub assigned_row : Waitlist → ℕ → ℕ → ℕ → AuditLog
assigned_row entry flight_id seat_id check_in_id = record {
  entity_type = EntityType.waitlist;
  entity_id = entry.id;
  action = AuditAction.waitlist_assigned;
  from_state = some (AuditState.of_waitlist WaitlistStatus.waiting);
  to_state = AuditState.of_waitlist WaitlistStatus.assigned;
  actor_id = system_actor_id;
  metadata = Metadata.assignment flight_id seat_id entry.passenger_id check_in_id;
}

-- The seat of the event, or any available seat of the flight.
abbrev pub wanted_seat : ℕ → Option ℕ → Seat → Bool
wanted_seat flight_id none s = s.flight_id == flight_id && is_available s.status
wanted_seat flight_id (some seat_id) s =
    s.id == seat_id && (s.flight_id == flight_id && is_available s.status)

module _ {db : Database} where
  -- The rows that an assignment writes, once the compare-and-set has held the seat.
  abbrev assign_rows : Waitlist → ℕ → ℕ → ℕ → Action (Tables db) Bool
  assign_rows entry seat_id flight_id created_at = do
    modify λ t. record t {
      waitlists = db.waitlist_rows.update (λ e. e.id == entry.id) assigned t.waitlists;
    }
    check_in ← insert_check_in entry.passenger_id flight_id seat_id created_at
    Audit.log_with_transaction (assigned_row entry flight_id seat_id check_in.id)
    pure true

  -- Whether the compare-and-set met an available seat. `held_by` is a foreign key to `passenger`,
  -- as the entry's passenger is, which was checked when the entry was inserted.
  unfoldable pub assign_transaction : Waitlist → ℕ → ℕ → ℕ → ℕ → Action (Tables db) Bool
  assign_transaction entry seat_id flight_id held_at created_at t =
      if db.seat_rows.affected (λ s. s.id == seat_id && is_available s.status) t.seats == 0
      then (ok false, t)
      else assign_rows entry seat_id flight_id created_at (record t {
        seats =
            db.seat_rows.update (λ s. s.id == seat_id && is_available s.status)
              (held_seat entry.passenger_id held_at) t.seats;
      })

module _ {be : Backend} where
  abbrev after_assignment : Waitlist → ℕ → ℕ → Bool → Action (World be) (Unit {0})
  after_assignment entry seat_id flight_id false = pure tt
  after_assignment entry seat_id flight_id true = do
    Redis.set_seat_hold (RedisKey.seat_hold seat_id) entry.passenger_id Ttl.seat_hold
    Seat.invalidate_cache flight_id
    observe (Metric.waitlist_assignment flight_id)
    observe (Metric.waitlist_depth_dec flight_id)
    emit (Event.waitlist_notification entry.passenger_id flight_id seat_id entry.id)

  -- `meanwhile` is what others do between the search for a seat and the transaction.
  unfoldable pub assign_seat_to_waitlist_passenger :
      (World be → World be) → Waitlist → ℕ → ℕ → Action (World be) (Unit {0})
  assign_seat_to_waitlist_passenger meanwhile entry seat_id flight_id = do
    held_at ← now
    await meanwhile
    created_at ← now
    done ← in_transaction (assign_transaction entry seat_id flight_id held_at created_at)
    after_assignment entry seat_id flight_id done

  abbrev assign_found :
      (World be → World be) → ℕ → Waitlist → Option Seat → Action (World be) (Unit {0})
  assign_found meanwhile flight_id next none = pure tt
  assign_found meanwhile flight_id next (some seat) =
      assign_seat_to_waitlist_passenger meanwhile next seat.id flight_id

  abbrev serve_next :
      (World be → World be) → ℕ → Option ℕ → Option Waitlist → Action (World be) (Unit {0})
  serve_next meanwhile flight_id seat_id none = pure tt
  serve_next meanwhile flight_id seat_id (some next) = do
    available_seat ← gets λ w. be.seat_rows.find_one (wanted_seat flight_id seat_id) w.seats
    assign_found meanwhile flight_id next available_seat

  unfoldable pub process_waitlist_within_lock :
      (World be → World be) → ℕ → Option ℕ → Action (World be) (Unit {0})
  process_waitlist_within_lock meanwhile flight_id seat_id = do
    next_passenger ←
        gets λ w. be.waitlist_rows.find_least (λ e. e.position) (waiting_on flight_id) w.waitlists
    serve_next meanwhile flight_id seat_id next_passenger

  -- A lock that cannot be had ends the call.
  unfoldable pub process_waitlist :
      (World be → World be) → ℕ → Option ℕ → Action (World be) (Unit {0})
  process_waitlist meanwhile flight_id seat_id w =
      let (r, w') =
        Redis.acquire_lock (RedisKey.waitlist_lock flight_id) (Ttl.in_ms Ttl.waitlist_lock) w in
      elim r [
        | ok _ ↦
            Redis.and_release_lock (RedisKey.waitlist_lock flight_id)
              (process_waitlist_within_lock meanwhile flight_id seat_id) w'
        | err e ↦ (ok tt, w')
      ]

  pub handle_waitlist_hold_expiry : ℕ → ℕ → ℕ → Action (World be) (Unit {0})
  handle_waitlist_hold_expiry seat_id flight_id passenger_id = do
    mark_waitlist_entry_expired flight_id (some passenger_id)
    emit (Event.waitlist_process flight_id (some seat_id))
