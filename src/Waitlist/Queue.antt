-- ===== src/Waitlist/Queue.antt =====
-- Joining, leaving and listing: the entries of a flight, by position.
pub mod Joining
pub mod Leaving
pub mod Endings
mod Examples
pub mod Rejoining
pub mod Race
pub mod Stepping
use sky_high_core.Common.{
  ℕ, ◌+◌, Option, none, some, Bool, not, ◌&&◌, ◌==◌, leb, List, map, if◌then◌else◌,
}
use sky_high_core.Domain.Enums.{WaitlistStatus, AuditAction, is_waiting}
use sky_high_core.Domain.Entities.{Waitlist, EntityType, AuditState, Metadata, AuditLog}
use sky_high_core.Domain.Errors.{
  Action, ok, err, domain, flight_not_found, already_on_waitlist, waitlist_not_found,
  unique_violation, foreign_key_violation, pure, gets, modify, ◌>>=◌, ◌>>◌,
}
use sky_high_core.Domain.Dtos.{WaitlistResponse, Metric}
use sky_high_core.Platform.Table.{is_none}
use sky_high_core.Platform.Backend.{Backend}
use sky_high_core.Platform.World.{World, or_throw, throw_if, await, observe}
use sky_high_core.Audit

pub to_response_dto : Waitlist → WaitlistResponse
to_response_dto e = record {
  id = e.id;
  flight_id = e.flight_id;
  passenger_id = e.passenger_id;
  position = e.position;
  status = e.status;
  created_at = e.created_at;
}

abbrev pub or_zero : Option ℕ → ℕ
or_zero none = 0
or_zero (some n) = n

pub new_entry : ℕ → ℕ → ℕ → ℕ → ℕ → Waitlist
new_entry id flight_id passenger_id position created_at = record {
  id = id;
  flight_id = flight_id;
  passenger_id = passenger_id;
  position = position;
  status = WaitlistStatus.waiting;
  created_at = created_at;
}

pub joined_row : Waitlist → AuditLog
joined_row e = record {
  entity_type = EntityType.waitlist;
  entity_id = e.id;
  action = AuditAction.waitlist_joined;
  from_state = none;
  to_state = AuditState.of_waitlist WaitlistStatus.waiting;
  actor_id = e.passenger_id;
  metadata = Metadata.joining e.flight_id e.position;
}

abbrev pub by_position : Waitlist → Waitlist → Bool
by_position a b = leb a.position b.position

-- `{ flightId, passengerId, status: WAITING }`
abbrev pub waiting_for : ℕ → ℕ → Waitlist → Bool
waiting_for flight_id passenger_id e =
    e.flight_id == flight_id && (e.passenger_id == passenger_id && is_waiting e.status)

abbrev pub left : Waitlist → Waitlist
left entry = record entry { status = WaitlistStatus.cancelled }

module _ {be : Backend} where
  pub get_next_position : ℕ → Action (World be) ℕ
  get_next_position flight_id = do
    max ←
        gets
          λ w. be.waitlist_rows.max_of (λ e. e.position) (λ e. e.flight_id == flight_id) w.waitlists
    pure (or_zero max + 1)

  abbrev require_flight : ℕ → Action (World be) (Unit {0})
  require_flight flight_id = do
    flight ← gets λ w. be.flight_rows.find_one (λ f. f.id == flight_id) w.flights
    or_throw (domain flight_not_found) flight
    pure tt

  -- `waitlistRepository.save(create(…))`: the unique key is checked first, then the foreign keys.
  -- That to `flight` holds: the caller has found it, and no service deletes a flight.
  pub insert_entry : ℕ → ℕ → ℕ → Action (World be) Waitlist
  unfolding new_entry
  insert_entry flight_id passenger_id position w =
      let row =
        new_entry (be.waitlist_rows.fresh w.waitlists) flight_id passenger_id position w.clock in
      elim (be.waitlist_rows.insert row w.waitlists) [
        | none ↦ (err unique_violation, w)
        | some rows ↦
            if be.is_passenger passenger_id
            then (ok row, record w { tables = record w.tables { waitlists = rows } })
            else (err foreign_key_violation, w)
      ]

  -- `meanwhile` is what others do between the reading of the greatest position and the insert.
  pub join_waitlist : (World be → World be) → ℕ → ℕ → Action (World be) WaitlistResponse
  unfolding get_next_position
  join_waitlist meanwhile passenger_id flight_id = do
    require_flight flight_id
    existing ← gets λ w. be.waitlist_rows.find_one (waiting_for flight_id passenger_id) w.waitlists
    throw_if (not (is_none existing)) (domain already_on_waitlist)
    next_position ← get_next_position flight_id
    await meanwhile
    saved ← insert_entry flight_id passenger_id next_position
    Audit.log (joined_row saved)
    observe (Metric.waitlist_depth_inc flight_id)
    pure (to_response_dto saved)

  pub leave_waitlist : ℕ → ℕ → Action (World be) WaitlistResponse
  leave_waitlist waitlist_id passenger_id = do
    found ← gets λ w.
        be.waitlist_rows.find_one (λ e. e.id == waitlist_id && e.passenger_id == passenger_id)
          w.waitlists
    entry ← or_throw (domain waitlist_not_found) found
    throw_if (not (is_waiting entry.status)) (domain waitlist_not_found)
    let updated = left entry
    modify λ w. record w {
      tables = record w.tables { waitlists = be.waitlist_rows.save updated w.waitlists };
    }
    observe (Metric.waitlist_depth_dec entry.flight_id)
    pure (to_response_dto updated)

  pub get_flight_waitlist : ℕ → Action (World be) (List WaitlistResponse)
  get_flight_waitlist flight_id = do
    require_flight flight_id
    entries ←
        gets λ w. be.waitlist_rows.find by_position (λ e. e.flight_id == flight_id) w.waitlists
    pure (map to_response_dto entries)
