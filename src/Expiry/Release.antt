-- ===== src/Expiry/Release.antt =====
-- The release of a seat whose hold has run out, on the expiry event of Redis and in the sweep.
pub mod Marking
pub mod Effects
pub mod Once
pub mod Endings
pub mod Settling
pub mod Queueing
pub mod Sweep
pub mod Stepping
mod Examples
use sky_high_core.Common.{
  ℕ, ◌+◌, Option, none, some, Bool, true, false, not, ◌&&◌, ◌==◌, ltb, leb, List, [], ◌∷◌,
  same_option, if◌then◌else◌,
}
use sky_high_core.Domain.Enums.{
  SeatStatus, CheckInStatus, WaitlistStatus, AuditAction, is_held, is_in_progress, is_assigned,
}
use sky_high_core.Domain.Entities.{
  Seat, CheckIn, Waitlist, EntityType, AuditState, Metadata, AuditLog,
}
use sky_high_core.Domain.Errors.{Action, ok, err, pure, gets, modify, ◌>>=◌, ◌>>◌}
use sky_high_core.Domain.Dtos.{Event, Metric, Mechanism, RedisKey}
use sky_high_core.Platform.Backend.{Backend, Database, Tables}
use sky_high_core.Platform.World.{World, await, emit, observe, in_transaction}
use sky_high_core.Redis
use sky_high_core.Redis.Ttl
use sky_high_core.Seat
use sky_high_core.CheckIn.Cancel.{freed, cancelled}

abbrev pub system_actor_id : ℕ
system_actor_id = 0

abbrev or_zero : Option ℕ → ℕ
or_zero none = 0
or_zero (some n) = n

abbrev or_system : Option ℕ → ℕ
or_system none = system_actor_id
or_system (some p) = p

-- `holdExpiry > new Date()`, with the hold's start or the epoch.
pub is_running : ℕ → Seat → Bool
is_running clock seat = ltb clock (or_zero seat.held_at + Ttl.in_ms Ttl.seat_hold)

pub released_row : Seat → AuditLog
released_row seat = record {
  entity_type = EntityType.seat;
  entity_id = seat.id;
  action = AuditAction.seat_released;
  from_state = some (AuditState.of_seat SeatStatus.held);
  to_state = AuditState.of_seat SeatStatus.available;
  actor_id = or_system seat.held_by;
  metadata = Metadata.release seat.flight_id;
}

-- The seat is still held, by the passenger that was seen.
abbrev pub still_held : Option ℕ → Seat → Bool
still_held holder s = is_held s.status && same_option s.held_by holder

-- `{ seatId, status: IN_PROGRESS }`
abbrev pub in_progress_on : ℕ → CheckIn → Bool
in_progress_on seat_id c = same_option c.seat_id (some seat_id) && is_in_progress c.status

-- `seat.held_at <= :cutoff` with the cutoff at `Date.now() - HOLD_DURATION_SECONDS * 1000`, written
-- as a sum; a null `held_at` is not.
abbrev pub is_stale : ℕ → Seat → Bool
is_stale clock s =
    is_held s.status
    && elim s.held_at [ none ↦ false | some at ↦ leb (at + Ttl.in_ms Ttl.seat_hold) clock ]

module _ {db : Database} where
  -- Whether the compare-and-set met the hold that was seen.
  pub release_transaction : Seat → Action (Tables db) Bool
  release_transaction seat t =
      if db.seat_rows.affected (λ s. s.id == seat.id && still_held seat.held_by s) t.seats == 0
      then (ok false, t)
      else (
        ok true,
        record t {
          seats =
              db.seat_rows.update (λ s. s.id == seat.id && still_held seat.held_by s) freed t.seats;
          check_ins = db.check_in_rows.update (in_progress_on seat.id) cancelled t.check_ins;
          audit_logs = released_row seat ∷ t.audit_logs;
        },
      )

abbrev pub expired : Waitlist → Waitlist
expired entry = record entry { status = WaitlistStatus.expired }

-- `{ flightId, passengerId, status: ASSIGNED }`
abbrev pub assigned_to : ℕ → ℕ → Waitlist → Bool
assigned_to flight_id passenger_id e =
    e.flight_id == flight_id && (e.passenger_id == passenger_id && is_assigned e.status)

module _ {be : Backend} where
  abbrev save_expired : Option Waitlist → Action (World be) (Unit {0})
  save_expired none = pure tt
  save_expired (some entry) = modify λ w. record w {
    tables = record w.tables { waitlists = be.waitlist_rows.save (expired entry) w.waitlists };
  }

  -- Also the first half of `handleWaitlistHoldExpiry` in the waitlist service.
  pub mark_waitlist_entry_expired : ℕ → Option ℕ → Action (World be) (Unit {0})
  mark_waitlist_entry_expired flight_id none = pure tt
  mark_waitlist_entry_expired flight_id (some passenger_id) = do
    entry ← gets λ w. be.waitlist_rows.find_one (assigned_to flight_id passenger_id) w.waitlists
    save_expired entry

  abbrev after_release : Seat → Bool → Action (World be) Bool
  after_release seat false = pure false
  after_release seat true = do
    mark_waitlist_entry_expired seat.flight_id seat.held_by
    Seat.invalidate_cache seat.flight_id
    emit (Event.waitlist_process seat.flight_id (some seat.id))
    pure true

  -- The rest of the method, once the seat was read as held and its hold as run out.
  abbrev release_held : (World be → World be) → Seat → Action (World be) Bool
  release_held meanwhile seat = do
    await meanwhile
    updated ← in_transaction (release_transaction seat)
    after_release seat updated

  abbrev release_found : (World be → World be) → Option Seat → Action (World be) Bool
  release_found meanwhile none = pure false
  release_found meanwhile (some seat) = if not (is_held seat.status) then pure false else do
    running ← gets (λ w. is_running w.clock seat)
    if running then pure false else release_held meanwhile seat

  -- `meanwhile` is what others do between the first look at the seat and the transaction.
  pub release_seat_within_lock : (World be → World be) → ℕ → Action (World be) Bool
  release_seat_within_lock meanwhile seat_id = do
    seat ← gets λ w. be.seat_rows.find_one (λ s. s.id == seat_id) w.seats
    release_found meanwhile seat

  -- A lock that cannot be had ends the call with `false`.
  pub release_seat : (World be → World be) → ℕ → Action (World be) Bool
  release_seat meanwhile seat_id w =
      let (r, w') = Redis.acquire_lock (RedisKey.seat_lock seat_id) (Ttl.in_ms Ttl.seat_lock) w in
      elim r [
        | ok _ ↦
            Redis.and_release_lock (RedisKey.seat_lock seat_id)
              (release_seat_within_lock meanwhile seat_id) w'
        | err e ↦ (ok false, w')
      ]

  abbrev count_expiry : Option ℕ → Mechanism → Bool → Action (World be) (Unit {0})
  count_expiry flight_id mechanism false = pure tt
  count_expiry flight_id mechanism true = observe (Metric.hold_expiry flight_id mechanism)

  unfoldable pub handle_hold_expired : (World be → World be) → ℕ → Action (World be) (Unit {0})
  handle_hold_expired meanwhile seat_id = do
    released ← release_seat meanwhile seat_id
    count_expiry none Mechanism.keyspace released

  pub sweep_seats : (World be → World be) → List Seat → Action (World be) (Unit {0})
  sweep_seats meanwhile [] = pure tt
  sweep_seats meanwhile (seat ∷ seats) = do
    released ← release_seat meanwhile seat.id
    count_expiry (some seat.flight_id) Mechanism.sweep released
    sweep_seats meanwhile seats

  pub sweep_expired_holds : (World be → World be) → Action (World be) (Unit {0})
  sweep_expired_holds meanwhile = do
    stale ← gets λ w. be.seat_rows.find (λ _ _. true) (is_stale w.clock) w.seats
    sweep_seats meanwhile stale
