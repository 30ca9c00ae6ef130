-- ===== src/CheckIn/Start/Success.antt =====
-- When `startCheckIn` accepts a request.
use sky_high_core.Common.{
  ℕ, ◌+◌, ◌≡◌, inl, inr, none, some, true, false, ◌&&◌, ◌==◌, arith, Option-cases,
}
use sky_high_core.Domain.Enums.{is_available}
use sky_high_core.Domain.Entities.{Seat, CheckIn, Flight, same_booking}
use sky_high_core.Domain.Errors.{ok}
use sky_high_core.Domain.Dtos.{CheckInResponse, RedisKey, RedisValue}
use sky_high_core.Platform.Table.{find_by_id, find_by_key, affected_by_key}
use sky_high_core.Platform.Backend.{
  Backend, Database, Tables, AlwaysGrants, AlwaysWrites, AlwaysGrants-AlwaysWrites,
}
use sky_high_core.Platform.World.{World}
use sky_high_core.Redis
use sky_high_core.Redis.Ttl
use sky_high_core.CheckIn.Steps.{to_check_in_response}
use sky_high_core.Seat
use sky_high_core.Audit
use sky_high_core.CheckIn.Start.{
  new_check_in, cas_hold, insert_check_in, hold_transaction, validate_request,
  hold_seat_within_lock, hold_seat_under_lock, start_check_in,
}
use sky_high_core.CheckIn.Start.Outcome.{Started, start_check_in-Started}

-- The passenger has no check-in on the flight.
abbrev pub NotBooked : (db : Database) → (p f : ℕ) → Tables db → Type 0
NotBooked db p f t =
    (i : ℕ) (c : CheckIn)
    → db.check_in_rows.row t.check_ins i ≡ some c
    → c.passenger_id ≡ p
    → c.flight_id ≡ f
    → ⊥

module _ {db : Database} (p f s created_at : ℕ) (t : Tables db) where
  cas_hold-current :
      (held_at : ℕ) (seat : Seat)
      → db.seat_rows.row t.seats s ≡ some seat
      → is_available seat.status ≡ true
      → db.is_passenger p ≡ true
      → (cas_hold s p held_at t).0 ≡ ok tt
  unfolding cas_hold
  cas_hold-current held_at seat was open_seat known =
      let seen = affected_by_key db.seat_rows s (λ x. is_available x.status) t.seats in
      let met : (db.seat_rows.affected (λ x. x.id == s && is_available x.status) t.seats == 0)
          ≡ false =
        ground arith in
      ground arith

  cas_hold-check_ins : (held_at : ℕ) → (cas_hold s p held_at t).1.check_ins ≡ t.check_ins
  unfolding cas_hold
  cas_hold-check_ins held_at = ground arith

  insert_check_in-unbooked :
      NotBooked db p f t
      → db.is_passenger p ≡ true
      → (c : CheckIn) × ((insert_check_in p f s created_at t).0 ≡ ok c)
  unfolding insert_check_in new_check_in
  insert_check_in-unbooked unbooked known =
      let row = new_check_in (db.check_in_rows.fresh t.check_ins) p f s created_at in
      let law = db.check_in_rows.insert_law row t.check_ins in
      elim (Option-cases (db.check_in_rows.find_one (same_booking row) t.check_ins)) [
        | inl free ↦ (row, ground arith)
        | inr (c, found) ↦
            let (at, is_it) =
              db.check_in_rows.find_one-some (same_booking row) t.check_ins c found in
            absurd (unbooked c.id c at (ground arith) (ground arith))
      ]

-- An available seat can be held by a passenger who has no check-in on the flight.
hold_transaction-current :
    {db : Database} (p f s held_at created_at : ℕ) (t : Tables db) (seat : Seat)
    → db.seat_rows.row t.seats s ≡ some seat
    → is_available seat.status ≡ true
    → NotBooked db p f t
    → db.is_passenger p ≡ true
    → (c : CheckIn) × ((hold_transaction p f s held_at created_at t).0 ≡ ok c)
unfolding hold_transaction Audit.log_with_transaction
hold_transaction-current {db} p f s held_at created_at t seat was open_seat unbooked known =
    let u = (cas_hold s p held_at t).1 in
    let same = cas_hold-check_ins p f s created_at t held_at in
    let held = cas_hold-current p f s created_at t held_at seat was open_seat known in
    let (c, e) =
      insert_check_in-unbooked p f s created_at u
        (λ i q at own on. unbooked i q (ground arith) own on) known in
    (c, ground arith)

module _ (be : Backend) (p f s : ℕ) (flight : Flight) (seat : Seat) where
  -- What `startCheckIn` asks of the tables.
  pub record IsOpen (t : Tables be.db) : Type 0 where
    pub flies : be.flight_rows.row t.flights f ≡ some flight
    pub there : be.seat_rows.row t.seats s ≡ some seat
    pub on_flight : seat.flight_id ≡ f
    pub is_free : is_available seat.status ≡ true
    pub unbooked : NotBooked be.db p f t
    pub known : be.is_passenger p ≡ true

module _ {be : Backend} (p f s : ℕ) (flight : Flight) (seat : Seat) where
  validate_request-ok :
      (w : World be) → IsOpen be p f s flight seat w.tables → validate_request p f s w ≡ (ok tt, w)
  unfolding validate_request
  validate_request-ok w open_to =
      let flies = find_by_id be.flight_rows f w.flights in
      let there = find_by_key be.seat_rows s (λ x. x.flight_id == f) w.seats in
      elim (Option-cases
        (be.check_in_rows.find_one (λ c. c.passenger_id == p && c.flight_id == f) w.check_ins)) [
          | inl none_yet ↦ ground (arith, open_to.flies, open_to.there, open_to.on_flight)
          | inr (c, found) ↦
              let (at, is_it) =
                be.check_in_rows.find_one-some (λ c. c.passenger_id == p && c.flight_id == f)
                  w.check_ins c found in
              absurd (open_to.unbooked c.id c at (ground arith) (ground arith))
        ]

  hold_seat_within_lock-ok :
      AlwaysWrites be
      → (w : World be) → IsOpen be p f s flight seat w.tables
      → (r : CheckInResponse) × ((hold_seat_within_lock (λ v. v) p f s w).0 ≡ ok r)
  unfolding hold_seat_within_lock Redis.set_seat_hold Redis.set Seat.invalidate_cache Redis.del
  hold_seat_within_lock-ok writes w open_to =
      let seen = find_by_id be.seat_rows s w.seats in
      let law = be.transaction_law CheckIn (hold_transaction p f s w.clock w.clock) w.tables in
      let (c, e) =
        hold_transaction-current p f s w.clock w.clock w.tables seat open_to.there open_to.is_free
          open_to.unbooked open_to.known in
      let (set, kept) =
        writes.written (RedisKey.seat_hold s) (RedisValue.passenger p) Ttl.seat_hold w.clock
          w.redis in
      let (del, gone) = writes.deleted w.clock (RedisKey.seat_map_cache f) set in
      (
        to_check_in_response c (some (w.clock + Ttl.in_ms Ttl.seat_hold)) none none,
        ground (arith, open_to.there, open_to.is_free),
      )

  hold_seat_under_lock-ok :
      AlwaysGrants be
      → (w : World be) → IsOpen be p f s flight seat w.tables
      → (r : CheckInResponse) × ((hold_seat_under_lock (λ v. v) p f s w).0 ≡ ok r)
  unfolding hold_seat_under_lock Redis.acquire_lock Redis.and_release_lock
  hold_seat_under_lock-ok grants w open_to =
      let (l, got) = grants.granted (RedisKey.seat_lock s) 5000 w.clock w.locks in
      let (r, e) =
        hold_seat_within_lock-ok (AlwaysGrants-AlwaysWrites grants l (RedisKey.seat_lock s))
          (record w { locks = l })
          (record {
            flies = open_to.flies;
            there = open_to.there;
            on_flight = open_to.on_flight;
            is_free = open_to.is_free;
            unbooked = open_to.unbooked;
            known = open_to.known;
          }) in
      let u = (hold_seat_within_lock (λ v. v) p f s (record w { locks = l })).1 in
      let (l', gone) = grants.released (RedisKey.seat_lock s) u.clock u.locks in (r, ground arith)

  -- If every lock is granted and released, the flight and the passenger are stored, the seat is
  -- AVAILABLE and on the flight, the passenger has no check-in on the flight, and nothing runs
  -- beside the call, then `startCheckIn` returns: the seat is HELD by the passenger, who has a new
  -- check-in, the hold key names them for its time to live, the cached seat map is gone, and the
  -- response is the check-in with its expiry.
  pub start_check_in-accepts :
      AlwaysGrants be
      → (w : World be) → IsOpen be p f s flight seat w.tables
      → (r : CheckInResponse) × (w' : World be) × (start_check_in (λ v. v) p f s w ≡ (ok r, w'))
        × Started p f s w.clock r w w'
  unfolding start_check_in
  start_check_in-accepts grants w open_to =
      let valid = validate_request-ok w open_to in
      let (r, e) = hold_seat_under_lock-ok grants w open_to in
      let w' = (start_check_in (λ v. v) p f s w).1 in
      let returns : start_check_in (λ v. v) p f s w ≡ (ok r, w') = ground arith in
      let (l, d) = start_check_in-Started (λ v. v) p f s w w' r returns in
      (
        r,
        w',
        returns,
        record {
          check_in = d.check_in;
          taken = d.taken;
          hold_key = d.hold_key;
          map_forgotten = d.map_forgotten;
          response = d.response;
        },
      )
