-- ===== src/Waitlist/Assign/Success.antt =====
-- When the processing of a waitlist gives a seat to somebody.
use sky_high_core.Common.{
  ℕ, ◌≤◌, ◌≡◌, inl, inr, Option, none, some, Bool, true, arith, Option-cases,
}
use sky_high_core.Domain.Enums.{is_available}
use sky_high_core.Domain.Entities.{Seat, CheckIn, Waitlist, same_booking}
use sky_high_core.Domain.Errors.{ok}
use sky_high_core.Domain.Dtos.{RedisKey, RedisValue}
use sky_high_core.Platform.Table.{affected_by_key}
use sky_high_core.Platform.Backend.{
  Backend, Database, Tables, AlwaysGrants, AlwaysWrites, AlwaysGrants-AlwaysWrites,
}
use sky_high_core.Platform.World.{World}
use sky_high_core.Redis
use sky_high_core.Redis.Ttl
use sky_high_core.Seat
use sky_high_core.Audit
use sky_high_core.CheckIn.Start.{new_check_in, insert_check_in}
use sky_high_core.Waitlist.Assign.{
  waiting_on, wanted_seat, assign_transaction, assign_seat_to_waitlist_passenger,
  process_waitlist_within_lock, process_waitlist,
}
use sky_high_core.Waitlist.Assign.Effects.{Announced, assign_seat_to_waitlist_passenger-Announced}

-- A seat that is available goes to a passenger who has no check-in on the flight.
assign_transaction-current :
    {db : Database} (entry : Waitlist) (s f held_at created_at : ℕ) (t : Tables db) (seat : Seat)
    → db.seat_rows.row t.seats s ≡ some seat
    → is_available seat.status ≡ true
    → ((i : ℕ) (c : CheckIn)
        → db.check_in_rows.row t.check_ins i ≡ some c
        → c.passenger_id ≡ entry.passenger_id
        → c.flight_id ≡ f
        → ⊥)
    → db.is_passenger entry.passenger_id ≡ true
    → (assign_transaction entry s f held_at created_at t).0 ≡ ok true
unfolding assign_transaction insert_check_in new_check_in Audit.log_with_transaction
assign_transaction-current {db} entry s f held_at created_at t seat was open_seat none_yet known =
    let seen = affected_by_key db.seat_rows s (λ x. is_available x.status) t.seats in
    let row = new_check_in (db.check_in_rows.fresh t.check_ins) entry.passenger_id f s created_at in
    let law = db.check_in_rows.insert_law row t.check_ins in
    elim (Option-cases (db.check_in_rows.find_one (same_booking row) t.check_ins)) [
      | inl free ↦ ground arith
      | inr (c, found) ↦
          let (at, is_it) = db.check_in_rows.find_one-some (same_booking row) t.check_ins c found in
          absurd (none_yet c.id c at (ground arith) (ground arith))
    ]

wanted_seat-is_available :
    (f : ℕ) (wanted : Option ℕ) (seat : Seat)
    → wanted_seat f wanted seat ≡ true
    → is_available seat.status ≡ true
wanted_seat-is_available f none seat fits = ground arith
wanted_seat-is_available f (some s) seat fits = ground arith

-- Nobody who waits on the flight has a check-in on it.
abbrev pub NoneBooked : (db : Database) → ℕ → Tables db → Type 0
NoneBooked db f t =
    (i j : ℕ) (c : CheckIn) (d : Waitlist)
    → db.check_in_rows.row t.check_ins i ≡ some c
    → db.waitlist_rows.row t.waitlists j ≡ some d
    → waiting_on f d ≡ true
    → c.passenger_id ≡ d.passenger_id
    → c.flight_id ≡ f
    → ⊥

-- The passengers of the entries that wait on the flight are stored.
abbrev pub WaitersStored : (db : Database) → ℕ → Tables db → Type 0
WaitersStored db f t =
    (j : ℕ) (d : Waitlist)
    → db.waitlist_rows.row t.waitlists j ≡ some d
    → waiting_on f d ≡ true
    → db.is_passenger d.passenger_id ≡ true

module _ {be : Backend} where
  assign_seat_to_waitlist_passenger-done :
      AlwaysWrites be
      → (entry : Waitlist) (s f : ℕ) (w : World be)
      → (assign_transaction {db = be.db} entry s f w.clock w.clock w.tables).0 ≡ ok true
      → (w' : World be) × (assign_seat_to_waitlist_passenger (λ v. v) entry s f w ≡ (ok tt, w'))
        × (w'.clock ≡ w.clock)
        × Announced (λ v. v) entry s f w w'
  unfolding assign_seat_to_waitlist_passenger Redis.set_seat_hold Redis.set Seat.invalidate_cache
      Redis.del
  assign_seat_to_waitlist_passenger-done writes entry s f w h =
      let law =
        be.transaction_law Bool (assign_transaction {db = be.db} entry s f w.clock w.clock)
          w.tables in
      let (set, kept) =
        writes.written (RedisKey.seat_hold s) (RedisValue.passenger entry.passenger_id)
          Ttl.seat_hold w.clock w.redis in
      let (del, gone) = writes.deleted w.clock (RedisKey.seat_map_cache f) set in
      let t = (assign_transaction {db = be.db} entry s f w.clock w.clock w.tables).1 in
      let w' = (assign_seat_to_waitlist_passenger (λ v. v) entry s f w).1 in
      let returns : assign_seat_to_waitlist_passenger (λ v. v) entry s f w ≡ (ok tt, w') =
        ground arith in
      (
        w',
        returns,
        ground arith,
        assign_seat_to_waitlist_passenger-Announced (λ v. v) entry s f w w' t (ground arith)
            returns,
      )

  -- A passenger who waits with the least position on the flight has got a seat as wanted.
  pub record Handed (f : ℕ) (wanted : Option ℕ) (w w' : World be) : Type 0 where
    pub entry : Waitlist
    pub seat : Seat
    pub waits : be.waitlist_rows.row w.waitlists entry.id ≡ some entry
    pub is_next : waiting_on f entry ≡ true
    pub is_first :
        (i : ℕ) (d : Waitlist)
        → be.waitlist_rows.row w.waitlists i ≡ some d
        → waiting_on f d ≡ true
        → entry.position ≤ d.position
    pub there : be.seat_rows.row w.seats seat.id ≡ some seat
    pub fits : wanted_seat f wanted seat ≡ true
    pub announced : Announced (λ v. v) entry seat.id f w w'

  module _ (f : ℕ) (wanted : Option ℕ) (e : Waitlist) (x : Seat) where
    process_waitlist_within_lock-Handed :
        AlwaysWrites be
        → (w : World be) → be.waitlist_rows.row w.waitlists e.id ≡ some e
        → waiting_on f e ≡ true
        → be.seat_rows.row w.seats x.id ≡ some x
        → wanted_seat f wanted x ≡ true
        → NoneBooked be.db f w.tables
        → WaitersStored be.db f w.tables
        → (w' : World be) × (process_waitlist_within_lock (λ v. v) f wanted w ≡ (ok tt, w'))
          × Handed f wanted w w'
    unfolding process_waitlist_within_lock
    process_waitlist_within_lock-Handed writes w waits next there fits none_booked stored_waiters =
        let t = w.waitlists in
        elim (Option-cases (be.waitlist_rows.find_least (λ d. d.position) (waiting_on f) t)) [
          | inl empty ↦ absurd (
              ground (
                arith,
                be.waitlist_rows.find_least-none (λ d. d.position) (waiting_on f) t e.id e empty
                    waits,
              ))
          | inr (d, first) ↦
              elim (Option-cases (be.seat_rows.find_one (wanted_seat f wanted) w.seats)) [
                | inl full ↦ absurd (
                    ground (
                      arith,
                      be.seat_rows.find_one-none (wanted_seat f wanted) w.seats x.id x full there,
                    ))
                | inr (s, found) ↦
                    let (at, waiting) =
                      be.waitlist_rows.find_least-some (λ d. d.position) (waiting_on f) t d first in
                    let (stored, as_wanted) =
                      be.seat_rows.find_one-some (wanted_seat f wanted) w.seats s found in
                    let gives =
                      assign_transaction-current {db = be.db} d s.id f w.clock w.clock w.tables s
                        stored (wanted_seat-is_available f wanted s as_wanted)
                        (λ i c held own on. none_booked i d.id c d held at waiting own on)
                        (stored_waiters d.id d at waiting) in
                    let (w', returns, ticks, announced) =
                      assign_seat_to_waitlist_passenger-done writes d s.id f w gives in
                    (
                      w',
                      ground arith,
                      record {
                        entry = d;
                        seat = s;
                        waits = at;
                        is_next = waiting;
                        is_first = λ i q held waits'.
                            be.waitlist_rows.find_least-le (λ d. d.position) (waiting_on f) t d i q
                              first held waits';
                        there = stored;
                        fits = as_wanted;
                        announced = announced;
                      },
                    )
              ]
        ]

    pub process_waitlist-Handed :
        AlwaysGrants be
        → (w : World be) → be.waitlist_rows.row w.waitlists e.id ≡ some e
        → waiting_on f e ≡ true
        → be.seat_rows.row w.seats x.id ≡ some x
        → wanted_seat f wanted x ≡ true
        → NoneBooked be.db f w.tables
        → WaitersStored be.db f w.tables
        → (w' : World be) × (process_waitlist (λ v. v) f wanted w ≡ (ok tt, w'))
          × Handed f wanted w w'
    unfolding process_waitlist Redis.acquire_lock Redis.and_release_lock
    process_waitlist-Handed grants w waits next there fits none_booked stored_waiters =
        let (l, got) = grants.granted (RedisKey.waitlist_lock f) 5000 w.clock w.locks in
        let (u, h, d) =
          process_waitlist_within_lock-Handed
            (AlwaysGrants-AlwaysWrites grants l (RedisKey.waitlist_lock f)) (record w { locks = l })
            waits next there fits none_booked stored_waiters in
        let (l', gone) = grants.released (RedisKey.waitlist_lock f) u.clock u.locks in
        (
          record u { locks = l' },
          ground arith,
          record {
            entry = d.entry;
            seat = d.seat;
            waits = d.waits;
            is_next = d.is_next;
            is_first = d.is_first;
            there = d.there;
            fits = d.fits;
            announced = record {
              tables = d.announced.tables;
              hold_key = d.announced.hold_key;
              events = d.announced.events;
            };
          },
        )
