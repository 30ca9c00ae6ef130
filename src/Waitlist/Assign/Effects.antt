-- ===== src/Waitlist/Assign/Effects.antt =====
-- What a committed assignment has done.
use sky_high_core.Common.{
  ℕ, ◌≡◌, refl, ◌⊎◌, inl, inr, none, some, Bool, true, false, ◌∷◌, ◌==◌, ==-refl, if◌then◌else◌,
  arith, Option-cases,
}
use sky_high_core.Domain.Enums.{SeatStatus, is_available}
use sky_high_core.Domain.Entities.{Seat, CheckIn, Waitlist, same_booking}
use sky_high_core.Domain.Errors.{ok, err, Exception, unique_violation, Result-cases}
use sky_high_core.Domain.Dtos.{Event, RedisKey, RedisValue}
use sky_high_core.Platform.Table.{changed_at, affected_by_key, update_by_key, update_by_id}
use sky_high_core.Platform.Backend.{Backend, Database, Tables}
use sky_high_core.Platform.World.{World}
use sky_high_core.Redis
use sky_high_core.Redis.Ttl
use sky_high_core.Audit
use sky_high_core.Seat
use sky_high_core.CheckIn.Steps.Announce.{announce_hold-cases}
use sky_high_core.CheckIn.Start.{held_seat, new_check_in, insert_check_in}
use sky_high_core.Waitlist.Assign.{
  assigned, assigned_row, assign_transaction, assign_seat_to_waitlist_passenger,
}

module _ {db : Database} (entry : Waitlist) (s f held_at created_at : ℕ) (t t' : Tables db) where
  -- The seat was available, and the entry's passenger holds it now; the entry is ASSIGNED; there is
  -- a new check-in IN_PROGRESS, the passenger's only one on the flight. No other row has changed.
  pub record Assigned : Type 0 where
    pub seat : Seat
    pub was : db.seat_rows.row t.seats s ≡ some seat
    pub was_available : seat.status ≡ SeatStatus.available
    pub seats :
        (i : ℕ)
        → db.seat_rows.row t'.seats i
          ≡ changed_at (held_seat entry.passenger_id held_at) (some s) (db.seat_rows.row t.seats) i
    pub entries :
        (i : ℕ)
        → db.waitlist_rows.row t'.waitlists i
          ≡ changed_at assigned (some entry.id) (db.waitlist_rows.row t.waitlists) i
    pub check_in : CheckIn
    pub booking : check_in ≡ new_check_in check_in.id entry.passenger_id f s created_at
    pub is_new : db.check_in_rows.row t.check_ins check_in.id ≡ none
    pub is_only :
        (i : ℕ) (q : CheckIn)
        → db.check_in_rows.row t.check_ins i ≡ some q
        → same_booking check_in q ≡ false
    pub check_ins :
        (i : ℕ)
        → db.check_in_rows.row t'.check_ins i
          ≡ (if i == check_in.id then some check_in else db.check_in_rows.row t.check_ins i)
    pub audit_logs : t'.audit_logs ≡ assigned_row entry f s check_in.id ∷ t.audit_logs

  pub assign_transaction-Assigned :
      assign_transaction entry s f held_at created_at t ≡ (ok true, t') → Assigned
  unfolding assign_transaction insert_check_in Audit.log_with_transaction
  assign_transaction-Assigned h =
      let seen = affected_by_key db.seat_rows s (λ x. is_available x.status) t.seats in
      let row =
        new_check_in (db.check_in_rows.fresh t.check_ins) entry.passenger_id f s created_at in
      let law = db.check_in_rows.insert_law row t.check_ins in
      elim (Option-cases (db.seat_rows.row t.seats s)) [
        | inl gone ↦ absurd (ground arith)
        | inr (seat, was) ↦ record {
          seat = seat;
          was = was;
          was_available = ground arith;
          seats = λ i. ground (
            arith,
            update_by_key db.seat_rows s (λ x. is_available x.status)
                (held_seat entry.passenger_id held_at) t.seats i (λ r. refl),
          );
          entries = λ i.
              ground
                (arith, update_by_id db.waitlist_rows entry.id assigned t.waitlists i (λ r. refl));
          check_in = row;
          booking = refl;
          is_new = ground (arith, db.check_in_rows.row-fresh t.check_ins);
          is_only = λ i q at.
              ground (arith, db.check_in_rows.find_one-none (same_booking row) t.check_ins i q);
          check_ins = λ i. ground (arith, db.check_in_rows.row-added row t.check_ins i);
          audit_logs = ground arith;
        }
      ]

  pub assign_transaction-false :
      assign_transaction entry s f held_at created_at t ≡ (ok false, t') → t' ≡ t
  unfolding assign_transaction insert_check_in Audit.log_with_transaction
  assign_transaction-false h = ground arith

  -- A check-in that the passenger has on the flight already makes the transaction fail.
  pub assign_transaction-clash :
      (i : ℕ) (q : CheckIn) (seat : Seat)
      → db.seat_rows.row t.seats s ≡ some seat
      → seat.status ≡ SeatStatus.available
      → db.check_in_rows.row t.check_ins i ≡ some q
      → q.passenger_id ≡ entry.passenger_id
      → q.flight_id ≡ f
      → (assign_transaction entry s f held_at created_at t).0 ≡ err unique_violation
  unfolding assign_transaction insert_check_in new_check_in Audit.log_with_transaction
  assign_transaction-clash i q seat was open_seat at own on =
      let seen = affected_by_key db.seat_rows s (λ x. is_available x.status) t.seats in
      let row =
        new_check_in (db.check_in_rows.fresh t.check_ins) entry.passenger_id f s created_at in
      let law = db.check_in_rows.insert_law row t.check_ins in
      ground (
        arith,
        ==-refl f,
        ==-refl entry.passenger_id,
        db.check_in_rows.find_one-none (same_booking row) t.check_ins i q,
      )

module _ {be : Backend} (meanwhile : World be → World be) (entry : Waitlist) (s f : ℕ)
    (w w' : World be) where
  -- The hold key and the events that go with an assignment.
  pub record Announced : Type 0 where
    pub tables : Assigned entry s f w.clock (meanwhile w).clock (meanwhile w).tables w'.tables
    pub hold_key :
        (t : ℕ)
        → be.redis.get t (RedisKey.seat_hold s) w'.redis ≡ (
            if be.redis.is_live (meanwhile w).clock Ttl.seat_hold t
            then some (RedisValue.passenger entry.passenger_id)
            else none)
    pub events :
        w'.events
        ≡ Event.waitlist_notification entry.passenger_id f s entry.id ∷ (meanwhile w).events

  pub assign_seat_to_waitlist_passenger-Announced :
      (t : Tables be.db)
      → assign_transaction {db = be.db} entry s f w.clock (meanwhile w).clock (meanwhile w).tables
        ≡ (ok true, t)
      → assign_seat_to_waitlist_passenger meanwhile entry s f w ≡ (ok tt, w')
      → Announced
  unfolding assign_seat_to_waitlist_passenger Redis.set_seat_hold Redis.set Seat.invalidate_cache
      Redis.del
  assign_seat_to_waitlist_passenger-Announced t e h =
      let v = meanwhile w in
      let law =
        be.transaction_law Bool (assign_transaction {db = be.db} entry s f w.clock v.clock)
          v.tables in
      elim (announce_hold-cases be entry.passenger_id f s v.clock v.redis) [
        | inl told ↦ record {
          tables =
              assign_transaction-Assigned entry s f w.clock v.clock v.tables w'.tables
                (ground arith);
          hold_key = λ i. ground (arith, told.hold_key i, told.set, told.del);
          events = ground (arith, told.set, told.del);
        }
        | inr rejected ↦ absurd (ground (arith, rejected.cause))
      ]

  -- An attempt ends with the seat assigned, or with the tables as the others left them.
  pub assign_seat_to_waitlist_passenger-ends :
      assign_seat_to_waitlist_passenger meanwhile entry s f w ≡ (ok tt, w')
      → Announced ⊎ (w' ≡ meanwhile w)
  unfolding assign_seat_to_waitlist_passenger
  assign_seat_to_waitlist_passenger-ends h =
      let v = meanwhile w in
      let body = assign_transaction {db = be.db} entry s f w.clock v.clock in
      let law = be.transaction_law Bool body v.tables in
      elim (Result-cases (assign_transaction {db = be.db} entry s f w.clock v.clock v.tables)) [
        | inl (true, t, e) ↦ inl (assign_seat_to_waitlist_passenger-Announced t e h)
        | inl (false, t, e) ↦
            let same = assign_transaction-false entry s f w.clock v.clock v.tables t e in
            inr (ground arith)
        | inr (x, t, e) ↦ absurd (ground arith)
      ]

  -- Whether it fails: the exception is the transaction's, and the tables are rolled back.
  pub assign_seat_to_waitlist_passenger-err :
      (x : Exception)
      → (assign_transaction {db = be.db} entry s f w.clock
          (meanwhile w).clock
          (meanwhile w).tables).0
        ≡ err x
      → assign_seat_to_waitlist_passenger meanwhile entry s f w ≡ (err x, meanwhile w)
  unfolding assign_seat_to_waitlist_passenger
  assign_seat_to_waitlist_passenger-err x h =
      let v = meanwhile w in
      let law =
        be.transaction_law Bool (assign_transaction {db = be.db} entry s f w.clock v.clock)
          v.tables in
      ground arith
