-- ===== src/System/Bookings.antt =====
-- Check-ins by passenger and flight, over the steps of the system.
use sky_high_core.Common.{◌≡◌, refl, some, true, false, ==-refl, if◌then◌else◌, arith}
use sky_high_core.Domain.Entities.{CheckIn, same_booking}
use sky_high_core.Platform.Table.{update_by_id}
use sky_high_core.Platform.Backend.{Database, Tables}
use sky_high_core.CheckIn.Start.Held.{hold_transaction-SeatTaken}
use sky_high_core.CheckIn.Confirm.{completed, awaiting_payment}
use sky_high_core.CheckIn.Confirm.Effects.{complete_transaction-SeatConfirmed}
use sky_high_core.CheckIn.Cancel.{cancelled}
use sky_high_core.CheckIn.Cancel.Effects.{cancel_transaction-SeatFreed}
use sky_high_core.Expiry.Release.{in_progress_on}
use sky_high_core.Expiry.Release.Effects.{release_transaction-Released}
use sky_high_core.Waitlist.Assign.Effects.{assign_transaction-Assigned}
use sky_high_core.System.{
  Step, hold, complete, await_fee, cancel, release, assign, expire, join, leave, log_later, Steps,
  stay, ◌then◌,
}
use sky_high_core.System.Distinct.{
  Distinct, Distinct-Keeps, Distinct-insert, Keeps-map, Keeps-changed_at,
}

abbrev pub OneBooking : (db : Database) → Tables db → Type 0
OneBooking db t =
    Distinct (λ c. c.passenger_id) (λ c. c.flight_id) (db.check_in_rows.row t.check_ins)

-- Whoever has a booking that clashes with none has no other.
not_booked :
    (c q : CheckIn)
    → same_booking c q ≡ false
    → q.passenger_id ≡ c.passenger_id
    → q.flight_id ≡ c.flight_id
    → ⊥
not_booked c q apart p f = ground (arith, ==-refl c.passenger_id, ==-refl c.flight_id)

module _ {db : Database} (t t' : Tables db) where
  pub Step-OneBooking : Step db t t' → OneBooking db t → OneBooking db t'
  Step-OneBooking (hold p f s held_at created_at c h) d =
      let taken = hold_transaction-SeatTaken p f s held_at created_at c t t' h in
      Distinct-insert (λ c. c.passenger_id) (λ c. c.flight_id) (db.check_in_rows.row t.check_ins)
        (db.check_in_rows.row t'.check_ins) c.id c taken.check_ins
        (λ i q at. not_booked c q (taken.is_only i q at)) d
  Step-OneBooking (complete c weight payment h) d =
      let done = complete_transaction-SeatConfirmed c weight payment t t' h in
      Distinct-Keeps (λ c. c.passenger_id) (λ c. c.flight_id) (db.check_in_rows.row t.check_ins)
        (db.check_in_rows.row t'.check_ins)
        (Keeps-changed_at (λ c. c.passenger_id) (λ c. c.flight_id) (completed done.numeral payment)
          (some c.id) (db.check_in_rows.row t.check_ins) (db.check_in_rows.row t'.check_ins)
          (λ r. (refl, refl)) done.check_ins)
        d
  Step-OneBooking (await_fee id weight fee h) d = rw h (
      Distinct-Keeps (λ c. c.passenger_id) (λ c. c.flight_id) (db.check_in_rows.row t.check_ins) _
        (Keeps-changed_at (λ c. c.passenger_id) (λ c. c.flight_id) (awaiting_payment weight fee)
          (some id) (db.check_in_rows.row t.check_ins) _ (λ r. (refl, refl))
          (λ i.
            update_by_id db.check_in_rows id (awaiting_payment weight fee) t.check_ins i
              (λ r. refl)))
        d)
  Step-OneBooking (cancel c h) d = rw h (
      Distinct-Keeps (λ c. c.passenger_id) (λ c. c.flight_id) (db.check_in_rows.row t.check_ins) _
        (Keeps-changed_at (λ c. c.passenger_id) (λ c. c.flight_id) cancelled (some c.id)
          (db.check_in_rows.row t.check_ins) _ (λ r. (refl, refl))
          (cancel_transaction-SeatFreed c t).check_ins)
        d)
  Step-OneBooking (release seat h) d =
      Distinct-Keeps (λ c. c.passenger_id) (λ c. c.flight_id) (db.check_in_rows.row t.check_ins)
        (db.check_in_rows.row t'.check_ins)
        (Keeps-map (λ c. c.passenger_id) (λ c. c.flight_id)
          (λ c. if in_progress_on seat.id c then cancelled c else c)
          (db.check_in_rows.row t.check_ins) (db.check_in_rows.row t'.check_ins)
          (λ r.
            elim (in_progress_on seat.id r)
              as (λ b.
                ((if b then cancelled r else r).passenger_id ≡ r.passenger_id)
                × ((if b then cancelled r else r).flight_id ≡ r.flight_id)) [
                  | true ↦ (refl, refl)
                  | false ↦ (refl, refl)
                ])
          (release_transaction-Released seat t t' h).check_ins)
        d
  Step-OneBooking (assign e s f held_at created_at h) d =
      let done = assign_transaction-Assigned e s f held_at created_at t t' h in
      Distinct-insert (λ c. c.passenger_id) (λ c. c.flight_id) (db.check_in_rows.row t.check_ins)
        (db.check_in_rows.row t'.check_ins) done.check_in.id done.check_in done.check_ins
        (λ i q at. not_booked done.check_in q (done.is_only i q at)) d
  Step-OneBooking (expire e at h) d = rw h d
  Step-OneBooking (join e rows added known h) d = rw h d
  Step-OneBooking (leave e at h) d = rw h d
  Step-OneBooking (log_later row h) d = rw h d

pub Steps-OneBooking :
    {db : Database} (t t' : Tables db) → Steps db t t' → OneBooking db t → OneBooking db t'
Steps-OneBooking t t' (stay e) d = rw e d
Steps-OneBooking t t' (◌then◌ {u = u} ss s) d = Step-OneBooking u t' s (Steps-OneBooking t u ss d)
