-- ===== src/CheckIn/Cancel/Stale.antt =====
-- `cancelCheckIn` for a check-in that is cancelled already.
use sky_high_core.Common.{ℕ, ◌≡◌, ◌≢◌, refl, inl, inr, some, false, ◌==◌, ==-refl, arith}
use sky_high_core.Domain.Enums.{SeatStatus, CheckInStatus}
use sky_high_core.Domain.Entities.{CheckIn, Seat}
use sky_high_core.Domain.Errors.{ok, Result-cases}
use sky_high_core.Domain.Dtos.{CheckInCancelledResponse}
use sky_high_core.Platform.Backend.{Backend, AlwaysWrites}
use sky_high_core.Platform.World.{World}
use sky_high_core.CheckIn.Steps.Forget.{forget_hold_lem}
use sky_high_core.CheckIn.Steps.Find.{find_check_in_or_throw-own}
use sky_high_core.CheckIn.Cancel.{has_departed, freed, cancel_transaction, cancel_check_in}
use sky_high_core.CheckIn.Cancel.Effects.{cancel_transaction_lem, cancel_check_in-Cancelled}

module _ {be : Backend} (c : CheckIn) (w : World be) where
  -- A passenger's cancellation returns while the flight has not departed, whatever the status.
  cancel_check_in-returns :
      AlwaysWrites be
      → be.check_in_rows.row w.check_ins c.id ≡ some c
      → has_departed (be.flight_rows.find_one (λ f. f.id == c.flight_id) w.flights) ≡ false
      → (r : CheckInCancelledResponse) × (w' : World be) × (cancel_check_in
            (λ v. v)
            c.id
            c.passenger_id
            w
          ≡ (ok r, w'))
  unfolding cancel_check_in
  cancel_check_in-returns writes stored before =
      elim (Result-cases (cancel_check_in (λ v. v) c.id c.passenger_id w)) [
        | inl (r, w', e) ↦ (r, w', e)
        | inr (x, w', e) ↦
            let found = find_check_in_or_throw-own c.id c.passenger_id w c stored refl in
            let law = be.transaction_law (Unit {0}) (cancel_transaction c) w.tables in
            let ends = cancel_transaction_lem c w.tables in
            let v : World be = record w { tables = (cancel_transaction c w.tables).1 } in
            let done = forget_hold_lem writes c.seat_id c.flight_id v in absurd (ground arith)
      ]

  -- A check-in that is CANCELLED already, and whose seat another passenger has CONFIRMED since, can
  -- be cancelled again while the flight has not departed, if Redis takes every write and nothing
  -- runs beside the call: it returns and the other's seat is AVAILABLE with no holder.
  pub cancel_check_in-stale :
      (s q : ℕ) (seat : Seat)
      → AlwaysWrites be
      → be.check_in_rows.row w.check_ins c.id ≡ some c
      → c.status ≡ CheckInStatus.cancelled
      → c.seat_id ≡ some s
      → be.seat_rows.row w.seats s ≡ some seat
      → seat.status ≡ SeatStatus.confirmed
      → seat.held_by ≡ some q
      → q ≢ c.passenger_id
      → has_departed (be.flight_rows.find_one (λ f. f.id == c.flight_id) w.flights) ≡ false
      → (r : CheckInCancelledResponse) × (w' : World be) × (cancel_check_in
            (λ v. v)
            c.id
            c.passenger_id
            w
          ≡ (ok r, w'))
        × (be.seat_rows.row w'.seats s ≡ some (freed seat))
  cancel_check_in-stale s q seat writes stored over at taken is_confirmed holder other before =
      let (r, w', e) = cancel_check_in-returns writes stored before in
      let (d, found, _, _, done) =
        cancel_check_in-Cancelled (λ v. v) c.id c.passenger_id w w' r e in
      (r, w', e, ground (arith, ==-refl s, done.tables.seats s))
