-- ===== src/Waitlist/Assign/Blocked.antt =====
-- The processing of a waitlist whose first passenger has a check-in.
use sky_high_core.Common.{ℕ, ◌≡◌, Option, none, some, arith}
use sky_high_core.Domain.Entities.{Seat, CheckIn, Waitlist}
use sky_high_core.Domain.Errors.{err, unique_violation}
use sky_high_core.Platform.Backend.{Backend}
use sky_high_core.Platform.World.{World}
use sky_high_core.Waitlist.Assign.{waiting_on, wanted_seat, process_waitlist_within_lock}
use sky_high_core.Waitlist.Assign.Effects.{
  assign_transaction-clash, assign_seat_to_waitlist_passenger-err,
}

-- If the passenger who is next on the waitlist has a check-in on the flight, of whatever status,
-- and a seat as wanted is available, then `processWaitlistWithinLock`, with nothing running beside
-- it, throws a unique violation and changes nothing.
pub process_waitlist_within_lock-blocked :
    {be : Backend} (f : ℕ) (wanted : Option ℕ) (e : Waitlist) (seat : Seat) (i : ℕ) (c : CheckIn)
    (w : World be)
    → be.waitlist_rows.find_least (λ x. x.position) (waiting_on f) w.waitlists ≡ some e
    → be.seat_rows.find_one (wanted_seat f wanted) w.seats ≡ some seat
    → be.check_in_rows.row w.check_ins i ≡ some c
    → c.passenger_id ≡ e.passenger_id
    → c.flight_id ≡ f
    → process_waitlist_within_lock (λ v. v) f wanted w ≡ (err unique_violation, w)
unfolding process_waitlist_within_lock
process_waitlist_within_lock-blocked {be} f none e seat i c w first found at own on =
    let (there, fits) = be.seat_rows.find_one-some (wanted_seat f none) w.seats seat found in
    let clash =
      assign_transaction-clash e seat.id f w.clock w.clock w.tables w.tables i c seat there
        (ground arith) at own on in
    let fails =
      assign_seat_to_waitlist_passenger-err (λ v. v) e seat.id f w w unique_violation clash in
    ground arith
process_waitlist_within_lock-blocked {be} f (some s) e seat i c w first found at own on =
    let (there, fits) = be.seat_rows.find_one-some (wanted_seat f (some s)) w.seats seat found in
    let clash =
      assign_transaction-clash e seat.id f w.clock w.clock w.tables w.tables i c seat there
        (ground arith) at own on in
    let fails =
      assign_seat_to_waitlist_passenger-err (λ v. v) e seat.id f w w unique_violation clash in
    ground arith
