-- ===== src/CheckIn/Start/Rebooking.antt =====
-- `startCheckIn` for a passenger who has a check-in on the flight.
use sky_high_core.Common.{ℕ, ◌≡◌, ◌≢◌, some, ==-refl, arith}
use sky_high_core.Domain.Entities.{CheckIn}
use sky_high_core.Domain.Errors.{ok}
use sky_high_core.Domain.Dtos.{CheckInResponse}
use sky_high_core.Platform.Backend.{Backend}
use sky_high_core.Platform.World.{World}
use sky_high_core.CheckIn.Start.{new_check_in, start_check_in}
use sky_high_core.CheckIn.Start.Outcome.{start_check_in-Started}

module _ {be : Backend} (meanwhile : World be → World be) (p f s : ℕ) (w w' : World be) where
  -- `startCheckIn` does not return for a passenger who has a check-in on the flight, of whatever
  -- status, that is still stored when its transaction begins, with any state of the locks.
  pub start_check_in_rebooking :
      (i : ℕ) (c : CheckIn) (r : CheckInResponse)
      → c.passenger_id ≡ p
      → c.flight_id ≡ f
      → ((l : be.locks.State)
          → be.check_in_rows.row (meanwhile (record w { locks = l })).check_ins i ≡ some c)
      → start_check_in meanwhile p f s w ≢ (ok r, w')
  unfolding new_check_in
  start_check_in_rebooking i c r own on stays h =
      let (l, d) = start_check_in-Started meanwhile p f s w w' r h in
      let clash = d.taken.is_only i c (stays l) in
      ground (arith, d.taken.booking, ==-refl p, ==-refl f)
