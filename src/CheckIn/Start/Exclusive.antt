-- ===== src/CheckIn/Start/Exclusive.antt =====
-- Two calls of `startCheckIn` for one seat.
use sky_high_core.Common.{ℕ, ◌≡◌, ◌≢◌, ==-refl, arith}
use sky_high_core.Domain.Errors.{ok}
use sky_high_core.Domain.Dtos.{CheckInResponse}
use sky_high_core.Platform.Backend.{Backend}
use sky_high_core.Platform.World.{World}
use sky_high_core.CheckIn.Start.{start_check_in}
use sky_high_core.CheckIn.Start.Outcome.{start_check_in-Started}

module _ {be : Backend} (meanwhile meanwhile' : World be → World be) (p f p' f' s : ℕ)
    (w w' u u' : World be) where
  -- A seat is not given twice: if `startCheckIn` has returned for a seat, another call for the
  -- seat, whose transaction meets the seat's row as the first call left it, with any state of the
  -- locks, does not return.
  pub start_check_in_exclusive :
      (r r' : CheckInResponse)
      → start_check_in meanwhile p f s w ≡ (ok r, w')
      → ((l : be.locks.State)
          → be.seat_rows.row (meanwhile' (record u { locks = l })).seats s
            ≡ be.seat_rows.row w'.seats s)
      → start_check_in meanwhile' p' f' s u ≢ (ok r', u')
  start_check_in_exclusive r r' first stays second =
      let (l, d) = start_check_in-Started meanwhile p f s w w' r first in
      let (l', d') = start_check_in-Started meanwhile' p' f' s u u' r' second in
      ground (arith, stays l', d.taken.seats s, ==-refl s, d'.taken.was, d'.taken.was_available)
