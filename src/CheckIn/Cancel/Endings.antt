-- ===== src/CheckIn/Cancel/Endings.antt =====
-- Every way in which `cancelCheckIn` ends.
use sky_high_core.Common.{ℕ, ◌≡◌, ◌⊎◌, inl, inr, some, false, ◌==◌}
use sky_high_core.Domain.Entities.{CheckIn}
use sky_high_core.Domain.Errors.{Result, ok, err, Result-cases}
use sky_high_core.Domain.Dtos.{CheckInCancelledResponse}
use sky_high_core.Platform.Backend.{Backend}
use sky_high_core.Platform.World.{World}
use sky_high_core.CheckIn.Cancel.{has_departed, cancel_check_in}
use sky_high_core.CheckIn.Cancel.Effects.{
  Cancelled, Interrupted, cancel_check_in-Cancelled, cancel_check_in-err,
}

module _ {be : Backend} (meanwhile : World be → World be) (id p : ℕ) (w : World be) where
  -- What each result says of the state after the call.
  abbrev pub CancelEnds : Result CheckInCancelledResponse × World be → Type 0
  CancelEnds (ok r, w') =
      (c : CheckIn) × (be.check_in_rows.row w.check_ins id ≡ some c)
      × (c.passenger_id ≡ p)
      × (has_departed (be.flight_rows.find_one (λ f. f.id == c.flight_id) w.flights) ≡ false)
      × Cancelled c r w (meanwhile w) w'
  CancelEnds (err x, w') = (w' ≡ w) ⊎ Interrupted id p w (meanwhile w) x w'

  -- If `cancelCheckIn` throws, then nothing has changed, or the exception is a write that Redis
  -- rejected after the commit: then the passenger's own check-in has a seat, the transaction did
  -- what it does when the call returns, and no event was emitted. If it returns, it found the
  -- passenger's own check-in on a flight that has not departed and, whatever others did before its
  -- transaction, the seat of that check-in, if any, is AVAILABLE with no holder and the check-in
  -- CANCELLED, the transaction changed no other seat or check-in, no flight and no waitlist entry,
  -- the hold key of the seat is gone, and the waitlist of the flight was asked for.
  pub cancel_check_in-CancelEnds : CancelEnds (cancel_check_in meanwhile id p w)
  cancel_check_in-CancelEnds = elim (Result-cases (cancel_check_in meanwhile id p w)) [
    | inl (r, w', h) ↦ rw h (cancel_check_in-Cancelled meanwhile id p w w' r h)
    | inr (x, w', h) ↦ rw h (cancel_check_in-err meanwhile id p w w' x h)
  ]
