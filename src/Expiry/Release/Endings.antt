-- ===== src/Expiry/Release/Endings.antt =====
-- Every way in which `releaseSeat` ends.
use sky_high_core.Common.{ℕ, ◌≡◌, Bool, true, false}
use sky_high_core.Domain.Errors.{Result, ok, err, lock_failed}
use sky_high_core.Platform.Backend.{Backend}
use sky_high_core.Platform.World.{World}
use sky_high_core.CheckIn.Start.Failure.{IsUntouched}
use sky_high_core.Expiry.Release.Effects.{HoldExpired}

module _ {be : Backend} (meanwhile : World be → World be) (s : ℕ) (w : World be) where
  -- What each result says of the state after the call.
  abbrev pub ReleaseEnds : Result Bool × World be → Type 0
  ReleaseEnds (ok true, w') =
      (l : be.locks.State) × HoldExpired s w.clock w.tables (meanwhile (record w { locks = l })) w'
  ReleaseEnds (ok false, w') = IsUntouched meanwhile w w'
  ReleaseEnds (err x, w') = x ≡ lock_failed
