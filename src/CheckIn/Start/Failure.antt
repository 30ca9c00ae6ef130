-- ===== src/CheckIn/Start/Failure.antt =====
-- What `startCheckIn` leaves behind when it throws.
use sky_high_core.Common.{◌≡◌}
use sky_high_core.Domain.Entities.{CheckIn}
use sky_high_core.Platform.Backend.{Backend}
use sky_high_core.Platform.World.{World}
use sky_high_core.Redis
use sky_high_core.Seat

module _ {be : Backend} where
  -- Nothing was written by the request itself: the tables and Redis are as it found them, or as
  -- the others left them.
  pub data IsUntouched (meanwhile : World be → World be) (w w' : World be) : Type 0 where
    refused : w'.tables ≡ w.tables → w'.redis ≡ w.redis → IsUntouched meanwhile w w'
    rolled_back :
        (l : be.locks.State)
        → w'.tables ≡ (meanwhile (record w { locks = l })).tables
        → w'.redis ≡ (meanwhile (record w { locks = l })).redis
        → IsUntouched meanwhile w w'
