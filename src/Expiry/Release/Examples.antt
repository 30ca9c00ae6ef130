-- ===== src/Expiry/Release/Examples.antt =====
-- The theorems about the release of a seat at concrete states.
use mathlib.Core.Option
use sky_high_core.Common.{[], ℕ, none, some, true, false, ◌≡◌, ◌≢◌, refl}
use sky_high_core.Domain.Enums.{SeatStatus, CheckInStatus, WaitlistStatus}
use sky_high_core.Domain.Errors.{ok, err, lock_failed}
use sky_high_core.Platform.World.{World}
use sky_high_core.Platform.Backend.{Backend}
use sky_high_core.Platform.Memory.Server.{memory}
use sky_high_core.Redis
use sky_high_core.Seat
use sky_high_core.Samples.{
  no_rows, one_row, seat_of, check_in_of, entry_of, hold_of, no_keys, world_of, memory_grants,
}
use sky_high_core.Expiry.Release.{
  is_running, release_transaction, release_seat_within_lock, release_seat, sweep_expired_holds,
  mark_waitlist_entry_expired,
}
use sky_high_core.Expiry.Release.Sweep.{swept, sweep_expired_holds-swept}
use sky_high_core.Expiry.Release.Once.{release_seat_once}

-- The hold of passenger 8, taken at 1000, is over; it came from the waitlist.
abbrev stale : World memory
stale =
    world_of (one_row 5 (seat_of SeatStatus.held (some 8) (some 1000)))
      (one_row 3 (check_in_of CheckInStatus.in_progress))
      (one_row 2 (entry_of WaitlistStatus.assigned)) no_keys 121001

abbrev after : World memory
after = (release_seat (λ w. w) 5 stale).1

stale_releases : release_seat (λ w. w) 5 stale ≡ (ok true, after)
unfolding release_seat release_seat_within_lock is_running release_transaction
    mark_waitlist_entry_expired Redis.acquire_lock Redis.and_release_lock Redis.del
    Seat.invalidate_cache
stale_releases = refl

release_seat_once_example : release_seat (λ w. w) 5 after ≢ (ok true, stale)
release_seat_once_example =
    release_seat_once (λ w. w) (λ w. w) 5 stale after after stale stale_releases refl

abbrev running : World memory
running =
    world_of (one_row 5 (seat_of SeatStatus.held (some 8) (some 1000))) no_rows no_rows (hold_of 8)
      5000

running_stays : release_seat (λ w. w) 5 running ≡ (ok false, (release_seat (λ w. w) 5 running).1)
unfolding release_seat release_seat_within_lock is_running Redis.acquire_lock Redis.and_release_lock
running_stays = refl

-- Locks that cannot be released any more.
abbrev forgetful : Backend
forgetful = record memory {
  locks = record memory.locks { release = λ k t s. none };
  set-none = λ k v ttl t s key l rejected. refl;
  del-none = λ t k s key l rejected. refl;
}

abbrev stuck : World forgetful
stuck = record {
  tables = stale.tables;
  redis = no_keys;
  locks = tt;
  clock = 121001;
  saving = [];
  events = stale.events;
  metrics = stale.metrics;
}

stuck_fails : release_seat (λ w. w) 5 stuck ≡ (err lock_failed, (release_seat (λ w. w) 5 stuck).1)
unfolding release_seat release_seat_within_lock is_running release_transaction
    mark_waitlist_entry_expired Redis.acquire_lock Redis.and_release_lock Redis.del
    Seat.invalidate_cache
stuck_fails = refl

sweep_expired_holds-swept_example :
    (w' : World memory) × (sweep_expired_holds (λ v. v) stale ≡ (ok tt, w'))
    × ((i : ℕ)
        → memory.seat_rows.row w'.seats i
          ≡ Option.map (swept 121001) (memory.seat_rows.row stale.seats i))
sweep_expired_holds-swept_example = sweep_expired_holds-swept memory_grants stale
