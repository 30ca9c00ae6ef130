-- ===== src/Waitlist/Assign/Examples.antt =====
-- The theorems about the processing of the waitlist at concrete states.
use sky_high_core.Common.{none, some, ◌≡◌, refl, ◌⊎◌}
use sky_high_core.Domain.Enums.{SeatStatus, CheckInStatus, WaitlistStatus}
use sky_high_core.Domain.Entities.{CheckIn}
use sky_high_core.Domain.Errors.{ok, err, unique_violation}
use sky_high_core.Platform.World.{World}
use sky_high_core.Platform.Memory.Server.{memory}
use sky_high_core.Redis
use sky_high_core.Seat
use sky_high_core.Audit
use sky_high_core.Samples.{no_rows, one_row, seat_of, check_in_of, entry_of, no_keys, world_of}
use sky_high_core.CheckIn.Start.{insert_check_in, new_check_in}
use sky_high_core.Waitlist.Assign.{
  assign_transaction, assign_seat_to_waitlist_passenger, process_waitlist_within_lock,
  process_waitlist,
}
use sky_high_core.Waitlist.Assign.Serving.{Served, process_waitlist-Served}
use sky_high_core.Waitlist.Assign.Blocked.{process_waitlist_within_lock-blocked}

abbrev vacated : World memory
vacated =
    world_of (one_row 5 (seat_of SeatStatus.available none none)) no_rows
      (one_row 2 (entry_of WaitlistStatus.waiting)) no_keys 2000

abbrev after : World memory
after = (process_waitlist (λ w. w) 1 (some 5) vacated).1

vacated_serves : process_waitlist (λ w. w) 1 (some 5) vacated ≡ (ok tt, after)
unfolding process_waitlist process_waitlist_within_lock assign_seat_to_waitlist_passenger
    assign_transaction insert_check_in new_check_in Redis.acquire_lock Redis.and_release_lock
    Redis.set_seat_hold Redis.set Redis.del Seat.invalidate_cache Audit.log_with_transaction
vacated_serves = refl

process_waitlist-Served_example :
    (after ≡ vacated)
    ⊎ ((l : memory.locks.State) × let u = record vacated { locks = l } in
          Served 1 (some 5) u u after)
process_waitlist-Served_example =
    process_waitlist-Served (λ w. w) 1 (some 5) vacated after vacated_serves

-- The first in the queue has cancelled a check-in on this flight.
abbrev earlier : CheckIn
earlier = record (check_in_of CheckInStatus.cancelled) { passenger_id = 8 }

abbrev blocked : World memory
blocked =
    world_of (one_row 5 (seat_of SeatStatus.available none none)) (one_row 3 earlier)
      (one_row 2 (entry_of WaitlistStatus.waiting)) no_keys 2000

process_waitlist_within_lock-blocked_example :
    process_waitlist_within_lock (λ v. v) 1 (some 5) blocked ≡ (err unique_violation, blocked)
process_waitlist_within_lock-blocked_example =
    process_waitlist_within_lock-blocked 1 (some 5) (entry_of WaitlistStatus.waiting)
      (seat_of SeatStatus.available none none) 3 earlier blocked refl refl refl refl refl
