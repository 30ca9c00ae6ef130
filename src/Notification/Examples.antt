-- ===== src/Notification/Examples.antt =====
-- The notification of a passenger who waited, where the service is down.
use sky_high_core.Common.{none, ◌≡◌, ◌⊎◌, refl}
use sky_high_core.Domain.Enums.{SeatStatus, WaitlistStatus}
use sky_high_core.Domain.Errors.{ok}
use sky_high_core.Platform.World.{World}
use sky_high_core.Platform.Memory.Server.{memory}
use sky_high_core.Samples.{no_rows, one_row, seat_of, entry_of, no_keys, world_of}
use sky_high_core.Redis
use sky_high_core.Seat
use sky_high_core.Audit
use sky_high_core.CheckIn.Start.{insert_check_in, new_check_in}
use sky_high_core.Waitlist.Assign.{
  assign_transaction, assign_seat_to_waitlist_passenger, process_waitlist_within_lock,
  process_waitlist,
}
use sky_high_core.Notification.{NotificationRequest, Reply, failure}
use sky_high_core.Notification.Delivery.{Told, process_waitlist-Told}

abbrev down : NotificationRequest → Reply
down request = failure "timeout"

abbrev vacated : World memory
vacated =
    world_of (one_row 5 (seat_of SeatStatus.available none none)) no_rows
      (one_row 2 (entry_of WaitlistStatus.waiting)) no_keys 2000

abbrev after : World memory
after = (process_waitlist (λ w. w) 1 none vacated).1

vacated_serves : process_waitlist (λ w. w) 1 none vacated ≡ (ok tt, after)
unfolding process_waitlist process_waitlist_within_lock assign_seat_to_waitlist_passenger
    assign_transaction insert_check_in new_check_in Redis.acquire_lock Redis.and_release_lock
    Redis.set_seat_hold Redis.set Redis.del Seat.invalidate_cache Audit.log_with_transaction
vacated_serves = refl

process_waitlist-Told_example :
    (after ≡ vacated)
    ⊎ ((l : memory.locks.State) × let u = record vacated { locks = l } in Told down 1 u u after)
process_waitlist-Told_example =
    process_waitlist-Told down (λ w. w) 1 none vacated after vacated_serves
