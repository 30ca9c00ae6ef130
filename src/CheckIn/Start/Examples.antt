-- ===== src/CheckIn/Start/Examples.antt =====
-- The theorems about `startCheckIn` at concrete requests.
use sky_high_core.Common.{none, some, ◌≡◌, ◌≢◌, refl, arith}
use sky_high_core.Domain.Enums.{SeatStatus, CheckInStatus}
use sky_high_core.Domain.Errors.{ok}
use sky_high_core.Domain.Dtos.{CheckInResponse}
use sky_high_core.Platform.World.{World}
use sky_high_core.Platform.Memory.Server.{memory}
use sky_high_core.Redis
use sky_high_core.Seat
use sky_high_core.Audit
use sky_high_core.Samples.{
  memory_grants, flight, no_rows, one_row, seat_of, check_in_of, no_keys, world_of,
}
use sky_high_core.CheckIn.Start.{
  cas_hold, insert_check_in, new_check_in, hold_transaction, hold_seat_within_lock,
  hold_seat_under_lock, validate_request, start_check_in,
}
use sky_high_core.CheckIn.Start.Exclusive.{start_check_in_exclusive}
use sky_high_core.CheckIn.Start.Rebooking.{start_check_in_rebooking}
use sky_high_core.CheckIn.Start.Success.{IsOpen, start_check_in-accepts}
use sky_high_core.CheckIn.Start.Outcome.{Started, start_check_in-Started}

abbrev free : World memory
free = world_of (one_row 5 (seat_of SeatStatus.available none none)) no_rows no_rows no_keys 1000

abbrev started : CheckInResponse
started = record {
  id = 0;
  passenger_id = 7;
  flight_id = 1;
  seat_id = some 5;
  status = CheckInStatus.in_progress;
  baggage_weight = none;
  excess_fee = none;
  payment_id = none;
  hold_expires_at = some 121000;
  confirmed_at = none;
  message = none;
  created_at = 1000;
}

free_starts :
    start_check_in (λ w. w) 7 1 5 free ≡ (ok started, (start_check_in (λ w. w) 7 1 5 free).1)
unfolding start_check_in validate_request hold_seat_under_lock hold_seat_within_lock
    hold_transaction cas_hold insert_check_in new_check_in Redis.acquire_lock Redis.and_release_lock
    Redis.set_seat_hold Redis.set Redis.del Seat.invalidate_cache Audit.log_with_transaction
free_starts = refl

start_check_in-Started_example :
    (l : memory.locks.State) × Started 7 1 5 1000 started
      (record free { locks = l })
      (start_check_in (λ w. w) 7 1 5 free).1
start_check_in-Started_example =
    start_check_in-Started (λ w. w) 7 1 5 free (start_check_in (λ w. w) 7 1 5 free).1 started
      free_starts

free-IsOpen : IsOpen memory 7 1 5 flight (seat_of SeatStatus.available none none) free.tables
free-IsOpen = record {
  flies = refl;
  there = refl;
  on_flight = refl;
  is_free = refl;
  unbooked = λ i c held own on. ground arith;
  known = refl;
}

start_check_in-accepts_example :
    (r : CheckInResponse) × (w' : World memory) × (start_check_in (λ w. w) 7 1 5 free ≡ (ok r, w'))
    × Started 7 1 5 1000 r free w'
start_check_in-accepts_example =
    start_check_in-accepts 7 1 5 flight (seat_of SeatStatus.available none none) memory_grants free
      free-IsOpen

abbrev taken : World memory
taken =
    world_of (one_row 5 (seat_of SeatStatus.held (some 8) (some 900))) no_rows no_rows no_keys 1000

-- Passenger 7 has cancelled the check-in, and the seat is free again.
abbrev gave_up : World memory
gave_up =
    world_of (one_row 5 (seat_of SeatStatus.available none none))
      (one_row 3 (check_in_of CheckInStatus.cancelled)) no_rows no_keys 9000

start_check_in_rebooking_example : start_check_in (λ w. w) 7 1 5 gave_up ≢ (ok started, gave_up)
start_check_in_rebooking_example =
    start_check_in_rebooking (λ w. w) 7 1 5 gave_up gave_up 3 (check_in_of CheckInStatus.cancelled)
      started refl refl (λ l. refl)

-- Passenger 8 comes at once after passenger 7, for the same seat.
start_check_in_exclusive_example :
    start_check_in (λ w. w) 8 1 5 (start_check_in (λ w. w) 7 1 5 free).1 ≢ (ok started, free)
start_check_in_exclusive_example =
    start_check_in_exclusive (λ w. w) (λ w. w) 7 1 8 1 5 free (start_check_in (λ w. w) 7 1 5 free).1
      (start_check_in (λ w. w) 7 1 5 free).1 free started started free_starts (λ l. refl)
