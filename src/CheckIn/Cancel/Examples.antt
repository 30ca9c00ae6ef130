-- ===== src/CheckIn/Cancel/Examples.antt =====
-- The theorems about `cancelCheckIn` at concrete requests.
use sky_high_core.Common.{ℕ, some, ◌≡◌, ◌≢◌, refl, arith}
use sky_high_core.Domain.Enums.{SeatStatus, CheckInStatus}
use sky_high_core.Domain.Errors.{ok, err, domain, check_in_not_found}
use sky_high_core.Domain.Dtos.{CheckInCancelledResponse}
use sky_high_core.Platform.World.{World}
use sky_high_core.Platform.Memory.Server.{memory}
use sky_high_core.Redis
use sky_high_core.Seat
use sky_high_core.Audit
use sky_high_core.Samples.{no_rows, one_row, seat_of, check_in_of, no_keys, world_of, memory_writes}
use sky_high_core.CheckIn.Steps.{find_check_in_or_throw, forget_hold}
use sky_high_core.CheckIn.Cancel.{freed, free_seat, cancel_transaction, cancel_check_in}
use sky_high_core.CheckIn.Cancel.Stale.{cancel_check_in-stale}
use sky_high_core.CheckIn.Cancel.Endings.{CancelEnds, cancel_check_in-CancelEnds}

abbrev checked_in : World memory
checked_in =
    world_of (one_row 5 (seat_of SeatStatus.confirmed (some 7) (some 1000)))
      (one_row 3 (check_in_of CheckInStatus.completed)) no_rows no_keys 50000

abbrev answer : CheckInCancelledResponse
answer = record { id = 3; status = CheckInStatus.cancelled; cancelled_at = 50000 }

abbrev after : World memory
after = (cancel_check_in (λ w. w) 3 7 checked_in).1

checked_in_cancels : cancel_check_in (λ w. w) 3 7 checked_in ≡ (ok answer, after)
unfolding cancel_check_in find_check_in_or_throw cancel_transaction free_seat forget_hold Redis.del
    Seat.invalidate_cache Audit.log_with_transaction
checked_in_cancels = refl

checked_in_stays :
    cancel_check_in (λ w. w) 3 8 checked_in
    ≡ (err (domain check_in_not_found), (cancel_check_in (λ w. w) 3 8 checked_in).1)
unfolding cancel_check_in find_check_in_or_throw
checked_in_stays = refl

-- Passenger 7 has cancelled, and passenger 8 has confirmed the seat since.
abbrev passed_on : World memory
passed_on =
    world_of (one_row 5 (seat_of SeatStatus.confirmed (some 8) (some 20000)))
      (one_row 3 (check_in_of CheckInStatus.cancelled)) no_rows no_keys 50000

others : ◌≢◌ {A = ℕ} 8 7
others e = omega arith

cancel_check_in-stale_example :
    (r : CheckInCancelledResponse) × (w' : World memory) × (cancel_check_in (λ w. w) 3 7 passed_on
      ≡ (ok r, w'))
    × (memory.seat_rows.row w'.seats 5
        ≡ some (freed (seat_of SeatStatus.confirmed (some 8) (some 20000))))
cancel_check_in-stale_example =
    cancel_check_in-stale (check_in_of CheckInStatus.cancelled) passed_on 5 8
      (seat_of SeatStatus.confirmed (some 8) (some 20000)) memory_writes refl refl refl refl refl
      refl others refl

cancel_check_in-CancelEnds_example :
    CancelEnds (λ w. w) 3 7 checked_in (cancel_check_in (λ w. w) 3 7 checked_in)
cancel_check_in-CancelEnds_example = cancel_check_in-CancelEnds (λ w. w) 3 7 checked_in
