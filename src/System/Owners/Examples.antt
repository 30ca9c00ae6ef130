-- ===== src/System/Owners/Examples.antt =====
-- A seat that passes from passenger 7 to passenger 8.
use sky_high_core.Common.{some, ◌≡◌, refl, ◌==◌, inl, inr, arith, Bool-cases}
use sky_high_core.Domain.Enums.{SeatStatus, CheckInStatus}
use sky_high_core.Platform.World.{World}
use sky_high_core.Platform.Memory.Server.{memory}
use sky_high_core.Redis
use sky_high_core.Seat
use sky_high_core.Audit
use sky_high_core.Samples.{no_rows, one_row, seat_of, check_in_of, hold_of, world_of}
use sky_high_core.CheckIn.Steps.{find_check_in_or_throw, forget_hold}
use sky_high_core.CheckIn.Start.{
  start_check_in, validate_request, hold_seat_under_lock, hold_seat_within_lock, hold_transaction,
  cas_hold, insert_check_in, new_check_in,
}
use sky_high_core.CheckIn.Cancel.{cancel_check_in, cancel_transaction, free_seat}
use sky_high_core.System.{Moves, stay}
use sky_high_core.System.Seats.{SeatsCoherent}
use sky_high_core.System.Calls.{Run, idle, ◌next◌, starts, cancels, Run-Steps}
use sky_high_core.System.Owners.{Follows, IsVacated, owners, Run-Follows, Run-IsVacated}

abbrev held : World memory
held =
    world_of (one_row 5 (seat_of SeatStatus.held (some 7) (some 1000)))
      (one_row 3 (check_in_of CheckInStatus.in_progress)) no_rows (hold_of 7) 2000

abbrev left : World memory
left = (cancel_check_in (λ w. w) 3 7 held).1

abbrev taken : World memory
taken = (start_check_in (λ w. w) 8 1 5 left).1

quiet : Moves memory (λ w. w)
quiet w = stay refl

run : Run memory held taken
run = idle held refl next cancels (λ w. w) quiet 3 7 next starts (λ w. w) quiet 8 1 5

seats : SeatsCoherent memory.db held.tables
seats i s e = elim (Bool-cases (i == 5)) [ inl y ↦ ground arith | inr y ↦ ground arith ]

taken_by_8 : owners memory.db taken.tables 5 ≡ some 8
unfolding start_check_in validate_request hold_seat_under_lock hold_seat_within_lock
    hold_transaction cas_hold insert_check_in new_check_in Redis.acquire_lock Redis.and_release_lock
    Redis.set_seat_hold Redis.set Redis.del Seat.invalidate_cache Audit.log_with_transaction
    cancel_check_in find_check_in_or_throw cancel_transaction free_seat forget_hold
taken_by_8 = refl

Run-Follows_example : Follows (Run-Steps run)
Run-Follows_example = Run-Follows held taken run seats

Run-IsVacated_example : IsVacated 5 (Run-Steps run)
Run-IsVacated_example = Run-IsVacated held taken 5 7 8 run seats refl taken_by_8 (omega arith)
