-- ===== src/System/Handover/Examples.antt =====
-- The hold of passenger 7 has run out, and passenger 8 waits.
use sky_high_core.Common.{◌≡◌, refl, some, ◌==◌, arith, inl, inr, Bool-cases}
use sky_high_core.Domain.Enums.{SeatStatus, CheckInStatus, WaitlistStatus}
use sky_high_core.Domain.Errors.{ok}
use sky_high_core.Platform.World.{World}
use sky_high_core.Platform.Memory.Server.{memory}
use sky_high_core.Samples.{
  one_row, seat_of, check_in_of, entry_of, no_keys, world_of, memory_grants,
}
use sky_high_core.Expiry.Release.{handle_hold_expired}
use sky_high_core.Waitlist.Assign.{process_waitlist}
use sky_high_core.Waitlist.Assign.Success.{NoneBooked}
use sky_high_core.System.Waiters.{PassengersStored}
use sky_high_core.System.Handover.{HandedOver, handle_hold_expired-HandedOver}

abbrev run_out : World memory
run_out =
    world_of (one_row 5 (seat_of SeatStatus.held (some 7) (some 1000)))
      (one_row 3 (check_in_of CheckInStatus.in_progress))
      (one_row 2 (entry_of WaitlistStatus.waiting)) no_keys 121000

booked_elsewhere : NoneBooked memory.db 1 run_out.tables
booked_elsewhere i j c d held at waits own on = elim (Bool-cases (i == 3)) [
  | inl here ↦ elim (Bool-cases (j == 2)) [ inl y ↦ ground arith | inr y ↦ ground arith ]
  | inr there ↦ ground arith
]

passenger_stored : PassengersStored memory.db run_out.tables
passenger_stored j d at = elim (Bool-cases (j == 2)) [ inl y ↦ ground arith | inr y ↦ ground arith ]

handle_hold_expired-HandedOver_example :
    (w₁ : World memory) × (w₂ : World memory) × (handle_hold_expired (λ v. v) 5 run_out
      ≡ (ok tt, w₁))
    × (process_waitlist (λ v. v) 1 (some 5) w₁ ≡ (ok tt, w₂))
    × HandedOver 5 (seat_of SeatStatus.held (some 7) (some 1000)) run_out w₁ w₂
handle_hold_expired-HandedOver_example =
    handle_hold_expired-HandedOver 5 (seat_of SeatStatus.held (some 7) (some 1000)) memory_grants
      (entry_of WaitlistStatus.waiting) run_out refl refl refl refl booked_elsewhere
      passenger_stored
