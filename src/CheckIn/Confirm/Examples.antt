-- ===== src/CheckIn/Confirm/Examples.antt =====
-- The theorems about `confirmCheckIn` at concrete requests.
use sky_high_core.Common.{ℕ, none, some, true, false, ◌≡◌, ◌≢◌, refl, arith}
use sky_high_core.Domain.Enums.{SeatStatus, CheckInStatus, is_holding}
use sky_high_core.Domain.Entities.{CheckIn}
use sky_high_core.Domain.Errors.{ok}
use sky_high_core.Domain.Dtos.{CheckInResponse}
use sky_high_core.Platform.World.{World}
use sky_high_core.Platform.Memory.Server.{memory}
use sky_high_core.Doubles.{double}
use sky_high_core.Redis
use sky_high_core.Seat
use sky_high_core.Audit
use sky_high_core.Baggage
use sky_high_core.Samples.{
  no_rows, one_row, seat_of, check_in_of, hold_of, world_of, memory_writes, baggage, payments,
  recovering,
}
use sky_high_core.CheckIn.Steps.{find_check_in_or_throw, find_one_or_fail, forget_hold}
use sky_high_core.CheckIn.Confirm.{
  declared, confirmed, completed, confirm_seat, complete_transaction, complete_check_in,
  validate_hold_not_expired, decide_baggage, confirm_check_in,
}
use sky_high_core.CheckIn.Confirm.Effects.{Confirmed, complete_check_in-Confirmed}
use sky_high_core.CheckIn.Confirm.Branches.{HoldSeen, Outcome, confirm_check_in-Outcome}
use sky_high_core.CheckIn.Confirm.Bypass.{IsUnpaid, confirm_check_in-bypass}
use sky_high_core.CheckIn.Confirm.Foreign.{confirm_check_in-foreign}

abbrev holding : World memory
holding =
    world_of (one_row 5 (seat_of SeatStatus.held (some 7) (some 1000)))
      (one_row 3 (check_in_of CheckInStatus.in_progress)) no_rows (hold_of 7) 50000

abbrev done : CheckInResponse
done = record {
  id = 3;
  passenger_id = 7;
  flight_id = 1;
  seat_id = some 5;
  status = CheckInStatus.completed;
  baggage_weight = some (double 20);
  excess_fee = none;
  payment_id = none;
  hold_expires_at = none;
  confirmed_at = some 50000;
  message = none;
  created_at = 1000;
}

abbrev after : World memory
after =
    (confirm_check_in baggage payments (λ w. w) (λ w. w) recovering 3 7 (some (double 20))
      holding).1

holding_confirms :
    confirm_check_in baggage payments (λ w. w) (λ w. w) recovering 3 7 (some (double 20)) holding
    ≡ (ok done, after)
unfolding confirm_check_in find_check_in_or_throw validate_hold_not_expired decide_baggage
    complete_check_in complete_transaction confirm_seat find_one_or_fail forget_hold Redis.exists
    Redis.del Baggage.calculate_fee Seat.invalidate_cache Audit.log_with_transaction
holding_confirms = refl

confirm_check_in-Outcome_example :
    (c : CheckIn) × (memory.check_in_rows.row holding.check_ins 3 ≡ some c)
    × (c.passenger_id ≡ 7)
    × (is_holding c.status ≡ true)
    × HoldSeen c.seat_id holding
    × Outcome baggage payments
        (λ w. w)
        recovering
        c
        (declared (some (double 20)))
        done
        holding
        after
confirm_check_in-Outcome_example =
    confirm_check_in-Outcome baggage payments (λ w. w) (λ w. w) recovering 3 7 (some (double 20))
      done holding after holding_confirms

abbrev completed_now : World memory
completed_now =
    (complete_check_in (check_in_of CheckInStatus.in_progress) (double 20) none holding).1

holding_completes :
    complete_check_in (check_in_of CheckInStatus.in_progress) (double 20) none holding
    ≡ (ok done, completed_now)
unfolding complete_check_in complete_transaction confirm_seat find_one_or_fail forget_hold Redis.del
    Seat.invalidate_cache Audit.log_with_transaction
holding_completes = refl

complete_check_in-Confirmed_example :
    Confirmed (check_in_of CheckInStatus.in_progress) (double 20) none done holding completed_now
complete_check_in-Confirmed_example =
    complete_check_in-Confirmed (check_in_of CheckInStatus.in_progress) (double 20) none done
      holding completed_now holding_completes

-- Passenger 7 still awaits payment; seat 5 has gone to passenger 8.
abbrev overtaken : World memory
overtaken =
    world_of (one_row 5 (seat_of SeatStatus.held (some 8) (some 1000)))
      (one_row 3 (check_in_of CheckInStatus.awaiting_payment)) no_rows (hold_of 8) 50000

others : ◌≢◌ {A = ℕ} 8 7
others e = omega arith

light : (Baggage.calculate_fee baggage (declared (some (double 20)))).is_overweight ≡ false
unfolding Baggage.calculate_fee
light = refl

confirm_check_in-foreign_example :
    (r : CheckInResponse) × (w' : World memory) × (confirm_check_in baggage payments
        (λ w. w)
        (λ w. w)
        recovering
        3
        7
        (some (double 20))
        overtaken
      ≡ (ok r, w'))
    × (memory.seat_rows.row w'.seats 5
        ≡ some (confirmed (seat_of SeatStatus.held (some 8) (some 1000))))
    × (memory.check_in_rows.row w'.check_ins 3
        ≡ some (completed (double 20) none (check_in_of CheckInStatus.awaiting_payment)))
confirm_check_in-foreign_example =
    confirm_check_in-foreign baggage payments (λ w. w) recovering
      (check_in_of CheckInStatus.awaiting_payment) (seat_of SeatStatus.held (some 8) (some 1000)) 5
      8 (double 20) (some (double 20)) overtaken memory_writes refl refl refl refl refl others refl
      light refl

-- Passenger 7 was asked for 60 dollars, and declares 20 kg now.
abbrev owing : CheckIn
owing = record (check_in_of CheckInStatus.awaiting_payment) { excess_fee = some (double 60) }

abbrev asked_before : World memory
asked_before =
    world_of (one_row 5 (seat_of SeatStatus.held (some 7) (some 1000))) (one_row 3 owing) no_rows
      (hold_of 7) 50000

confirm_check_in-bypass_example :
    (r : CheckInResponse) × (w' : World memory) × (done : CheckIn) × (confirm_check_in baggage
        payments
        (λ w. w)
        (λ w. w)
        recovering
        3
        7
        (some (double 20))
        asked_before
      ≡ (ok r, w'))
    × (memory.seat_rows.row w'.seats 5
        ≡ some (confirmed (seat_of SeatStatus.held (some 7) (some 1000))))
    × (memory.check_in_rows.row w'.check_ins 3 ≡ some done)
    × IsUnpaid (double 60) done
confirm_check_in-bypass_example =
    confirm_check_in-bypass baggage payments (λ w. w) recovering owing
      (seat_of SeatStatus.held (some 7) (some 1000)) 5 (double 60) (double 20) (some (double 20))
      asked_before memory_writes refl refl refl refl refl refl light refl
