-- ===== src/Domain/Enums.antt =====
-- src/common/types/enums.ts: the status enums, with `===` on those that the services compare.
use sky_high_core.Common.{Bool, true, false}

pub data SeatStatus : Type 0 where
  available held confirmed cancelled : SeatStatus

pub data CheckInStatus : Type 0 where
  in_progress awaiting_payment completed cancelled : CheckInStatus

pub data WaitlistStatus : Type 0 where
  waiting assigned expired cancelled : WaitlistStatus

pub data FlightStatus : Type 0 where
  scheduled boarding departed cancelled : FlightStatus

pub data AuditAction : Type 0 where
  seat_held seat_confirmed seat_released seat_cancelled : AuditAction
  waitlist_joined waitlist_assigned : AuditAction
  checkin_started checkin_completed checkin_cancelled : AuditAction
  payment_requested payment_confirmed abuse_detected : AuditAction

abbrev pub is_available : SeatStatus → Bool
is_available SeatStatus.available = true
is_available _ = false

abbrev pub is_held : SeatStatus → Bool
is_held SeatStatus.held = true
is_held _ = false

abbrev pub is_in_progress : CheckInStatus → Bool
is_in_progress CheckInStatus.in_progress = true
is_in_progress _ = false

abbrev pub is_completed : CheckInStatus → Bool
is_completed CheckInStatus.completed = true
is_completed _ = false

abbrev pub is_cancelled : CheckInStatus → Bool
is_cancelled CheckInStatus.cancelled = true
is_cancelled _ = false

-- `IN_PROGRESS` or `AWAITING_PAYMENT`: the two states in which a seat hold is running.
abbrev pub is_holding : CheckInStatus → Bool
is_holding CheckInStatus.in_progress = true
is_holding CheckInStatus.awaiting_payment = true
is_holding _ = false

abbrev pub is_waiting : WaitlistStatus → Bool
is_waiting WaitlistStatus.waiting = true
is_waiting _ = false

abbrev pub is_assigned : WaitlistStatus → Bool
is_assigned WaitlistStatus.assigned = true
is_assigned _ = false

abbrev pub is_departed : FlightStatus → Bool
is_departed FlightStatus.departed = true
is_departed _ = false
