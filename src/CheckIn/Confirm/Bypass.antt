-- ===== src/CheckIn/Confirm/Bypass.antt =====
-- `confirmCheckIn` for a check-in that awaits a payment, with a lighter baggage than before.
use sky_high_core.Common.{ℕ, ◌≡◌, refl, Option, none, some, false, ==-refl, arith}
use sky_high_core.Domain.Enums.{CheckInStatus}
use sky_high_core.Domain.Entities.{CheckIn, Seat}
use sky_high_core.Domain.Errors.{ok}
use sky_high_core.Domain.Dtos.{CheckInResponse, RedisKey, RedisValue}
use sky_high_core.Platform.Backend.{Backend, AlwaysWrites}
use sky_high_core.Platform.World.{World}
use sky_high_core.Redis
use sky_high_core.Baggage.{BaggageConfig, calculate_fee}
use sky_high_core.Payment.{PaymentConfig, Reply}
use sky_high_core.CheckIn.Steps.Find.{find_check_in_or_throw-own}
use sky_high_core.CheckIn.Confirm.{
  declared, confirmed, validate_hold_not_expired, decide_baggage, confirm_check_in,
}
use sky_high_core.CheckIn.Confirm.Effects.{complete_check_in-Confirmed}
use sky_high_core.CheckIn.Confirm.Foreign.{complete_check_in-returns}

-- The check-in is completed, with the fee that was asked for and no payment.
pub record IsUnpaid (fee : ℕ) (done : CheckIn) : Type 0 where
  pub status : done.status ≡ CheckInStatus.completed
  pub asked : done.excess_fee ≡ some fee
  pub payment : done.payment_id ≡ none

module _ {be : Backend} (baggage : BaggageConfig) (pay : PaymentConfig)
    (meanwhile : World be → World be) (reply : ℕ → Reply) (c : CheckIn) (seat : Seat) (s fee n : ℕ)
    (weight : Option ℕ) (w : World be) where
  -- A check-in AWAITING_PAYMENT of a fee, whose seat has its passenger's hold key, is confirmed
  -- without a payment when its passenger declares a weight within the allowance that fits the
  -- column, if Redis takes every write and nothing runs beside the call: it returns, the seat is
  -- CONFIRMED, and the check-in is COMPLETED with the fee and no payment id.
  pub confirm_check_in-bypass :
      AlwaysWrites be
      → be.check_in_rows.row w.check_ins c.id ≡ some c
      → c.status ≡ CheckInStatus.awaiting_payment
      → c.excess_fee ≡ some fee
      → c.seat_id ≡ some s
      → be.seat_rows.row w.seats s ≡ some seat
      → be.redis.get w.clock (RedisKey.seat_hold s) w.redis
        ≡ some (RedisValue.passenger c.passenger_id)
      → (calculate_fee baggage (declared weight)).is_overweight ≡ false
      → be.to_weight (declared weight) ≡ some n
      → (r : CheckInResponse) × (w' : World be) × (done : CheckIn) × (confirm_check_in baggage pay
            (λ v. v)
            meanwhile
            reply
            c.id
            c.passenger_id
            weight
            w
          ≡ (ok r, w'))
        × (be.seat_rows.row w'.seats s ≡ some (confirmed seat))
        × (be.check_in_rows.row w'.check_ins c.id ≡ some done)
        × IsUnpaid fee done
  unfolding confirm_check_in validate_hold_not_expired decide_baggage Redis.exists
  confirm_check_in-bypass writes stored awaits asked at held key under fits =
      let (r, w', e) = complete_check_in-returns c (declared weight) none n w writes stored fits in
      let d = complete_check_in-Confirmed c (declared weight) none r w w' e in
      let found = find_check_in_or_throw-own c.id c.passenger_id w c stored refl in
      (
        r,
        w',
        record c { status = CheckInStatus.completed; baggage_weight = some n; payment_id = none },
        ground arith,
        ground (arith, ==-refl s, d.tables.seats s),
        ground (arith, ==-refl c.id, d.tables.check_ins c.id, d.tables.weighed),
        record { status = refl; asked = asked; payment = refl },
      )
