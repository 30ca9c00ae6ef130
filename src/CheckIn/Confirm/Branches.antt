-- ===== src/CheckIn/Confirm/Branches.antt =====
-- `confirmCheckIn` on each of its branches.
use sky_high_core.Common.{ℕ, ◌≡◌, inl, inr, Option, none, some, true, false, arith, Bool-cases}
use sky_high_core.Domain.Enums.{is_holding}
use sky_high_core.Domain.Entities.{CheckIn}
use sky_high_core.Domain.Errors.{ok, Result-cases}
use sky_high_core.Domain.Dtos.{CheckInResponse, RedisKey}
use sky_high_core.Platform.Table.{is_none}
use sky_high_core.Platform.Backend.{Backend}
use sky_high_core.Platform.World.{World}
use sky_high_core.Redis
use sky_high_core.Baggage.{BaggageConfig, calculate_fee}
use sky_high_core.Payment.{PaymentConfig, Reply, call_payment_service_with_retry}
use sky_high_core.CheckIn.Steps.{find_check_in_or_throw}
use sky_high_core.CheckIn.Steps.Find.{find_check_in_or_throw-Found}
use sky_high_core.CheckIn.Confirm.{
  declared, validate_hold_not_expired, decide_baggage, confirm_check_in,
}
use sky_high_core.CheckIn.Confirm.Charging.{
  Charged, Asks, handle_excess_baggage-paid, handle_excess_baggage-unpaid,
}
use sky_high_core.CheckIn.Confirm.Effects.{Confirmed, complete_check_in-Confirmed}

module _ {be : Backend} where
  -- There is a hold key for the seat, whoever its holder.
  abbrev pub HoldSeen : Option ℕ → World be → Type 0
  HoldSeen none w = Unit {0}
  HoldSeen (some s) w = is_none (be.redis.get w.clock (RedisKey.seat_hold s) w.redis) ≡ false

  pub record IsHolding (c : CheckIn) (w w' : World be) : Type 0 where
    pub same : w' ≡ w
    pub running : is_holding c.status ≡ true
    pub seen : HoldSeen c.seat_id w

  validate_hold_not_expired-IsHolding :
      (c : CheckIn) (w w' : World be)
      → validate_hold_not_expired c w ≡ (ok tt, w')
      → IsHolding c w w'
  unfolding validate_hold_not_expired Redis.exists
  validate_hold_not_expired-IsHolding c w w' h = record {
    same = ground arith;
    running = ground arith;
    seen = ground arith;
  }

  -- How a call of `confirmCheckIn` that returned has ended.
  pub data Outcome (baggage : BaggageConfig) (pay : PaymentConfig) (meanwhile : World be → World be)
      (reply : ℕ → Reply) (c : CheckIn) (weight : ℕ) (r : CheckInResponse) (w w' : World be)
      : Type 0 where
    within_allowance :
        (calculate_fee baggage weight).is_overweight ≡ false
        → Confirmed c weight none r w w'
        → Outcome baggage pay meanwhile reply c weight r w w'
    paid :
        (calculate_fee baggage weight).is_overweight ≡ true
        → (call_payment_service_with_retry pay reply).result.success ≡ true
        → (v : World be) → Charged meanwhile c weight (calculate_fee baggage weight).excess_fee w v
        → Confirmed
            (record c {
              baggage_weight = some weight;
              excess_fee = some (calculate_fee baggage weight).excess_fee;
            })
            weight
            (call_payment_service_with_retry pay reply).result.transaction_id
            r
            v
            w'
        → Outcome baggage pay meanwhile reply c weight r w w'
    unpaid :
        (calculate_fee baggage weight).is_overweight ≡ true
        → (call_payment_service_with_retry pay reply).result.success ≡ false
        → Charged meanwhile c weight (calculate_fee baggage weight).excess_fee w w'
        → Asks c (calculate_fee baggage weight).excess_fee r w'
        → Outcome baggage pay meanwhile reply c weight r w w'

  module _ (baggage : BaggageConfig) (pay : PaymentConfig) (meanwhile : World be → World be)
      (reply : ℕ → Reply) (r : CheckInResponse) (w w' : World be) where
    decide_baggage-Outcome :
        (c : CheckIn) (weight : ℕ)
        → decide_baggage baggage pay meanwhile reply c weight w ≡ (ok r, w')
        → Outcome baggage pay meanwhile reply c weight r w w'
    unfolding decide_baggage
    decide_baggage-Outcome c weight h =
        let fee = (calculate_fee baggage weight).excess_fee in
        elim (Bool-cases (calculate_fee baggage weight).is_overweight) [
          | inl over ↦
              elim (Bool-cases (call_payment_service_with_retry pay reply).result.success) [
                | inl s ↦
                    let (v, charged, d) =
                      handle_excess_baggage-paid pay meanwhile reply c weight fee r w w'
                        (ground arith) s in
                    paid over s v charged d
                | inr s ↦
                    let (a, b) =
                      handle_excess_baggage-unpaid pay meanwhile reply c weight fee r w w'
                        (ground arith) s in
                    unpaid over s a b
              ]
          | inr under ↦
              within_allowance under
                (complete_check_in-Confirmed c weight none r w w' (ground arith))
        ]

  module _ (baggage : BaggageConfig) (pay : PaymentConfig)
      (weighing meanwhile : World be → World be) (reply : ℕ → Reply) (id p : ℕ)
      (declared_weight : Option ℕ) (r : CheckInResponse) (w w' : World be) where
    -- If `confirmCheckIn` returns, it found the passenger's own check-in, IN_PROGRESS or
    -- AWAITING_PAYMENT, with a hold key on its seat, if it has one; and then, whatever others did
    -- during the call of the Weight Service and during the payment, one of these holds. The baggage
    -- is within the allowance and the check-in was completed. Or it is over it and the payment
    -- succeeded: the check-in was set to AWAITING_PAYMENT with the weight and the fee, the payment
    -- left the tables as others made them since, and the check-in was completed on those with the
    -- payment's id. Or it is over it and the payment did not succeed: the check-in was set to
    -- AWAITING_PAYMENT with the weight and the fee, the tables are what others made of that during
    -- the payment, so the call confirms nothing, and the response is the check-in as it is stored
    -- then, with the demand for the fee.
    pub confirm_check_in-Outcome :
        confirm_check_in baggage pay weighing meanwhile reply id p declared_weight w ≡ (ok r, w')
        → (c : CheckIn) × (be.check_in_rows.row w.check_ins id ≡ some c)
          × (c.passenger_id ≡ p)
          × (is_holding c.status ≡ true)
          × HoldSeen c.seat_id w
          × Outcome baggage pay meanwhile reply c (declared declared_weight) r (weighing w) w'
    unfolding confirm_check_in
    confirm_check_in-Outcome h =
        let weight = declared declared_weight in
        elim (Result-cases (find_check_in_or_throw id p w)) [
          | inl (c, w₁, e) ↦
              let found = find_check_in_or_throw-Found id p w c w₁ e in
              elim (Result-cases (validate_hold_not_expired c w)) [
                | inl (u, w₂, q) ↦
                    let valid = validate_hold_not_expired-IsHolding c w w₂ q in
                    (
                      c,
                      found.row,
                      found.owner,
                      valid.running,
                      valid.seen,
                      decide_baggage-Outcome baggage pay meanwhile reply r (weighing w) w' c weight
                          (ground arith),
                    )
                | inr (x, w₂, q) ↦ absurd (ground arith)
              ]
          | inr (x, w₁, e) ↦ absurd (ground arith)
        ]
