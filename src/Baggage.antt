-- ===== src/Baggage.antt =====
-- src/baggage/baggage.service.ts: the allowance and the fee above it, in the numbers of TypeScript.
mod Examples
use sky_high_core.Common.{String, Option, none, some, ℕ, Bool, ltb, if◌then◌else◌}
use sky_high_core.Doubles.{double, subtract, multiply, divide, round}

-- Numbers of kilograms and of dollars.
pub record BaggageConfig : Type 0 where
  pub max_baggage_kg : ℕ
  pub excess_fee_per_kg : ℕ

pub record BaggageValidationResult : Type 0 where
  pub weight : ℕ
  pub max_allowed_weight : ℕ
  pub is_overweight : Bool
  pub excess_weight : ℕ
  pub excess_fee : ℕ

unfoldable pub calculate_fee : BaggageConfig → ℕ → BaggageValidationResult
unfolding subtract multiply divide round
calculate_fee c weight =
    let is_overweight = ltb c.max_baggage_kg weight in
    let excess_weight = if is_overweight then subtract weight c.max_baggage_kg else 0 in
    let cents = multiply (multiply excess_weight c.excess_fee_per_kg) (double 100) in
    record {
      weight = weight;
      max_allowed_weight = c.max_baggage_kg;
      is_overweight = is_overweight;
      excess_weight = divide (round (multiply excess_weight (double 100))) (double 100);
      excess_fee = if is_overweight then divide (round cents) (double 100) else 0;
    }

-- The reply of the Weight Service: its JSON, or an error, such as a timeout.
pub record WeightServiceResponse : Type 0 where
  pub weight : ℕ

pub data WeightReply : Type 0 where
  weighed : WeightServiceResponse → WeightReply
  unavailable : (message : String) → WeightReply

pub call_weight_service : WeightReply → Option WeightServiceResponse
call_weight_service (weighed response) = some response
call_weight_service (unavailable message) = none

-- `reply` is what the Weight Service answers for the passenger; nothing is done with it.
pub validate_and_calculate_fee :
    BaggageConfig
    → (reply : ℕ → WeightReply) → (passenger_id declared_weight : ℕ) → BaggageValidationResult
unfolding call_weight_service calculate_fee
validate_and_calculate_fee c reply passenger_id declared_weight =
    let response = call_weight_service (reply passenger_id) in calculate_fee c declared_weight
