-- ===== src/Baggage/Examples.antt =====
-- The fee at concrete weights, as TypeScript computes it.
use sky_high_core.Common.{◌*◌, ◌^◌, ◌≡◌, refl}
use sky_high_core.Doubles.{double}
use sky_high_core.Samples.{baggage}
use sky_high_core.Baggage.{BaggageConfig, calculate_fee}

abbrev default : BaggageConfig
default = record { max_baggage_kg = double 25; excess_fee_per_kg = double 10 }

-- 28.5 kg, where 25 are free, at 15 dollars for a kilogram.
heavy_costs : (calculate_fee baggage (57 * 2 ^ 1073)).excess_fee ≡ 105 * 2 ^ 1073
unfolding calculate_fee
heavy_costs = refl

-- The double next to 25.0005 is a little less, so the fee is rounded down to nothing.
light_costs : (calculate_fee default (7037015155254755 * 2 ^ 1026)).excess_fee ≡ 0
unfolding calculate_fee
light_costs = refl
