-- ===== src/CheckIn/Steps/Find.antt =====
-- The search for a check-in by its id and its passenger, in `confirmCheckIn` and `cancelCheckIn`.
use sky_high_core.Common.{ℕ, ◌≡◌, inl, inr, some, ◌==◌, arith, Option-cases}
use sky_high_core.Domain.Entities.{CheckIn}
use sky_high_core.Domain.Errors.{ok}
use sky_high_core.Platform.Table.{find_by_key}
use sky_high_core.Platform.Backend.{Backend}
use sky_high_core.Platform.World.{World}
use sky_high_core.CheckIn.Steps.{find_check_in_or_throw}

module _ {be : Backend} (id p : ℕ) (w : World be) where
  -- It changes nothing, and finds the row or throws.
  pub record Found (c : CheckIn) (w' : World be) : Type 0 where
    pub same : w' ≡ w
    pub row : be.check_in_rows.row w.check_ins id ≡ some c
    pub owner : c.passenger_id ≡ p
    pub is_it : c.id ≡ id

  pub find_check_in_or_throw-Found :
      (c : CheckIn) (w' : World be) → find_check_in_or_throw id p w ≡ (ok c, w') → Found c w'
  unfolding find_check_in_or_throw
  find_check_in_or_throw-Found c w' h =
      let seen = find_by_key be.check_in_rows id (λ c. c.passenger_id == p) w.check_ins in
      elim (Option-cases (be.check_in_rows.row w.check_ins id)) [
        | inl lost ↦ absurd (ground arith)
        | inr (d, at) ↦ record {
          same = ground arith;
          row = ground arith;
          owner = ground arith;
          is_it = ground (arith, be.check_in_rows.row-key w.check_ins id d at);
        }
      ]

  pub find_check_in_or_throw-own :
      (c : CheckIn)
      → be.check_in_rows.row w.check_ins id ≡ some c
      → c.passenger_id ≡ p
      → find_check_in_or_throw id p w ≡ (ok c, w)
  unfolding find_check_in_or_throw
  find_check_in_or_throw-own c at own =
      ground (arith, find_by_key be.check_in_rows id (λ c. c.passenger_id == p) w.check_ins)

  pub find_check_in_or_throw-keeps : (find_check_in_or_throw id p w).1 ≡ w
  unfolding find_check_in_or_throw
  find_check_in_or_throw-keeps = ground arith
