-- ===== src/CheckIn/Steps/Reading.antt =====
-- `getCheckIn`, on its branches.
use sky_high_core.Common.{
  ℕ, ◌≡◌, ◌≢◌, ◌==◌, ==-refl, inl, inr, none, some, arith, Option-cases, Bool-cases,
}
use sky_high_core.Domain.Entities.{CheckIn}
use sky_high_core.Domain.Errors.{ok, err, domain, check_in_not_found}
use sky_high_core.Platform.Table.{find_by_key}
use sky_high_core.Platform.Backend.{Backend}
use sky_high_core.Platform.World.{World}
use sky_high_core.CheckIn.Steps.{
  to_check_in_response, calculate_hold_expires_at, find_check_in_or_throw, get_check_in,
}

module _ {be : Backend} (id p : ℕ) (w : World be) where
  -- `getCheckIn` changes nothing; it returns the check-in, with the expiry of a hold that is
  -- running, if it is stored and the passenger's, and throws that there is no such check-in if it
  -- is not.
  pub get_check_in_lem :
      ((get_check_in id p w).1 ≡ w)
      × ((c : CheckIn)
          → be.check_in_rows.row w.check_ins id ≡ some c
          → c.passenger_id ≡ p
          → (get_check_in id p w).0
            ≡ ok (to_check_in_response c (calculate_hold_expires_at c) none none))
      × (((c : CheckIn) → be.check_in_rows.row w.check_ins id ≡ some c → c.passenger_id ≢ p)
          → (get_check_in id p w).0 ≡ err (domain check_in_not_found))
  unfolding get_check_in find_check_in_or_throw
  get_check_in_lem =
      let seen = find_by_key be.check_in_rows id (λ c. c.passenger_id == p) w.check_ins in
      elim (Option-cases (be.check_in_rows.row w.check_ins id)) [
        | inl lost ↦ (ground arith, (λ c at own. ground arith), λ other. ground arith)
        | inr (c, at) ↦ elim (Bool-cases (c.passenger_id == p)) [
          | inl own ↦ (
            ground arith,
            (λ d at' own'. ground arith),
            λ other. absurd (other c at (ground arith)),
          )
          | inr other ↦
              (ground arith, (λ d at' own'. ground (arith, ==-refl p)), λ other'. ground arith)
        ]
      ]
