-- ===== src/Redis/Holds.antt =====
-- The compare-and-delete of a seat hold.
use sky_high_core.Common.{
  ℕ, ◌≡◌, ◌≢◌, inl, inr, none, some, true, false, ◌==◌, ==-refl, arith, Option-cases, Bool-cases,
}
use sky_high_core.Domain.Errors.{ok}
use sky_high_core.Domain.Dtos.{RedisKey}
use sky_high_core.Platform.Backend.{Backend, AlwaysWrites}
use sky_high_core.Platform.World.{World}
use sky_high_core.Redis.{get_seat_hold, release_seat_hold_if_owner, del, holder}

module _ {be : Backend} (s p : ℕ) (w : World be) where
  -- If Redis takes every write and the passenger has the hold of the seat, `releaseSeatHoldIfOwner`
  -- returns true and there is no hold afterwards; if the passenger does not have it, it returns
  -- false and changes nothing.
  release_seat_hold_if_owner_lem :
      AlwaysWrites be
      → let held = (get_seat_hold (RedisKey.seat_hold s) w).0 in
        let (r, w') = release_seat_hold_if_owner (RedisKey.seat_hold s) p w in
        (held ≡ ok (some p)
          → (r ≡ ok true) × ((get_seat_hold (RedisKey.seat_hold s) w').0 ≡ ok none))
        × (held ≢ ok (some p) → (r ≡ ok false) × (w' ≡ w))
  unfolding release_seat_hold_if_owner get_seat_hold del
  release_seat_hold_if_owner_lem writes =
      let (del, took) = writes.deleted w.clock (RedisKey.seat_hold s) w.redis in
      let gone =
        be.redis.get-del w.clock w.clock (RedisKey.seat_hold s) (RedisKey.seat_hold s) w.redis del
          took in
      elim (Option-cases (holder (be.redis.get w.clock (RedisKey.seat_hold s) w.redis))) [
        | inl e ↦ ((λ h. absurd (ground arith)), λ h. ground arith)
        | inr (q, e) ↦ elim (Bool-cases (q == p)) [
          | inl y ↦
              ((λ h. (ground arith, ground (arith, ==-refl s))), λ h. absurd (h (ground arith)))
          | inr y ↦ ((λ h. absurd (ground (arith, ==-refl p))), λ h. ground arith)
        ]
      ]
