-- ===== src/CheckIn/Steps/Forget.antt =====
-- What is left of a hold in Redis after a commit that ends it.
use sky_high_core.Common.{
  ℕ, ◌≡◌, refl, inl, inr, Option, none, some, false, ==-refl, arith, Option-cases,
}
use sky_high_core.Domain.Errors.{ok, err, Exception, redis_failed}
use sky_high_core.Domain.Dtos.{RedisKey}
use sky_high_core.Platform.Table.{is_none}
use sky_high_core.Platform.Backend.{Backend, RedisServer, AlwaysWrites}
use sky_high_core.Platform.World.{World}
use sky_high_core.Redis
use sky_high_core.Seat
use sky_high_core.CheckIn.Steps.{forget_hold}

-- The hold key of a seat, if there is a seat, is gone.
abbrev pub NoHold : (server : RedisServer) → Option ℕ → server.State → Type 0
NoHold server none k = Unit {0}
NoHold server (some s) k = (t : ℕ) → server.get t (RedisKey.seat_hold s) k ≡ none

module _ {be : Backend} where
  pub forget_hold_lem :
      AlwaysWrites be → (seat : Option ℕ) (f : ℕ) (w : World be) → (forget_hold seat f w).0 ≡ ok tt
  unfolding forget_hold Redis.del Seat.invalidate_cache
  forget_hold_lem writes none f w = refl
  forget_hold_lem writes (some s) f w =
      let (u, e) = writes.deleted w.clock (RedisKey.seat_hold s) w.redis in
      let (v, q) = writes.deleted w.clock (RedisKey.seat_map_cache f) u in ground arith

  pub forget_hold-tables :
      (seat : Option ℕ) (f : ℕ) (w : World be) → (forget_hold seat f w).1.tables ≡ w.tables
  unfolding forget_hold Redis.del Seat.invalidate_cache
  forget_hold-tables none f w = refl
  forget_hold-tables (some s) f w =
      elim (Option-cases (be.redis.del w.clock (RedisKey.seat_hold s) w.redis)) [
        | inl rejected ↦ ground arith
        | inr (u, e) ↦ elim (Option-cases (be.redis.del w.clock (RedisKey.seat_map_cache f) u)) [
          | inl rejected ↦ ground arith
          | inr (v, q) ↦ ground arith
        ]
      ]

  pub forget_hold-NoHold :
      (seat : Option ℕ) (f : ℕ) (w : World be)
      → (forget_hold seat f w).0 ≡ ok tt
      → NoHold be.redis seat (forget_hold seat f w).1.redis
  unfolding forget_hold Redis.del Seat.invalidate_cache
  forget_hold-NoHold none f w h = tt
  forget_hold-NoHold (some s) f w h = λ t.
      elim (Option-cases (be.redis.del w.clock (RedisKey.seat_hold s) w.redis)) [
        | inl rejected ↦ absurd (ground arith)
        | inr (u, e) ↦ elim (Option-cases (be.redis.del w.clock (RedisKey.seat_map_cache f) u)) [
          | inl rejected ↦ absurd (ground arith)
          | inr (v, q) ↦ ground (
            arith,
            ==-refl s,
            be.redis.get-del t w.clock (RedisKey.seat_hold s) (RedisKey.seat_map_cache f) u v q,
            be.redis.get-del t w.clock (RedisKey.seat_hold s) (RedisKey.seat_hold s) w.redis u e,
          )
        ]
      ]

  pub forget_hold-events :
      (seat : Option ℕ) (f : ℕ) (w : World be) → (forget_hold seat f w).1.events ≡ w.events
  unfolding forget_hold Redis.del Seat.invalidate_cache
  forget_hold-events none f w = refl
  forget_hold-events (some s) f w =
      elim (Option-cases (be.redis.del w.clock (RedisKey.seat_hold s) w.redis)) [
        | inl rejected ↦ ground arith
        | inr (u, e) ↦ elim (Option-cases (be.redis.del w.clock (RedisKey.seat_map_cache f) u)) [
          | inl rejected ↦ ground arith
          | inr (v, q) ↦ ground arith
        ]
      ]

  module _ (seat : Option ℕ) (f : ℕ) (w : World be) (x : Exception) (w' : World be) where
    pub forget_hold-seat : forget_hold seat f w ≡ (err x, w') → is_none seat ≡ false
    unfolding forget_hold
    forget_hold-seat h = elim (Option-cases seat) [
      | inl no_seat ↦ absurd (ground arith)
      | inr (s, at) ↦ ground arith
    ]

    pub forget_hold-redis_failed : forget_hold seat f w ≡ (err x, w') → x ≡ redis_failed
    unfolding forget_hold Redis.del Seat.invalidate_cache
    forget_hold-redis_failed h = elim (Option-cases seat) [
      | inl no_seat ↦ absurd (ground arith)
      | inr (s, at) ↦ elim (Option-cases (be.redis.del w.clock (RedisKey.seat_hold s) w.redis)) [
        | inl rejected ↦ ground arith
        | inr (u, e) ↦ elim (Option-cases (be.redis.del w.clock (RedisKey.seat_map_cache f) u)) [
          | inl rejected ↦ ground arith
          | inr (v, q) ↦ absurd (ground arith)
        ]
      ]
    ]
