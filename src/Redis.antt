-- ===== src/Redis.antt =====
-- src/common/redis/redis.service.ts and redis.constants.ts: typed steps over Redis and Redlock.
pub mod Ttl
pub mod Holds
pub mod KeyPrefix
pub mod Keys
pub mod Subscriber
use sky_high_core.Common.{ℕ, Option, none, some, Bool, true, false, not, ◌==◌, ◌*◌, if◌then◌else◌}
use sky_high_core.Domain.Errors.{
  Result, ok, err, Action, pure, gets, lock_failed, redis_failed, ◌>>=◌, ◌>>◌,
}
use sky_high_core.Domain.Dtos.{RedisKey, RedisValue, SeatMapResponse}
use sky_high_core.Platform.Table.{is_none}
use sky_high_core.Platform.Backend.{Backend}
use sky_high_core.Platform.World.{World, released}

abbrev holder : Option RedisValue → Option ℕ
holder none = none
holder (some (RedisValue.passenger p)) = some p
holder (some (RedisValue.seat_map m)) = none

abbrev holds : ℕ → Option ℕ → Bool
holds p none = false
holds p (some q) = q == p

abbrev cached_map : Option RedisValue → Option SeatMapResponse
cached_map none = none
cached_map (some (RedisValue.passenger p)) = none
cached_map (some (RedisValue.seat_map m)) = some m

module _ {be : Backend} where
  unfoldable pub set : RedisKey → RedisValue → ℕ → Action (World be) (Unit {0})
  set key value ttl w = elim (be.redis.set key value ttl w.clock w.redis) [
    | none ↦ (err redis_failed, w)
    | some s ↦ (ok tt, record w { redis = s })
  ]

  unfoldable pub get : RedisKey → Action (World be) (Option RedisValue)
  get key = gets λ w. be.redis.get w.clock key w.redis

  unfoldable pub del : RedisKey → Action (World be) (Unit {0})
  del key w = elim (be.redis.del w.clock key w.redis) [
    | none ↦ (err redis_failed, w)
    | some s ↦ (ok tt, record w { redis = s })
  ]

  unfoldable pub exists : RedisKey → Action (World be) Bool
  exists key = gets λ w. not (is_none (be.redis.get w.clock key w.redis))

  unfoldable pub set_seat_hold : RedisKey → ℕ → ℕ → Action (World be) (Unit {0})
  unfolding set
  set_seat_hold key passenger_id ttl = set key (RedisValue.passenger passenger_id) ttl

  unfoldable pub get_seat_hold : RedisKey → Action (World be) (Option ℕ)
  get_seat_hold key = gets λ w. holder (be.redis.get w.clock key w.redis)

  -- The script compares and deletes in one step.
  unfoldable pub release_seat_hold_if_owner : RedisKey → ℕ → Action (World be) Bool
  unfolding get_seat_hold del
  release_seat_hold_if_owner key passenger_id = do
    holder ← get_seat_hold key
    if holds passenger_id holder then del key >> pure true else pure false

  unfoldable pub set_seat_map_cache : RedisKey → SeatMapResponse → Action (World be) (Unit {0})
  unfolding set
  set_seat_map_cache key seat_map = set key (RedisValue.seat_map seat_map) Ttl.seat_map_cache

  unfoldable pub get_seat_map_cache : RedisKey → Action (World be) (Option SeatMapResponse)
  get_seat_map_cache key = gets λ w. cached_map (be.redis.get w.clock key w.redis)

  unfoldable pub acquire_lock : RedisKey → ℕ → Action (World be) (Unit {0})
  acquire_lock key ttl_ms w = elim (be.locks.acquire key ttl_ms w.clock w.locks) [
    | none ↦ (err lock_failed, w)
    | some l ↦ (ok tt, record w { locks = l })
  ]

  -- `try { … } finally { await releaseLock(lock) }`: a failed release replaces the outcome.
  unfoldable pub and_release_lock :
      {A : Type 0} → RedisKey → Action (World be) A → Action (World be) A
  and_release_lock key body w = released key (body w)
