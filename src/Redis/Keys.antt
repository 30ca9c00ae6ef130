-- ===== src/Redis/Keys.antt =====
-- src/common/redis/redis.constants.ts: how the keys of Redis are spelled.
pub mod Spelling
use Prim.Native.String.{◌++◌ as append}
use sky_high_core.Common.{ℕ, String}
use sky_high_core.Domain.Dtos.{RedisKey}
use sky_high_core.Redis.KeyPrefix

abbrev pub redis_expired_channel : String
redis_expired_channel = "__keyevent@0__:expired"

-- `${prefix}:`
abbrev pub family : String → String
family prefix = append prefix ":"

abbrev pub prefix_of : RedisKey → String
prefix_of (RedisKey.seat_lock id) = KeyPrefix.seat_lock
prefix_of (RedisKey.waitlist_lock id) = KeyPrefix.waitlist_lock
prefix_of (RedisKey.seat_hold id) = KeyPrefix.seat_hold
prefix_of (RedisKey.seat_map_cache id) = KeyPrefix.seat_map_cache
prefix_of (RedisKey.rate_limit id) = KeyPrefix.rate_limit

abbrev pub id_of : RedisKey → ℕ
id_of (RedisKey.seat_lock id) = id
id_of (RedisKey.waitlist_lock id) = id
id_of (RedisKey.seat_hold id) = id
id_of (RedisKey.seat_map_cache id) = id
id_of (RedisKey.rate_limit id) = id

-- The text of a key, where `name` is the text of an id or of a client's address.
unfoldable pub spelling : (ℕ → String) → RedisKey → String
spelling name key = append (family (prefix_of key)) (name (id_of key))
