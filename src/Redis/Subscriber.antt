-- ===== src/Redis/Subscriber.antt =====
-- src/common/redis/redis-key-expiry.subscriber.ts: what a message of the keyspace channel says.
pub mod Messages
use Prim.Native.String.{◌++◌ as append, len, slice}
use text.Mathlib.Text.{◌==◌ as str_eq, starts_with}
use sky_high_core.Common.{ℕ, String, Option, none, some, not, if◌then◌else◌}
use sky_high_core.Redis.KeyPrefix
use sky_high_core.Redis.Keys.{redis_expired_channel, family}

pub record SeatHoldExpiredEvent : Type 0 where
  pub seat_id : String
  pub key : String

-- The event that is emitted, if one is.
pub handle_expired_key : String → Option SeatHoldExpiredEvent
handle_expired_key key =
    let hold_prefix = family KeyPrefix.seat_hold in
    if not (starts_with key hold_prefix)
    then none
    else some (record { seat_id = slice key (len hold_prefix) (len key); key = key })

-- The listener that `onModuleInit` registers.
pub on_message : String → String → Option SeatHoldExpiredEvent
unfolding handle_expired_key
on_message channel key =
    if not (str_eq channel redis_expired_channel) then none else handle_expired_key key
