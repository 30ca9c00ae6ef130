-- ===== src/Redis/Subscriber/Messages.antt =====
-- What the subscriber makes of a key that the program has written.
use Prim.Native.String.{len, slice}
use text.Mathlib.Text.{◌==◌ as str_eq}
use text.Mathlib.TextPositions.{len-append, slice-append_right}
use sky_high_core.Common.{ℕ, String, ◌≡◌, Option, none, some, if◌then◌else◌, Bool-cases, inl, inr}
use sky_high_core.Domain.Dtos.{RedisKey}
use sky_high_core.Redis.KeyPrefix
use sky_high_core.Redis.Keys.{redis_expired_channel, family, spelling}
use sky_high_core.Redis.Keys.Spelling.{starts_with-spelling}
use sky_high_core.Redis.Subscriber.{SeatHoldExpiredEvent, handle_expired_key, on_message}

-- The event of a key: a hold key has one, with its seat, and no other key has.
abbrev pub event_of : (ℕ → String) → RedisKey → Option SeatHoldExpiredEvent
event_of name (RedisKey.seat_hold id) =
    some (record { seat_id = name id; key = spelling name (RedisKey.seat_hold id) })
event_of name _ = none

slice-spelling :
    (name : ℕ → String) (id : ℕ)
    → slice
        (spelling name (RedisKey.seat_hold id))
        (len (family KeyPrefix.seat_hold))
        (len (spelling name (RedisKey.seat_hold id)))
      ≡ name id
unfolding spelling
slice-spelling name id =
    rw (len-append (family KeyPrefix.seat_hold) (name id))
      (slice-append_right (family KeyPrefix.seat_hold) (name id))

handle_expired_key-spelling :
    (name : ℕ → String) (key : RedisKey)
    → handle_expired_key (spelling name key) ≡ event_of name key
unfolding handle_expired_key
handle_expired_key-spelling name (RedisKey.seat_hold id) =
    rw (starts_with-spelling name (RedisKey.seat_hold id), slice-spelling name id)
handle_expired_key-spelling name (RedisKey.seat_lock id) =
    rw (starts_with-spelling name (RedisKey.seat_lock id))
handle_expired_key-spelling name (RedisKey.waitlist_lock id) =
    rw (starts_with-spelling name (RedisKey.waitlist_lock id))
handle_expired_key-spelling name (RedisKey.seat_map_cache id) =
    rw (starts_with-spelling name (RedisKey.seat_map_cache id))
handle_expired_key-spelling name (RedisKey.rate_limit id) =
    rw (starts_with-spelling name (RedisKey.rate_limit id))

pub on_message-spelling :
    (name : ℕ → String) (channel : String) (key : RedisKey)
    → on_message channel (spelling name key)
      ≡ (if str_eq channel redis_expired_channel then event_of name key else none)
unfolding on_message
on_message-spelling name channel key = elim (Bool-cases (str_eq channel redis_expired_channel)) [
  | inl same ↦ rw same (handle_expired_key-spelling name key)
  | inr other ↦ rw other
]
