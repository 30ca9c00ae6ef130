-- ===== src/Expiry/Keyspace.antt =====
-- From a message of the keyspace channel to the release of a seat: the subscriber of
-- src/common/redis/redis-key-expiry.subscriber.ts emits the event on which `handleHoldExpired` of
-- src/check-in/hold-expiry.service.ts is called.
mod Examples
use text.Mathlib.Text.{◌==◌ as str_eq}
use sky_high_core.Common.{
  ℕ, String, ◌≡◌, refl, Option, none, some, if◌then◌else◌, Bool-cases, inl, inr,
}
use sky_high_core.Domain.Dtos.{RedisKey}
use sky_high_core.Domain.Errors.{Action, pure}
use sky_high_core.Platform.Backend.{Backend}
use sky_high_core.Platform.World.{World}
use sky_high_core.Redis.Keys.{redis_expired_channel, spelling}
use sky_high_core.Redis.Subscriber.{SeatHoldExpiredEvent, on_message}
use sky_high_core.Redis.Subscriber.Messages.{event_of, on_message-spelling}
use sky_high_core.Expiry.Release.{handle_hold_expired}

module _ {be : Backend} (id_named : String → ℕ) (meanwhile : World be → World be) where
  -- The listener of `SEAT_HOLD_EXPIRED_EVENT`; `id_named` is the id with a text.
  abbrev pub on_hold_expired : Option SeatHoldExpiredEvent → Action (World be) (Unit {0})
  on_hold_expired none = pure tt
  on_hold_expired (some event) = handle_hold_expired meanwhile (id_named event.seat_id)

  pub receive : String → String → Action (World be) (Unit {0})
  receive channel key = on_hold_expired (on_message channel key)

  -- What the expiry of a key of the program sets off.
  abbrev pub expiry_of : RedisKey → Action (World be) (Unit {0})
  expiry_of (RedisKey.seat_hold id) = handle_hold_expired meanwhile id
  expiry_of _ = pure tt

  module _ (name : ℕ → String) (named : (n : ℕ) → id_named (name n) ≡ n) where
    on_hold_expired-event_of :
        (key : RedisKey) → on_hold_expired (event_of name key) ≡ expiry_of key
    on_hold_expired-event_of (RedisKey.seat_hold id) = rw (named id)
    on_hold_expired-event_of (RedisKey.seat_lock id) = refl
    on_hold_expired-event_of (RedisKey.waitlist_lock id) = refl
    on_hold_expired-event_of (RedisKey.seat_map_cache id) = refl
    on_hold_expired-event_of (RedisKey.rate_limit id) = refl

    -- If the id of an id's text is that id, then a message about the text of a key of the program
    -- releases the seat of the key if it comes from the channel of expired keys and the key is a
    -- hold key, and sets off nothing otherwise.
    pub receive-spelling :
        (channel : String) (key : RedisKey)
        → receive channel (spelling name key)
          ≡ (if str_eq channel redis_expired_channel then expiry_of key else pure tt)
    unfolding receive
    receive-spelling channel key = elim (Bool-cases (str_eq channel redis_expired_channel)) [
      | inl same ↦ rw (on_message-spelling name channel key, same) (on_hold_expired-event_of key)
      | inr other ↦ rw (on_message-spelling name channel key, other)
    ]
