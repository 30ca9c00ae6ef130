-- ===== src/CheckIn/Steps/Announce.antt =====
-- The writes to Redis after a commit that holds a seat, in `startCheckIn` and in an assignment: the
-- hold key is set, and the cached seat map deleted.
use sky_high_core.Common.{
  ℕ, ◌≡◌, ◌⊎◌, inl, inr, none, some, ==-refl, if◌then◌else◌, arith, Option-cases,
}
use sky_high_core.Domain.Dtos.{RedisKey, RedisValue}
use sky_high_core.Platform.Backend.{Backend}
use sky_high_core.Redis.Ttl

module _ (be : Backend) (p f s clock : ℕ) (before : be.redis.State) where
  -- Both writes were taken.
  pub record Told : Type 0 where
    pub held : be.redis.State
    pub after : be.redis.State
    pub set :
        be.redis.set (RedisKey.seat_hold s) (RedisValue.passenger p) Ttl.seat_hold clock before
        ≡ some held
    pub del : be.redis.del clock (RedisKey.seat_map_cache f) held ≡ some after
    pub hold_key :
        (t : ℕ)
        → be.redis.get t (RedisKey.seat_hold s) after
          ≡ (if be.redis.is_live clock Ttl.seat_hold t then some (RedisValue.passenger p) else none)
    pub map_forgotten : (t : ℕ) → be.redis.get t (RedisKey.seat_map_cache f) after ≡ none

  -- One of them was rejected, and so no lock can be released.
  pub record Rejected : Type 0 where
    pub cause :
        (be.redis.set (RedisKey.seat_hold s) (RedisValue.passenger p) Ttl.seat_hold clock before
          ≡ none)
        ⊎ ((held : be.redis.State) × (be.redis.set
                (RedisKey.seat_hold s)
                (RedisValue.passenger p)
                Ttl.seat_hold
                clock
                before
              ≡ some held)
            × (be.redis.del clock (RedisKey.seat_map_cache f) held ≡ none))
    pub stuck : (key : RedisKey) (l : be.locks.State) → be.locks.release key clock l ≡ none

  pub announce_hold-cases : Told ⊎ Rejected
  announce_hold-cases =
      elim (Option-cases
        (be.redis.set (RedisKey.seat_hold s) (RedisValue.passenger p) Ttl.seat_hold clock before)) [
          | inl e ↦ inr (record {
            cause = inl e;
            stuck = λ key l.
                be.set-none (RedisKey.seat_hold s) (RedisValue.passenger p) Ttl.seat_hold clock
                  before key l e;
          })
          | inr (held, e) ↦
              elim (Option-cases (be.redis.del clock (RedisKey.seat_map_cache f) held)) [
                | inl q ↦ inr (record {
                  cause = inr (held, e, q);
                  stuck = λ key l. be.del-none clock (RedisKey.seat_map_cache f) held key l q;
                })
                | inr (after, q) ↦ inl (record {
                  held = held;
                  after = after;
                  set = e;
                  del = q;
                  hold_key = λ t. ground (
                    arith,
                    ==-refl s,
                    be.redis.get-del t clock (RedisKey.seat_hold s) (RedisKey.seat_map_cache f) held
                        after q,
                    be.redis.get-set t (RedisKey.seat_hold s) (RedisKey.seat_hold s)
                        (RedisValue.passenger p) Ttl.seat_hold clock before held e,
                  );
                  map_forgotten = λ t. ground (
                    arith,
                    ==-refl f,
                    be.redis.get-del t clock (RedisKey.seat_map_cache f) (RedisKey.seat_map_cache f)
                        held after q,
                  );
                })
              ]
        ]
