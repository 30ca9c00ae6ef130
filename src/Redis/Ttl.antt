-- ===== src/Redis/Ttl.antt =====
-- `REDIS_TTL` of src/common/redis/redis.constants.ts, in seconds.
use sky_high_core.Common.{ℕ, ◌*◌}

abbrev pub seat_lock : ℕ
seat_lock = 5

abbrev pub waitlist_lock : ℕ
waitlist_lock = 5

abbrev pub seat_hold : ℕ
seat_hold = 120

abbrev pub seat_map_cache : ℕ
seat_map_cache = 2

-- A TTL in milliseconds, as the services pass it to Redlock and add it to dates.
abbrev pub in_ms : ℕ → ℕ
in_ms ttl = ttl * 1000
