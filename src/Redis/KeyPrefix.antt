-- ===== src/Redis/KeyPrefix.antt =====
-- `REDIS_KEY_PREFIX` of src/common/redis/redis.constants.ts.
use sky_high_core.Common.{String}

abbrev pub seat_lock : String
seat_lock = "lock:seat"

abbrev pub waitlist_lock : String
waitlist_lock = "lock:waitlist"

abbrev pub seat_hold : String
seat_hold = "hold"

abbrev pub seat_map_cache : String
seat_map_cache = "seatmap"

abbrev pub rate_limit : String
rate_limit = "ratelimit"
