-- ===== src/RateLimiter/Examples.antt =====
-- The theorems about the limiter at concrete requests, on an implementation of the sorted sets.
use sky_high_core.Common.{◌-◌, ◌<◌, ◌≤◌, ◌≡◌, ◌≢◌, refl, true, length, arith}
use sky_high_core.RateLimiter.{
  with_member, above, Request, Guard, next, add_rate_limit_entry, use_limiter,
}
use sky_high_core.RateLimiter.Memory.{sets, members, limits, quiet}
use sky_high_core.RateLimiter.Window.{use_limiter_lem, use_limiter_same_ms}

abbrev request : Request
request = record { client_ip = 4; original_url = "/flights/1/seatmap"; method = "GET" }

use_limiter_lem_example :
    let window = with_member 100000 (above (100000 - 2000) (members 100000 4 quiet.redis)) in
    let (verdict, g') = use_limiter limits true true 100000 request quiet in
    (length window < 50 → (verdict ≡ next) × (g'.abuse_events ≡ quiet.abuse_events))
    × (50 ≤ length window → verdict ≢ next)
use_limiter_lem_example = use_limiter_lem limits true 100000 request quiet

abbrev after : Guard sets
after = (use_limiter limits true true 100000 request quiet).1

quiet_passes : use_limiter limits true true 100000 request quiet ≡ (next, after)
unfolding use_limiter add_rate_limit_entry
quiet_passes = refl

use_limiter_same_ms_example : (use_limiter limits true true 100000 request after).0 ≡ next
use_limiter_same_ms_example =
    use_limiter_same_ms limits true true 100000 request quiet after (omega arith) (omega arith)
      quiet_passes
