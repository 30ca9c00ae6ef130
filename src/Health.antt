-- ===== src/Health.antt =====
-- src/health/redis-health.indicator.ts: what the health check makes of a ping of Redis.
use sky_high_core.Common.{String, Option, none, some, if◌then◌else◌}
use text.Mathlib.Text.{◌==◌ as str_eq}

-- How a PING ends: with an answer, or with an error.
pub data Ping : Type 0 where
  answer : String → Ping
  failure : (message : String) → Ping

-- The details under a key, returned or in a `HealthCheckError`.
pub data HealthResult : Type 0 where
  up : (key : String) → HealthResult
  health_check_error : (key : String) → (message : Option String) → HealthResult

pub is_healthy : String → Ping → HealthResult
is_healthy key (answer result) =
    if str_eq result "PONG" then up key else health_check_error key none
is_healthy key (failure message) = health_check_error key (some message)
