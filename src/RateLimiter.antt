-- ===== src/RateLimiter.antt =====
-- src/common/middleware/rate-limiter.middleware.ts, with `addRateLimitEntry` of
-- src/common/redis/redis.service.ts and `record` and `cleanupOldAbuseEvents` of
-- src/audit/abuse-event.service.ts.
pub mod Window
pub mod Memory
mod Examples
use sky_high_core.Common.{
  ℕ, ◌-◌, ◌+◌, ◌≡◌, String, Bool, not, true, false, ◌&&◌, ◌==◌, leb, ltb, List, [], ◌∷◌, length,
  select, if◌then◌else◌, Option, none, some,
}
use sky_high_core.Filter.{ErrorType, error_type_of}
use sky_high_core.Domain.Errors.{rate_limit_exceeded}

abbrev pub has : ℕ → List ℕ → Bool
has n [] = false
has n (x ∷ xs) = let rest = has n xs in if x == n then true else rest

abbrev pub with_member : ℕ → List ℕ → List ℕ
with_member n xs = if has n xs then xs else n ∷ xs

-- `ZREMRANGEBYSCORE key 0 max` leaves the scores above.
abbrev pub above : ℕ → List ℕ → List ℕ
above max xs = select (λ x. ltb max x) xs

-- Redis sorted sets of which each member is its own score, as numerals. A client is numbered.
pub record SortedSets : Type 1 where
  pub State : Type 0
  -- the members of a key at a time
  pub members : ℕ → ℕ → State → List ℕ
  -- each command names its key, and the time at which it runs comes last
  pub zremrangebyscore : (key max at : ℕ) → State → State
  pub zadd : (key member at : ℕ) → State → State
  pub pexpire : (key ttl at : ℕ) → State → State
  pub members-zremrangebyscore :
      (j k max at : ℕ) (s : State)
      → members at j (zremrangebyscore k max at s)
        ≡ (if k == j then above max (members at j s) else members at j s)
  pub members-zadd :
      (j k n at : ℕ) (s : State)
      → members at j (zadd k n at s)
        ≡ (if k == j then with_member n (members at j s) else members at j s)
  -- the key is there until its time to live is over
  pub members-pexpire :
      (t j k ttl at : ℕ) (s : State)
      → members t j (pexpire k ttl at s)
        ≡ (if k == j then (if ltb t (at + ttl) then members at j s else []) else members t j s)

pub record Limits : Type 0 where
  pub window_ms : ℕ
  pub max_requests : ℕ

pub record AbuseEvent : Type 0 where
  pub source_ip : ℕ
  pub request_count : ℕ
  pub window_start : ℕ
  pub window_end : ℕ
  pub endpoint : String
  pub method : String
  pub created_at : ℕ

pub record Request : Type 0 where
  pub client_ip : ℕ
  pub original_url : String
  pub method : String

-- Either the request goes on to its handler, or it is answered.
pub data Verdict : Type 0 where
  next : Verdict
  too_many : ErrorType → (retry_after : ℕ) → Verdict

abbrev retry_after_seconds : ℕ
retry_after_seconds = 2

-- Events are listed newest first.
pub record Guard (sets : SortedSets) : Type 0 where
  pub redis : sets.State
  pub abuse_events : List AbuseEvent

-- The number of members in the window, this request's among them. `answers` is whether the
-- pipeline brings the count back; its commands have run before the answer.
pub add_rate_limit_entry :
    (sets : SortedSets) → Bool → (key now window : ℕ) → sets.State → ℕ × sets.State
add_rate_limit_entry sets answers key now window s =
    let s₁ = sets.zremrangebyscore key (now - window) now s in
    let s₂ = sets.zadd key now now s₁ in
    let s₃ = sets.pexpire key window now s₂ in
    (if answers then length (sets.members now key s₂) else 0, s₃)

-- `stores` is whether the row, which nobody waits for, is stored.
pub record_event : Bool → AbuseEvent → List AbuseEvent → List AbuseEvent
record_event stores e events = if stores then e ∷ events else events

module _ {sets : SortedSets} where
  pub use_limiter : Limits → Bool → Bool → ℕ → Request → Guard sets → Verdict × Guard sets
  unfolding record_event
  use_limiter limits answers stores now req g =
      let (count, s) =
        add_rate_limit_entry sets answers req.client_ip now limits.window_ms g.redis in
      if leb limits.max_requests count
      then (
        too_many (error_type_of rate_limit_exceeded) retry_after_seconds,
        record {
          redis = s;
          abuse_events =
              record_event stores
                (record {
                  source_ip = req.client_ip;
                  request_count = count;
                  window_start = now - limits.window_ms;
                  window_end = now;
                  endpoint = req.original_url;
                  method = req.method;
                  created_at = now;
                })
                g.abuse_events;
        },
      )
      else (next, record g { redis = s })

-- `delete({ createdAt: LessThan(cutoffDate) })`, and the number of rows deleted.
pub cleanup_old_abuse_events : (cutoff : ℕ) → List AbuseEvent → ℕ × List AbuseEvent
cleanup_old_abuse_events cutoff events = (
  length (select (λ e. ltb e.created_at cutoff) events),
  select (λ e. not (ltb e.created_at cutoff)) events,
)
