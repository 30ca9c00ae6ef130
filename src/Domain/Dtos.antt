-- ===== src/Domain/Dtos.antt =====
-- The request and response objects of the services, src/*/dto/*.ts, and what goes between them:
-- events, metrics and Redis keys.
use sky_high_core.Common.{ℕ, String, Option, Bool, false, List, ◌==◌}
use sky_high_core.Domain.Enums.{SeatStatus, CheckInStatus, WaitlistStatus}

pub record SeatResponse : Type 0 where
  pub id : ℕ
  pub row : ℕ
  pub column : ℕ
  pub status : SeatStatus

pub record SeatMapResponse : Type 0 where
  pub flight_id : ℕ
  pub aircraft : String
  pub seats : List SeatResponse

-- The text that goes with a response; the fee is the one of the request.
pub data Message : Type 0 where
  fee_must_be_paid : ℕ → Message

pub record CheckInResponse : Type 0 where
  pub id : ℕ
  pub passenger_id : ℕ
  pub flight_id : ℕ
  pub seat_id : Option ℕ
  pub status : CheckInStatus
  pub baggage_weight : Option ℕ
  pub excess_fee : Option ℕ
  pub payment_id : Option String
  pub hold_expires_at : Option ℕ
  pub confirmed_at : Option ℕ
  pub message : Option Message
  pub created_at : ℕ

-- The response's `status` is the literal "CANCELLED".
pub record CheckInCancelledResponse : Type 0 where
  pub id : ℕ
  pub status : CheckInStatus
  pub cancelled_at : ℕ

pub record WaitlistResponse : Type 0 where
  pub id : ℕ
  pub flight_id : ℕ
  pub passenger_id : ℕ
  pub position : ℕ
  pub status : WaitlistStatus
  pub created_at : ℕ

-- What the services give to the event emitter.
pub data Event : Type 0 where
  waitlist_process : (flight_id : ℕ) (seat_id : Option ℕ) → Event
  waitlist_notification : (passenger_id flight_id seat_id waitlist_entry_id : ℕ) → Event

pub data Mechanism : Type 0 where
  keyspace sweep : Mechanism

pub data Stage : Type 0 where
  started completed : Stage

-- One constructor for each observation of a Prometheus metric; durations are in milliseconds, and
-- a flight label is absent where the source writes "unknown".
pub data Metric : Type 0 where
  seat_map_requests : (flight_id : ℕ) → Metric
  seat_contention : (flight_id : ℕ) → Metric
  seat_hold_duration : (flight_id duration : ℕ) → Metric
  checkin_duration : (flight_id : ℕ) → Stage → (duration : ℕ) → Metric
  hold_expiry : (flight_id : Option ℕ) → Mechanism → Metric
  waitlist_depth_inc waitlist_depth_dec : (flight_id : ℕ) → Metric
  waitlist_assignment : (flight_id : ℕ) → Metric
  payment_duration : (status : String) (duration : ℕ) → Metric

-- The keys by family: the source spells a key as the prefix of its family and an id.
pub data RedisKey : Type 0 where
  seat_lock waitlist_lock seat_hold seat_map_cache rate_limit : ℕ → RedisKey

abbrev pub same_key : RedisKey → RedisKey → Bool
same_key (RedisKey.seat_lock a) (RedisKey.seat_lock b) = a == b
same_key (RedisKey.waitlist_lock a) (RedisKey.waitlist_lock b) = a == b
same_key (RedisKey.seat_hold a) (RedisKey.seat_hold b) = a == b
same_key (RedisKey.seat_map_cache a) (RedisKey.seat_map_cache b) = a == b
same_key (RedisKey.rate_limit a) (RedisKey.rate_limit b) = a == b
same_key _ _ = false

-- A value is a passenger's id or a seat map in JSON, which reads back as it was written.
pub data RedisValue : Type 0 where
  passenger : ℕ → RedisValue
  seat_map : SeatMapResponse → RedisValue
