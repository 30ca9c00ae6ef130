-- ===== src/Samples.antt =====
-- Concrete data for the examples: a flight with a seat, its passengers, and the services.
use sky_high_core.Platform.Backend.{AlwaysGrants, AlwaysWrites}
use sky_high_core.Common.{refl, ℕ, zero, suc, Option, none, some, [], ◌==◌, if◌then◌else◌}
use sky_high_core.Domain.Enums.{SeatStatus, CheckInStatus, WaitlistStatus, FlightStatus}
use sky_high_core.Domain.Entities.{Flight, Seat, CheckIn, Waitlist}
use sky_high_core.Domain.Dtos.{RedisKey, RedisValue}
use sky_high_core.Platform.Memory.Rows.{Rows}
use sky_high_core.Platform.Memory.Server.{Stored, write, remove, memory}
use sky_high_core.Platform.World.{World}
use sky_high_core.Doubles.{double}
use sky_high_core.Baggage.{BaggageConfig}
use sky_high_core.Payment.{PaymentConfig, Reply, response, failure}

abbrev pub no_rows : {R : Type 0} → Rows R
no_rows = record { next = 0; at = λ _. none }

abbrev pub one_row : {R : Type 0} → ℕ → R → Rows R
one_row i r = record { next = 10; at = λ j. if j == i then some r else none }

abbrev pub flight : Flight
flight = record {
  id = 1;
  flight_number = "SH101";
  aircraft_type = record { id = 1; name = "A320"; rows = 30; columns = "ABCDEF" };
  departure_time = 90000000;
  status = FlightStatus.scheduled;
}

abbrev pub seat_of : SeatStatus → Option ℕ → Option ℕ → Seat
seat_of status held_by held_at = record {
  id = 5;
  flight_id = 1;
  row = 12;
  column = 65;
  status = status;
  held_by = held_by;
  held_at = held_at;
}

-- The check-in 3 of passenger 7 on seat 5, started at 1000.
abbrev pub check_in_of : CheckInStatus → CheckIn
check_in_of status = record {
  id = 3;
  passenger_id = 7;
  flight_id = 1;
  seat_id = some 5;
  status = status;
  baggage_weight = none;
  excess_fee = none;
  payment_id = none;
  created_at = 1000;
}

-- The entry 2 of passenger 8 on the waitlist.
abbrev pub entry_of : WaitlistStatus → Waitlist
entry_of status = record {
  id = 2;
  flight_id = 1;
  passenger_id = 8;
  position = 1;
  status = status;
  created_at = 500;
}

-- The hold key of seat 5 for a passenger, written at 1000.
abbrev pub hold_of : ℕ → RedisKey → Option Stored
hold_of passenger_id (RedisKey.seat_hold s) =
    if s == 5
    then some (record { value = RedisValue.passenger passenger_id; written = 1000; ttl = 120 })
    else none
hold_of passenger_id _ = none

abbrev pub no_keys : RedisKey → Option Stored
no_keys _ = none

abbrev pub world_of :
    Rows Seat → Rows CheckIn → Rows Waitlist → (RedisKey → Option Stored) → ℕ → World memory
world_of seats check_ins waitlists keys clock = record {
  tables = record {
    flights = one_row 1 flight;
    seats = seats;
    check_ins = check_ins;
    waitlists = waitlists;
    audit_logs = [];
  };
  redis = keys;
  locks = tt;
  clock = clock;
  saving = [];
  events = [];
  metrics = [];
}

-- An allowance of 25 kg, and 15 dollars for a kilogram above it.
abbrev pub baggage : BaggageConfig
baggage = record { max_baggage_kg = double 25; excess_fee_per_kg = double 15 }

abbrev pub payments : PaymentConfig
payments = record { max_retries = 3; initial_backoff_ms = 200 }

-- A Payment Service that fails twice, then confirms.
abbrev pub recovering : ℕ → Reply
recovering zero = failure "timeout"
recovering (suc zero) = failure "HTTP 500"
recovering _ = response "tx-1" "confirmed"

abbrev pub memory_grants : AlwaysGrants memory
memory_grants = record { granted = λ key ttl t l. (l, refl); released = λ key t l. (l, refl) }

abbrev pub memory_writes : AlwaysWrites memory
memory_writes = record {
  written = λ k v ttl t s. (write k v ttl t s, refl);
  deleted = λ t k s. (remove k s, refl);
}
