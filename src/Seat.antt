-- ===== src/Seat.antt =====
-- src/seat/seat.service.ts: the seat map behind a cache of two seconds.
pub mod Cache
mod Examples
use sky_high_core.Common.{ℕ, Option, none, some, Bool, ◌&&◌, ◌||◌, ◌==◌, ltb, leb, List, map}
use sky_high_core.Domain.Entities.{Flight, Seat}
use sky_high_core.Domain.Errors.{Action, domain, flight_not_found, pure, gets, ◌>>=◌, ◌>>◌}
use sky_high_core.Domain.Dtos.{RedisKey, SeatResponse, SeatMapResponse, Metric}
use sky_high_core.Platform.Backend.{Backend}
use sky_high_core.Platform.World.{World, or_throw, observe}
use sky_high_core.Redis

pub to_seat_response : Seat → SeatResponse
to_seat_response seat = record {
  id = seat.id;
  row = seat.row;
  column = seat.column;
  status = seat.status;
}

pub to_seat_map_response : Flight → List Seat → SeatMapResponse
to_seat_map_response flight seats = record {
  flight_id = flight.id;
  aircraft = flight.aircraft_type.name;
  seats = map to_seat_response seats;
}

-- `order: { row: "ASC", column: "ASC" }`
abbrev pub by_place : Seat → Seat → Bool
by_place a b = ltb a.row b.row || (a.row == b.row && leb a.column b.column)

module _ {be : Backend} where
  abbrev load_seat_map : ℕ → Action (World be) SeatMapResponse
  load_seat_map flight_id = do
    found ← gets (λ w. be.flight_rows.find_one (λ f. f.id == flight_id) w.flights)
    flight ← or_throw (domain flight_not_found) found
    seats ← gets (λ w. be.seat_rows.find by_place (λ s. s.flight_id == flight_id) w.seats)
    let response = to_seat_map_response flight seats
    Redis.set_seat_map_cache (RedisKey.seat_map_cache flight_id) response
    observe (Metric.seat_map_requests flight_id)
    pure response

  abbrev from_cache : ℕ → Option SeatMapResponse → Action (World be) SeatMapResponse
  from_cache flight_id none = load_seat_map flight_id
  from_cache flight_id (some cached) = do observe (Metric.seat_map_requests flight_id); pure cached

  pub get_seat_map : ℕ → Action (World be) SeatMapResponse
  get_seat_map flight_id = do
    cached ← Redis.get_seat_map_cache (RedisKey.seat_map_cache flight_id)
    from_cache flight_id cached

  unfoldable pub invalidate_cache : ℕ → Action (World be) (Unit {0})
  invalidate_cache flight_id = Redis.del (RedisKey.seat_map_cache flight_id)
