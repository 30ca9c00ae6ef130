-- ===== src/Seat/Examples.antt =====
-- The theorems about the seat map at concrete states.
use sky_high_core.Common.{none, some, [], ◌∷◌, ◌≡◌, refl, arith}
use sky_high_core.Domain.Enums.{SeatStatus}
use sky_high_core.Domain.Errors.{ok}
use sky_high_core.Domain.Dtos.{SeatMapResponse}
use sky_high_core.Platform.World.{World}
use sky_high_core.Platform.Memory.Server.{memory}
use sky_high_core.Redis
use sky_high_core.Samples.{no_rows, one_row, seat_of, no_keys, world_of}
use sky_high_core.Seat.{to_seat_response, to_seat_map_response, get_seat_map}
use sky_high_core.Seat.Cache.{get_seat_map-get_seat_map}

abbrev open_flight : World memory
open_flight =
    world_of (one_row 5 (seat_of SeatStatus.available none none)) no_rows no_rows no_keys 1000

abbrev seen : SeatMapResponse
seen = record {
  flight_id = 1;
  aircraft = "A320";
  seats = (record { id = 5; row = 12; column = 65; status = SeatStatus.available }) ∷ [];
}

abbrev after : World memory
after = (get_seat_map 1 open_flight).1

reads : get_seat_map 1 open_flight ≡ (ok seen, after)
unfolding get_seat_map to_seat_map_response to_seat_response Redis.get_seat_map_cache
    Redis.set_seat_map_cache Redis.set
reads = refl

-- The seat is held a second later, and the map does not show it yet.
abbrev held_since : World memory
held_since =
    record (world_of (one_row 5 (seat_of SeatStatus.held (some 8) (some 1500))) no_rows no_rows
      no_keys 2000) { redis = after.redis }

get_seat_map-get_seat_map_example : (get_seat_map 1 held_since).0 ≡ ok seen
get_seat_map-get_seat_map_example =
    get_seat_map-get_seat_map 1 open_flight after held_since seen refl reads refl (omega arith)
