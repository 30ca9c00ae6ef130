-- ===== src/Flights/Examples.antt =====
-- The theorem about the pages at a concrete list of flights.
use sky_high_core.Common.{List, ◌≤◌, ◌≡◌, refl, length, map, [], ◌∷◌, arith}
use sky_high_core.Domain.Entities.{Flight}
use sky_high_core.Domain.Errors.{ok}
use sky_high_core.Platform.World.{World}
use sky_high_core.Platform.Memory.Server.{memory}
use sky_high_core.Samples.{flight, no_rows, no_keys, world_of}
use sky_high_core.Flights.{PaginatedFlightsResponse, to_flight_response, find_all}
use sky_high_core.Flights.Pages.{pages_from, Timetable, find_all-pages}

abbrev airline : World memory
airline = world_of no_rows no_rows no_rows no_keys 1000

abbrev first : PaginatedFlightsResponse
first = record {
  data_rows = to_flight_response flight ∷ [];
  meta = record { page = 1; limit = 10; total_items = 1; total_pages = 1 };
}

shows : (find_all 1 10 airline).0 ≡ ok first
unfolding find_all
shows = refl

find_all-pages_example :
    (length first.data_rows ≤ 10)
    × (flights : List Flight) × (pages_from 10 0 1 airline ≡ map to_flight_response flights)
    × Timetable airline flights
find_all-pages_example = find_all-pages 10 airline 1 first (omega arith) shows
