-- ===== src/Flights.antt =====
-- src/flight/flight.service.ts: the flights, page by page.
pub mod Pages
mod Examples
use sky_high_core.Common.{
  ℕ, zero, suc, ◌+◌, ◌-◌, ◌*◌, ◌/◌, String, Bool, Option, none, some, List, [], ◌∷◌, ◌==◌, leb, map,
  length, true,
}
use sky_high_core.Domain.Enums.{FlightStatus}
use sky_high_core.Domain.Entities.{Flight, AircraftType}
use sky_high_core.Domain.Errors.{Action, domain, flight_not_found, pure, gets, ◌>>=◌, ◌>>◌}
use sky_high_core.Platform.Backend.{Backend}
use sky_high_core.Platform.World.{World, or_throw}

pub record FlightResponse : Type 0 where
  pub id : ℕ
  pub flight_number : String
  pub departure_time : ℕ
  pub status : FlightStatus
  pub aircraft_type : AircraftType

pub record PaginationMeta : Type 0 where
  pub page : ℕ
  pub limit : ℕ
  pub total_items : ℕ
  pub total_pages : ℕ

pub record PaginatedFlightsResponse : Type 0 where
  pub data_rows : List FlightResponse
  pub meta : PaginationMeta

-- The response's aircraft type has the columns of the entity's.
pub to_flight_response : Flight → FlightResponse
to_flight_response flight = record {
  id = flight.id;
  flight_number = flight.flight_number;
  departure_time = flight.departure_time;
  status = flight.status;
  aircraft_type = flight.aircraft_type;
}

module _ {ℓ} {A : Type ℓ} where
  abbrev pub take : ℕ → List A → List A
  take n [] = []
  take zero (x ∷ xs) = []
  take (suc n) (x ∷ xs) = x ∷ take n xs

  abbrev pub drop : ℕ → List A → List A
  drop n [] = []
  drop zero (x ∷ xs) = x ∷ xs
  drop (suc n) (x ∷ xs) = drop n xs

-- `Math.ceil(n / d)`
abbrev pub ceil_div : ℕ → ℕ → ℕ
ceil_div n d = (n + (d - 1)) / d

-- `order: { departureTime: "ASC" }`
abbrev pub by_departure : Flight → Flight → Bool
by_departure a b = leb a.departure_time b.departure_time

module _ {be : Backend} where
  -- `findAndCount` gives a slice of the rows in their order, and the number of all. Flights that
  -- depart at one time are taken to come in the same order in every query of one table.
  pub find_all : (page limit : ℕ) → Action (World be) PaginatedFlightsResponse
  find_all page limit = do
    let skip = (page - 1) * limit
    flights ← gets λ w. be.flight_rows.find by_departure (λ _. true) w.flights
    let total_items = length flights
    pure (record {
      data_rows = map to_flight_response (take limit (drop skip flights));
      meta = record {
        page = page;
        limit = limit;
        total_items = total_items;
        total_pages = ceil_div total_items limit;
      };
    })

  pub find_one : ℕ → Action (World be) FlightResponse
  find_one flight_id = do
    found ← gets λ w. be.flight_rows.find_one (λ f. f.id == flight_id) w.flights
    flight ← or_throw (domain flight_not_found) found
    pure (to_flight_response flight)
