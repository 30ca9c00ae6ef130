-- ===== src/Seeds.antt =====
-- seeds/seed.ts: the data that a new database starts with. Departure times are in milliseconds from
-- the time of the run. The repositories are an interface; an id is a number.
pub mod Plan
pub mod Running
mod Examples
use sky_high_core.Common.{
  ℕ, zero, suc, ◌+◌, ◌*◌, ◌<◌, ◌≡◌, ◌≢◌, String, Bool, Option, none, some, List, [], ◌∷◌, ◌++◌, map,
  ◌==◌, ltb, if◌then◌else◌, length, find_in, split, All,
}
use sky_high_core.Domain.Enums.{SeatStatus, FlightStatus}

pub record AircraftTypeSeed : Type 0 where
  pub name : String
  pub rows : ℕ
  pub columns : String

pub record FlightSeed : Type 0 where
  pub flight_number : String
  pub aircraft_type_name : String
  pub departure_time : ℕ

pub record PassengerSeed : Type 0 where
  pub first_name : String
  pub last_name : String
  pub email : String

abbrev pub a320 : AircraftTypeSeed
a320 = record { name = "A320"; rows = 30; columns = "A,B,C,D,E,F" }

abbrev pub b737 : AircraftTypeSeed
b737 = record { name = "B737"; rows = 33; columns = "A,B,C,D,E,F" }

abbrev pub a380 : AircraftTypeSeed
a380 = record { name = "A380"; rows = 50; columns = "A,B,C,D,E,F,G,H,J,K" }

abbrev pub aircraft_types : List AircraftTypeSeed
aircraft_types = a320 ∷ b737 ∷ a380 ∷ []

abbrev hours : ℕ → ℕ
hours n = n * 60 * 60 * 1000

abbrev pub sh_1042 : (now : ℕ) → FlightSeed
sh_1042 now = record {
  flight_number = "SH-1042";
  aircraft_type_name = "A320";
  departure_time = now + hours 24;
}

abbrev pub sh_2085 : (now : ℕ) → FlightSeed
sh_2085 now = record {
  flight_number = "SH-2085";
  aircraft_type_name = "B737";
  departure_time = now + hours 48;
}

abbrev pub sh_3001 : (now : ℕ) → FlightSeed
sh_3001 now = record {
  flight_number = "SH-3001";
  aircraft_type_name = "A380";
  departure_time = now + hours 72;
}

abbrev pub flights : (now : ℕ) → List FlightSeed
flights now = sh_1042 now ∷ sh_2085 now ∷ sh_3001 now ∷ []

abbrev person : String → String → String → PassengerSeed
person first last email = record { first_name = first; last_name = last; email = email }

abbrev pub passengers : List PassengerSeed
passengers =
    person "Alice" "Johnson" "alice.johnson@example.com"
    ∷ person "Bob" "Smith" "bob.smith@example.com"
    ∷ person "Charlie" "Brown" "charlie.brown@example.com"
    ∷ person "Diana" "Prince" "diana.prince@example.com"
    ∷ person "Edward" "Norton" "edward.norton@example.com"
    ∷ person "Fiona" "Apple" "fiona.apple@example.com"
    ∷ person "George" "Miller" "george.miller@example.com"
    ∷ person "Hannah" "Lee" "hannah.lee@example.com"
    ∷ person "Ivan" "Petrov" "ivan.petrov@example.com"
    ∷ person "Julia" "Roberts" "julia.roberts@example.com"
    ∷ []

-- What `create` makes of a row before it is stored, and the row as stored, with its id.
pub record NewFlight : Type 0 where
  pub flight_number : String
  pub aircraft_type_id : ℕ
  pub departure_time : ℕ
  pub status : FlightStatus

pub record NewSeat : Type 0 where
  pub flight_id : ℕ
  pub row : ℕ
  pub column : String
  pub status : SeatStatus
  pub held_by : Option ℕ
  pub held_at : Option ℕ

pub record Saved (R : Type 0) : Type 0 where
  pub id : ℕ
  pub content : R

-- A pass of the inner loop.
pub seats_of_row : (flight_id row : ℕ) → List String → List NewSeat
seats_of_row flight_id row [] = []
seats_of_row flight_id row (col ∷ columns) =
    record {
      flight_id = flight_id;
      row = row;
      column = col;
      status = SeatStatus.available;
      held_by = none;
      held_at = none;
    }
    ∷ seats_of_row flight_id row columns

-- The outer loop, from a row on, with so many rows to come.
pub seats_from : (flight_id row left : ℕ) → List String → List NewSeat
unfolding seats_of_row
seats_from flight_id row zero columns = []
seats_from flight_id row (suc left) columns =
    seats_of_row flight_id row columns ++ seats_from flight_id (row + 1) left columns

pub generate_seats_for_flight : ℕ → AircraftTypeSeed → List NewSeat
unfolding seats_from split
generate_seats_for_flight flight_id aircraft_type =
    seats_from flight_id 1 aircraft_type.rows (split b',' aircraft_type.columns)
