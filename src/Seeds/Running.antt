-- ===== src/Seeds/Running.antt =====
-- `seed` of seeds/seed.ts: what it saves, in one transaction. The repositories are an interface.
pub mod Stored
pub mod Committed
use text.Mathlib.Text.{◌==◌ as str_eq}
use sky_high_core.Common.{
  ℕ, ◌+◌, ◌≡◌, ◌≢◌, String, Option, none, some, List, [], ◌∷◌, ◌++◌, map, ◌==◌, ltb, if◌then◌else◌,
  length, find_in, All,
}
use sky_high_core.Domain.Enums.{FlightStatus}
use sky_high_core.Seeds.{
  AircraftTypeSeed, FlightSeed, PassengerSeed, aircraft_types, flights, passengers, NewFlight,
  NewSeat, Saved, generate_seats_for_flight,
}

-- No two rows have the same id.
abbrev pub DistinctIds : {R : Type 0} → List (Saved R) → Type 0
DistinctIds [] = Unit {0}
DistinctIds (r ∷ rs) = All (λ q. r.id ≢ q.id) rs × DistinctIds rs

-- The repositories of the seed's transaction; `none` is a query that fails.
pub record Store : Type 1 where
  pub State : Type 0
  -- the seats that are stored, the last one last
  pub seats : State → List NewSeat
  pub count_aircraft_types : State → ℕ
  pub save_aircraft_types :
      List AircraftTypeSeed → State → Option (List (Saved AircraftTypeSeed) × State)
  pub save_flights : List NewFlight → State → Option (List (Saved NewFlight) × State)
  pub save_seats : List NewSeat → State → Option State
  pub save_passengers : List PassengerSeed → State → Option State
  -- `save` returns the rows that it was given, each with an id of its own.
  pub save_aircraft_types-some :
      (xs : List AircraftTypeSeed) (s s' : State) (rows : List (Saved AircraftTypeSeed))
      → save_aircraft_types xs s ≡ some (rows, s')
      → (map (λ r. r.content) rows ≡ xs) × DistinctIds rows × (seats s' ≡ seats s)
  pub save_flights-some :
      (xs : List NewFlight) (s s' : State) (rows : List (Saved NewFlight))
      → save_flights xs s ≡ some (rows, s')
      → (map (λ r. r.content) rows ≡ xs) × DistinctIds rows × (seats s' ≡ seats s)
  pub save_seats-some :
      (xs : List NewSeat) (s s' : State) → save_seats xs s ≡ some s' → seats s' ≡ seats s ++ xs
  pub save_passengers-some :
      (xs : List PassengerSeed) (s s' : State) → save_passengers xs s ≡ some s' → seats s' ≡ seats s

-- `aircraftTypeMap.get(name)`: of two entries with one name the later one counts.
pub map_get : String → List (Saved AircraftTypeSeed) → Option (Saved AircraftTypeSeed)
map_get name [] = none
map_get name (r ∷ rs) = elim (map_get name rs) [
  | some later ↦ some later
  | none ↦ if str_eq r.content.name name then some r else none
]

pub data SeedError : Type 0 where
  aircraft_type_not_found not_saved : SeedError

pub data Attempt (A : Type 0) : Type 0 where
  done : A → Attempt A
  thrown : SeedError → Attempt A

infixl 5 ◌>>=◌
abbrev pub ◌>>=◌ : {A B : Type 0} → Attempt A → (A → Attempt B) → Attempt B
done a >>= f = f a
thrown e >>= f = thrown e

abbrev pub or_thrown : {A : Type 0} → SeedError → Option A → Attempt A
or_thrown e none = thrown e
or_thrown e (some a) = done a

-- `FLIGHTS.map(...)`
pub create_flights : List (Saved AircraftTypeSeed) → List FlightSeed → Attempt (List NewFlight)
unfolding map_get
create_flights types [] = done []
create_flights types (f ∷ fs) = do
  aircraft_type ← or_thrown aircraft_type_not_found (map_get f.aircraft_type_name types)
  rest ← create_flights types fs
  done (
      record {
        flight_number = f.flight_number;
        aircraft_type_id = aircraft_type.id;
        departure_time = f.departure_time;
        status = FlightStatus.scheduled;
      }
      ∷ rest)

pub data Ending : Type 0 where
  skipped : Ending
  seeded : (total_seats : ℕ) → Ending
  failed : SeedError → Ending

module _ (store : Store) where
  -- The loop over the flights, with the number of seats so far.
  pub save_seats_of_flights :
      List (Saved AircraftTypeSeed)
      → List (Saved NewFlight)
      → ℕ
      → store.State
      → Attempt (ℕ × store.State)
  unfolding generate_seats_for_flight
  save_seats_of_flights types [] total s = done (total, s)
  save_seats_of_flights types (flight ∷ flights) total s = do
    aircraft_type ←
        or_thrown aircraft_type_not_found
          (find_in (λ t. t.id == flight.content.aircraft_type_id) types)
    let seat_data = generate_seats_for_flight flight.id aircraft_type.content
    s' ← or_thrown not_saved (store.save_seats seat_data s)
    save_seats_of_flights types flights (total + length seat_data) s'

  -- The body of the transaction, after the look at the aircraft types.
  pub fill : (now : ℕ) → store.State → Attempt (ℕ × store.State)
  fill now s = do
    (types, s₁) ← or_thrown not_saved (store.save_aircraft_types aircraft_types s)
    new_flights ← create_flights types (flights now)
    (saved_flights, s₂) ← or_thrown not_saved (store.save_flights new_flights s₁)
    (total, s₃) ← save_seats_of_flights types saved_flights 0 s₂
    s₄ ← or_thrown not_saved (store.save_passengers passengers s₃)
    done (total, s₄)

  abbrev pub end_transaction : store.State → Attempt (ℕ × store.State) → Ending × store.State
  end_transaction before (done (total, s)) = (seeded total, s)
  end_transaction before (thrown e) = (failed e, before)

  -- A rollback brings back the state that the transaction began with.
  pub seed : (now : ℕ) → store.State → Ending × store.State
  seed now s =
      if ltb 0 (store.count_aircraft_types s) then (skipped, s) else end_transaction s (fill now s)
