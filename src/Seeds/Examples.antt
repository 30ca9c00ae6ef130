-- ===== src/Seeds/Examples.antt =====
-- Repositories that number their rows, and the seed over them.
use sky_high_core.Common.{
  ℕ, suc, ◌+◌, ◌<◌, ◌≡◌, ◌≢◌, ◌↔◌, refl, sym, ap, some, Option, String, List, [], ◌∷◌, ◌++◌, map,
  length, All, Any, split, arith, ◌*◌, ◌≤◌,
}
use sky_high_core.Seeds.{a380, NewSeat, Saved, generate_seats_for_flight}
use sky_high_core.Seeds.Plan.{IsAt, IsFree, generate_seats_for_flight-exact}
use sky_high_core.Seeds.Running.{DistinctIds, Store, seed}
use sky_high_core.Seeds.Running.Committed.{Seeded, seed-Seeded}

number : {R : Type 0} → ℕ → List R → List (Saved R)
number n [] = []
number n (x ∷ xs) = record { id = n; content = x } ∷ number (suc n) xs

map-number : {R : Type 0} (n : ℕ) (xs : List R) → map (λ r. r.content) (number n xs) ≡ xs
unfolding number
map-number n [] = refl
map-number n (x ∷ xs) = ap (λ l. x ∷ l) (map-number (suc n) xs)

number-apart : {R : Type 0} (m n : ℕ) (xs : List R) → m < n → All (λ q. m ≢ q.id) (number n xs)
unfolding number
number-apart m n [] below = tt
number-apart m n (x ∷ xs) below = (λ e. omega arith, number-apart m (suc n) xs (omega arith))

number-DistinctIds : {R : Type 0} (n : ℕ) (xs : List R) → DistinctIds (number n xs)
unfolding number
number-DistinctIds n [] = tt
number-DistinctIds n (x ∷ xs) =
    (number-apart n (suc n) xs (omega arith), number-DistinctIds (suc n) xs)

-- The aircraft types that are stored are only counted.
record Kept : Type 0 where
  types : ℕ
  seats : List NewSeat

saved_rows :
    {R : Type 0} (xs : List R) (s t s' : Kept) (rows : List (Saved R))
    → ◌≡◌ {A = Option (List (Saved R) × Kept)} (some (number 1 xs, t)) (some (rows, s'))
    → t.seats ≡ s.seats
    → (map (λ r. r.content) rows ≡ xs) × DistinctIds rows × (s'.seats ≡ s.seats)
saved_rows xs s t s' rows e kept =
    let same : number 1 xs ≡ rows = cc in
    (rw (sym same) (map-number 1 xs), rw (sym same) (number-DistinctIds 1 xs), ground arith)

saved_seats : (s s' : Kept) → some s ≡ some s' → s'.seats ≡ s.seats
saved_seats s s' e = ground arith

abbrev counted : Store
counted = record {
  State = Kept;
  seats = λ s. s.seats;
  count_aircraft_types = λ s. s.types;
  save_aircraft_types = λ xs s. some (number 1 xs, record s { types = s.types + length xs });
  save_flights = λ xs s. some (number 1 xs, s);
  save_seats = λ xs s. some (record s { seats = s.seats ++ xs });
  save_passengers = λ xs s. some s;
  save_aircraft_types-some =
      λ xs s s' rows e. saved_rows xs s (record s { types = s.types + length xs }) s' rows e refl;
  save_flights-some = λ xs s s' rows e. saved_rows xs s s s' rows e refl;
  save_seats-some = λ xs s s' e. saved_seats (record s { seats = s.seats ++ xs }) s' e;
  save_passengers-some = λ xs s s' e. saved_seats s s' e;
}

generate_seats_for_flight-exact_example :
    let seats = generate_seats_for_flight 4 a380 in
    let columns = split b',' "A,B,C,D,E,F,G,H,J,K" in
    (length seats ≡ 50 * length columns)
    × All (IsFree 4) seats
    × ((r : ℕ) (c : String)
        → Any (IsAt r c) seats ↔ ((1 ≤ r) × (r ≤ 50) × Any (λ d. d ≡ c) columns))
generate_seats_for_flight-exact_example = generate_seats_for_flight-exact 4 a380

abbrev empty : Kept
empty = record { types = 0; seats = [] }

seed-Seeded_example : Seeded counted 1000 empty (seed counted 1000 empty)
seed-Seeded_example = seed-Seeded counted 1000 empty
