-- ===== src/Seeds/Plan.antt =====
-- The seats that are generated for a flight.
use sky_high_core.Common.{
  ℕ, zero, suc, ◌+◌, ◌*◌, ◌≤◌, ◌≡◌, ◌↔◌, inl, inr, refl, String, none, List, [], ◌∷◌, length,
  length-append, split, All, Any, Any-append, Any-left, Any-right, All-append, Bool-cases, ==_iff,
  ◌==◌, arith,
}
use sky_high_core.Domain.Enums.{SeatStatus}
use sky_high_core.Seeds.{
  AircraftTypeSeed, NewSeat, seats_of_row, seats_from, generate_seats_for_flight,
}

-- A seat at a place, and a seat of a flight that nobody has.
abbrev pub IsAt : ℕ → String → NewSeat → Type 0
IsAt r c seat = (seat.row ≡ r) × (seat.column ≡ c)

abbrev pub IsFree : ℕ → NewSeat → Type 0
IsFree f seat =
    (seat.flight_id ≡ f)
    × (seat.status ≡ SeatStatus.available)
    × (seat.held_by ≡ none)
    × (seat.held_at ≡ none)

module _ (f : ℕ) where
  length-seats_of_row : (row : ℕ) (cs : List String) → length (seats_of_row f row cs) ≡ length cs
  unfolding seats_of_row
  length-seats_of_row row [] = refl
  length-seats_of_row row (c ∷ cs) = omega (arith, length-seats_of_row row cs)

  seats_of_row-IsFree : (row : ℕ) (cs : List String) → All (IsFree f) (seats_of_row f row cs)
  unfolding seats_of_row
  seats_of_row-IsFree row [] = tt
  seats_of_row-IsFree row (c ∷ cs) = ((refl, refl, refl, refl), seats_of_row-IsFree row cs)

  seats_of_row-IsAt :
      (row r : ℕ) (c : String) (cs : List String)
      → Any (IsAt r c) (seats_of_row f row cs) ↔ ((row ≡ r) × Any (λ d. d ≡ c) cs)
  unfolding seats_of_row
  seats_of_row-IsAt row r c [] = (λ h. absurd h, λ h. h.1)
  seats_of_row-IsAt row r c (d ∷ cs) =
      let rest = seats_of_row-IsAt row r c cs in
      (
        λ h. elim h [
          | inl (a, b) ↦ (a, inl b)
          | inr later ↦ ((rest.0 later).0, inr (rest.0 later).1)
        ],
        λ h. elim h.1 [ inl b ↦ inl (h.0, b) | inr later ↦ inr (rest.1 (h.0, later)) ],
      )

  length-seats_from :
      (row left : ℕ) (cs : List String) → length (seats_from f row left cs) ≡ left * length cs
  unfolding seats_from
  length-seats_from row zero cs = omega arith
  length-seats_from row (suc left) cs = grind (
    arith,
    length-append (seats_of_row f row cs) (seats_from f (row + 1) left cs),
    length-seats_of_row row cs,
    length-seats_from (row + 1) left cs,
  )

  seats_from-IsFree : (row left : ℕ) (cs : List String) → All (IsFree f) (seats_from f row left cs)
  unfolding seats_from
  seats_from-IsFree row zero cs = tt
  seats_from-IsFree row (suc left) cs =
      All-append (IsFree f) (seats_of_row f row cs) (seats_from f (row + 1) left cs)
        (seats_of_row-IsFree row cs) (seats_from-IsFree (row + 1) left cs)

  seats_from-IsAt :
      (row left r : ℕ) (c : String) (cs : List String)
      → Any (IsAt r c) (seats_from f row left cs)
        ↔ ((row ≤ r) × (suc r ≤ row + left) × Any (λ d. d ≡ c) cs)
  unfolding seats_from
  seats_from-IsAt row zero r c cs = (λ h. absurd h, λ h. absurd (omega arith))
  seats_from-IsAt row (suc left) r c cs =
      let here = seats_of_row-IsAt row r c cs in
      let later = seats_from-IsAt (row + 1) left r c cs in
      (
        λ h.
            elim (Any-append (IsAt r c) (seats_of_row f row cs) (seats_from f (row + 1) left cs)
              h) [
                | inl a ↦ (omega (arith, (here.0 a).0), omega (arith, (here.0 a).0), (here.0 a).1)
                | inr b ↦
                    (omega (arith, (later.0 b).0), omega (arith, (later.0 b).1), (later.0 b).2)
              ],
        λ h. elim (Bool-cases (row == r)) [
          | inl same ↦
              Any-left (IsAt r c) (seats_of_row f row cs) (seats_from f (row + 1) left cs)
                (here.1 ((==_iff row r).0 same, h.2))
          | inr other ↦
              Any-right (IsAt r c) (seats_of_row f row cs) (seats_from f (row + 1) left cs)
                (later.1 (ground arith, omega arith, h.2))
        ],
      )

-- The seats generated for a flight are as many as the rows of the aircraft type times its columns,
-- all of them are AVAILABLE on this flight with no holder and no time of a hold, and there is one
-- at a place if and only if the row is between 1 and the number of rows and the column is one of
-- the type's.
pub generate_seats_for_flight-exact :
    (f : ℕ) (t : AircraftTypeSeed)
    → let seats = generate_seats_for_flight f t in
      let columns = split b',' t.columns in
      (length seats ≡ t.rows * length columns)
      × All (IsFree f) seats
      × ((r : ℕ) (c : String)
          → Any (IsAt r c) seats ↔ ((1 ≤ r) × (r ≤ t.rows) × Any (λ d. d ≡ c) columns))
unfolding generate_seats_for_flight
generate_seats_for_flight-exact f t =
    let columns = split b',' t.columns in
    (
      length-seats_from f 1 t.rows columns,
      seats_from-IsFree f 1 t.rows columns,
      λ r c.
          let at = seats_from-IsAt f 1 t.rows r c columns in
          (
            λ h. ((at.0 h).0, omega (arith, (at.0 h).1), (at.0 h).2),
            λ h. at.1 (h.0, omega arith, h.2),
          ),
    )
