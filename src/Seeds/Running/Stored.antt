-- ===== src/Seeds/Running/Stored.antt =====
-- What the seed has stored along the way.
use mathlib.Core.Path.{subst}
use mathlib.Core.List.{append_assoc, append-nil}
use sky_high_core.Common.{
  ℕ, ◌+◌, ◌≡◌, ◌≢◌, sym, ◌∙◌, ap, refl, some, List, [], ◌∷◌, ◌++◌, map, length, find_in, split,
  ◌==◌, ==-refl, arith, inl, inr, Option-cases,
}
use sky_high_core.Domain.Enums.{FlightStatus}
use sky_high_core.Seeds.{
  AircraftTypeSeed, FlightSeed, a320, b737, a380, NewSeat, sh_1042, sh_2085, sh_3001, flights,
  NewFlight, Saved, generate_seats_for_flight,
}
use sky_high_core.Seeds.Plan.{generate_seats_for_flight-exact}
use sky_high_core.Seeds.Running.{
  DistinctIds, Store, map_get, not_saved, Attempt, done, thrown, create_flights,
  save_seats_of_flights,
}

abbrev pub saved : {R : Type 0} → ℕ → R → Saved R
saved id content = record { id = id; content = content }

abbrev pub three : {R : Type 0} → ℕ → ℕ → ℕ → R → R → R → List (Saved R)
three a b c x y z = saved a x ∷ saved b y ∷ saved c z ∷ []

-- Rows that hold three given contents.
pub three_rows :
    {R : Type 0} (x y z : R) (rows : List (Saved R))
    → map (λ r. r.content) rows ≡ x ∷ y ∷ z ∷ []
    → (a : ℕ) × (b : ℕ) × (c : ℕ) × (rows ≡ three a b c x y z)
three_rows x y z [] e = cc
three_rows x y z (r ∷ []) e = cc
three_rows x y z (r ∷ q ∷ []) e = cc
three_rows x y z (r ∷ q ∷ p ∷ []) e = (r.id, q.id, p.id, ground arith)
three_rows x y z (r ∷ q ∷ p ∷ o ∷ rows) e = cc

pub distinct_three :
    {R : Type 0} (a b c : ℕ) (x y z : R) (rows : List (Saved R))
    → rows ≡ three a b c x y z
    → DistinctIds rows
    → (a ≢ b) × (a ≢ c) × (b ≢ c)
distinct_three a b c x y z rows e apart =
    let d = subst DistinctIds e apart in (d.0.0, d.0.1.0, d.1.0.0)

abbrev pub on_type : FlightSeed → ℕ → NewFlight
on_type f type_id = record {
  flight_number = f.flight_number;
  aircraft_type_id = type_id;
  departure_time = f.departure_time;
  status = FlightStatus.scheduled;
}

-- The flights as they are created on the aircraft types `a`, `b` and `c`.
abbrev pub on_types : ℕ → ℕ → ℕ → ℕ → List NewFlight
on_types now a b c =
    on_type (sh_1042 now) a ∷ on_type (sh_2085 now) b ∷ on_type (sh_3001 now) c ∷ []

pub create_flights-three :
    (now a b c : ℕ)
    → create_flights (three a b c a320 b737 a380) (flights now) ≡ done (on_types now a b c)
unfolding create_flights map_get
create_flights-three now a b c = refl

length-a320 : (f : ℕ) → length (generate_seats_for_flight f a320) ≡ 180
unfolding split
length-a320 f = (generate_seats_for_flight-exact f a320).0

length-b737 : (f : ℕ) → length (generate_seats_for_flight f b737) ≡ 198
unfolding split
length-b737 f = (generate_seats_for_flight-exact f b737).0

length-a380 : (f : ℕ) → length (generate_seats_for_flight f a380) ≡ 500
unfolding split
length-a380 f = (generate_seats_for_flight-exact f a380).0

length_total :
    (d e g : ℕ)
    → 878
      ≡ 0
        + length (generate_seats_for_flight d a320)
        + length (generate_seats_for_flight e b737)
        + length (generate_seats_for_flight g a380)
length_total d e g = omega (arith, length-a320 d, length-b737 e, length-a380 g)

module _ (store : Store) where
  -- A loop that has stored some more seats, and counted so many in all, unless a query failed.
  pub data SeatsSaved (s : store.State) (total : ℕ) (xs : List NewSeat)
      (r : Attempt (ℕ × store.State)) : Type 0 where
    query_failed : r ≡ thrown not_saved → SeatsSaved s total xs r
    all_saved :
        (s' : store.State)
        → r ≡ done (total, s')
        → store.seats s' ≡ store.seats s ++ xs
        → SeatsSaved s total xs r

  SeatsSaved-nil :
      (types : List (Saved AircraftTypeSeed)) (total : ℕ) (s : store.State)
      → SeatsSaved s total [] (save_seats_of_flights store types [] total s)
  unfolding save_seats_of_flights
  SeatsSaved-nil types total s = all_saved s refl (sym (append-nil (store.seats s)))

  SeatsSaved-cons :
      (types : List (Saved AircraftTypeSeed)) (f : Saved NewFlight) (fs : List (Saved NewFlight))
      (before total : ℕ) (xs : List NewSeat) (t : AircraftTypeSeed) (id : ℕ)
      → find_in (λ t. t.id == f.content.aircraft_type_id) types ≡ some (saved id t)
      → ((s : store.State)
          → SeatsSaved s total xs (
              save_seats_of_flights store types fs
                (before + length (generate_seats_for_flight f.id t))
                s))
      → (s : store.State)
      → SeatsSaved s total
          (generate_seats_for_flight f.id t ++ xs)
          (save_seats_of_flights store types (f ∷ fs) before s)
  unfolding save_seats_of_flights
  SeatsSaved-cons types f fs before total xs t id found rest s =
      let seats = generate_seats_for_flight f.id t in
      elim (Option-cases (store.save_seats seats s)) [
        | inl fails ↦ query_failed (ground arith)
        | inr (u, saves) ↦
            let stored = store.save_seats-some seats s u saves in
            elim (rest u) [
              | query_failed e ↦ query_failed (ground arith)
              | all_saved s' e stored' ↦
                  all_saved s' (ground arith)
                    (stored' ∙ ap (λ l. l ++ xs) stored ∙ append_assoc (store.seats s) seats xs)
            ]
      ]

  -- The seats of the three flights `d`, `e` and `g`.
  abbrev pub all_seats : ℕ → ℕ → ℕ → List NewSeat
  all_seats d e g =
      generate_seats_for_flight d a320
      ++ (generate_seats_for_flight e b737 ++ (generate_seats_for_flight g a380 ++ []))

  pub save_seats_of_flights-SeatsSaved :
      (now a b c d e g : ℕ)
      → a ≢ b
      → a ≢ c
      → b ≢ c
      → (s : store.State)
      → SeatsSaved s 878 (all_seats d e g) (
          save_seats_of_flights store
            (three a b c a320 b737 a380)
            (three d e g
              (on_type (sh_1042 now) a)
              (on_type (sh_2085 now) b)
              (on_type (sh_3001 now) c))
            0
            s)
  save_seats_of_flights-SeatsSaved now a b c d e g ab ac bc =
      let types = three a b c a320 b737 a380 in
      let f = saved d (on_type (sh_1042 now) a) in
      let f' = saved e (on_type (sh_2085 now) b) in
      let f'' = saved g (on_type (sh_3001 now) c) in
      rw (length_total d e g) (
        SeatsSaved-cons types f (f' ∷ f'' ∷ []) 0 _ _ a320 a (ground (arith, ==-refl a)) (
          SeatsSaved-cons types f' (f'' ∷ []) _ _ _ b737 b (ground (arith, ==-refl b)) (
            SeatsSaved-cons types f'' [] _ _ [] a380 c (ground (arith, ==-refl c))
              (SeatsSaved-nil types _))))
