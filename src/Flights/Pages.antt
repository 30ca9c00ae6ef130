-- ===== src/Flights/Pages.antt =====
-- The pages of the flights, put together.
use native.Mathlib.Nat.{lt-mul-div-succ}
use sky_high_core.Common.{
  ℕ, zero, suc, ◌+◌, ◌-◌, ◌*◌, ◌≤◌, ◌<◌, ◌≡◌, refl, ap, sym, List, [], ◌∷◌, ◌++◌, map, length, true,
  false, All, Any, some, arith, ◌==◌, inl, inr, Option-cases,
}
use sky_high_core.Domain.Entities.{Flight}
use sky_high_core.Domain.Errors.{Result, ok, err}
use sky_high_core.Platform.Table.{Ordered, DistinctKeys}
use sky_high_core.Platform.Backend.{Backend}
use sky_high_core.Platform.World.{World}
use sky_high_core.Flights.{
  FlightResponse, PaginatedFlightsResponse, to_flight_response, take, drop, ceil_div, by_departure,
  find_all, find_one,
}

module _ {ℓ} {A : Type ℓ} where
  take-drop : (a b : ℕ) (xs : List A) → take a xs ++ take b (drop a xs) ≡ take (a + b) xs
  take-drop a b [] = refl
  take-drop zero b (x ∷ xs) = ap (λ n. take n (x ∷ xs)) (omega arith)
  take-drop (suc a) b (x ∷ xs) =
      let moves : suc a + b ≡ suc (a + b) = omega arith in
      rw moves (ap (λ ys. x ∷ ys) (take-drop a b xs))

  drop_add : (a b : ℕ) (xs : List A) → drop b (drop a xs) ≡ drop (a + b) xs
  drop_add a b [] = refl
  drop_add zero b (x ∷ xs) = ap (λ n. drop n (x ∷ xs)) (omega arith)
  drop_add (suc a) b (x ∷ xs) =
      let moves : suc a + b ≡ suc (a + b) = omega arith in rw moves (drop_add a b xs)

  take_zero : (xs : List A) → take 0 xs ≡ []
  take_zero [] = refl
  take_zero (x ∷ xs) = refl

  drop_zero : (xs : List A) → drop 0 xs ≡ xs
  drop_zero [] = refl
  drop_zero (x ∷ xs) = refl

  take_all : (n : ℕ) (xs : List A) → length xs ≤ n → take n xs ≡ xs
  take_all n [] le = refl
  take_all zero (x ∷ xs) le = absurd (omega arith)
  take_all (suc n) (x ∷ xs) le = ap (λ ys. x ∷ ys) (take_all n xs (omega arith))

  take-length_le : (n : ℕ) (xs : List A) → length (take n xs) ≤ n
  take-length_le n [] = omega arith
  take-length_le zero (x ∷ xs) = omega arith
  take-length_le (suc n) (x ∷ xs) = omega (arith, take-length_le n xs)

  -- Slices of one length, from the slice after the first `page` on.
  slices : (limit page n : ℕ) → List A → List A
  slices limit page zero xs = []
  slices limit page (suc n) xs = take limit (drop (page * limit) xs) ++ slices limit (suc page) n xs

  slices-take :
      (limit page n : ℕ) (xs : List A)
      → slices limit page n xs ≡ take (n * limit) (drop (page * limit) xs)
  unfolding slices
  slices-take limit page zero xs =
      let none : 0 * limit ≡ 0 = omega arith in rw none (sym (take_zero (drop (page * limit) xs)))
  slices-take limit page (suc n) xs =
      let rest = slices-take limit (suc page) n xs in
      let skips : suc page * limit ≡ page * limit + limit = grind arith in
      let more : suc n * limit ≡ limit + n * limit = grind arith in
      let here = drop_add (page * limit) limit xs in
      let joined = take-drop limit (n * limit) (drop (page * limit) xs) in
      rw (rest, skips, sym here, more) joined

ceil_div-enough : (n limit : ℕ) → 0 < limit → n ≤ ceil_div n limit * limit
ceil_div-enough n limit pos =
    let high = lt-mul-div-succ (n + (limit - 1)) {b = limit} pos in grind arith

map-append : {A B : Type 0} (f : A → B) (xs ys : List A) → map f (xs ++ ys) ≡ map f xs ++ map f ys
map-append f [] ys = refl
map-append f (x ∷ xs) ys = ap (λ zs. f x ∷ zs) (map-append f xs ys)

length-map : {A B : Type 0} (f : A → B) (xs : List A) → length (map f xs) ≡ length xs
length-map f [] = refl
length-map f (x ∷ xs) = omega (arith, length-map f xs)

abbrev pub rows_of : Result PaginatedFlightsResponse → List FlightResponse
rows_of (ok r) = r.data_rows
rows_of (err x) = []

module _ {be : Backend} where
  -- The rows of `n` pages, one after another, after the first `page`.
  abbrev pub pages_from : (limit page n : ℕ) → World be → List FlightResponse
  pages_from limit page zero w = []
  pages_from limit page (suc n) w =
      rows_of (find_all (suc page) limit w).0 ++ pages_from limit (suc page) n w

  -- All the flights that are stored, by the time of their departure, each once.
  pub record Timetable (w : World be) (flights : List Flight) : Type 0 where
    pub by_time : Ordered by_departure flights
    pub once : DistinctKeys (λ f. f.id) flights
    pub complete :
        (i : ℕ) (f : Flight) → be.flight_rows.row w.flights i ≡ some f → Any (λ q. q ≡ f) flights
    pub stored : All (λ f. be.flight_rows.row w.flights f.id ≡ some f) flights

  module _ (limit : ℕ) (w : World be) where
    rows : List Flight
    rows = be.flight_rows.find by_departure (λ _. true) w.flights

    pages_from-slices :
        (page n : ℕ) → pages_from limit page n w ≡ map to_flight_response (slices limit page n rows)
    unfolding find_all slices rows
    pages_from-slices page zero = refl
    pages_from-slices page (suc n) =
        let back : suc page - 1 ≡ page = omega arith in
        rw (back, pages_from-slices (suc page) n)
          (sym (
            map-append to_flight_response (take limit (drop (page * limit) rows))
              (slices limit (suc page) n rows)))

    All-stored :
        (xs : List Flight)
        → All (λ f. (be.flight_rows.row w.flights f.id ≡ some f) × (true ≡ true)) xs
        → All (λ f. be.flight_rows.row w.flights f.id ≡ some f) xs
    All-stored [] all = tt
    All-stored (f ∷ fs) ((at, passes), all) = (at, All-stored fs all)

    -- Of two flights one is not after the other.
    by_departure-total : (a b : Flight) → by_departure a b ≡ false → by_departure b a ≡ true
    by_departure-total a b later = ground arith

    -- With a positive limit, a page of `findAll` has at most as many rows as the limit, and the
    -- pages from the first to the number of pages that it names, one after another, are all the
    -- flights that are stored, by the time of their departure, each once.
    pub find_all-pages :
        (page : ℕ) (r : PaginatedFlightsResponse)
        → 0 < limit
        → (find_all page limit w).0 ≡ ok r
        → (length r.data_rows ≤ limit)
          × (flights : List Flight) × (pages_from limit 0 r.meta.total_pages w
              ≡ map to_flight_response flights)
          × Timetable w flights
    unfolding find_all rows
    find_all-pages page r pos h =
        let total : r.meta.total_pages ≡ ceil_div (length rows) limit = ground arith in
        let shown : r.data_rows
            ≡ map to_flight_response (take limit (drop ((page - 1) * limit) rows)) =
          ground arith in
        let enough = ceil_div-enough (length rows) limit pos in
        let none : 0 * limit ≡ 0 = omega arith in
        (
          rw (shown, length-map to_flight_response (take limit (drop ((page - 1) * limit) rows)))
              (take-length_le limit (drop ((page - 1) * limit) rows)),
          rows,
          rw
              (
                total,
                pages_from-slices 0 (ceil_div (length rows) limit),
                slices-take limit 0 (ceil_div (length rows) limit) rows,
                none,
                drop_zero rows,
                take_all (ceil_div (length rows) limit * limit) rows enough,
              )
              refl,
          record {
            by_time =
                be.flight_rows.find-Ordered by_departure (λ _. true) w.flights by_departure-total;
            once = be.flight_rows.find-DistinctKeys by_departure (λ _. true) w.flights;
            complete = λ i f at.
                be.flight_rows.find-complete by_departure (λ _. true) w.flights i f at refl;
            stored = All-stored rows (be.flight_rows.find-sound by_departure (λ _. true) w.flights);
          },
        )

module _ {be : Backend} (w : World be) where
  -- Neither of the two writes anything.
  pub find_all_keeps : (page limit : ℕ) → (find_all page limit w).1 ≡ w
  unfolding find_all
  find_all_keeps page limit = refl

  pub find_one_keeps : (f : ℕ) → (find_one f w).1 ≡ w
  unfolding find_one
  find_one_keeps f = elim (Option-cases (be.flight_rows.find_one (λ x. x.id == f) w.flights)) [
    | inl lost ↦ ground arith
    | inr (flight, at) ↦ ground arith
  ]
