-- ===== src/Seeds/Running/Committed.antt =====
-- How a run of the seed ends.
use sky_high_core.Common.{ℕ, ◌<◌, ◌≡◌, ◌≢◌, ◌++◌, ltb, arith, inl, inr, Option-cases, Bool-cases}
use sky_high_core.Seeds.{a320, b737, a380, aircraft_types, passengers}
use sky_high_core.Seeds.Running.Stored.{
  three_rows, distinct_three, create_flights-three, on_types, all_seats, query_failed, all_saved,
  save_seats_of_flights-SeatsSaved,
}
use sky_high_core.Seeds.Running.{
  Store, not_saved, Ending, skipped, seeded, failed, fill, end_transaction, seed,
}

module _ (store : Store) (now : ℕ) (s : store.State) where
  -- A run has found seeds and done nothing, or a query has failed and nothing is stored, or the
  -- three flights are stored, under different ids, and 878 seats for them.
  pub data Seeded (r : Ending × store.State) : Type 0 where
    was_seeded : 0 < store.count_aircraft_types s → r ≡ (skipped, s) → Seeded r
    rolled_back : r ≡ (failed not_saved, s) → Seeded r
    committed :
        (d e g : ℕ) (s' : store.State)
        → d ≢ e
        → d ≢ g
        → e ≢ g
        → r ≡ (seeded 878, s')
        → store.seats s' ≡ store.seats s ++ all_seats store d e g
        → Seeded r

  fill-Seeded : Seeded (end_transaction store s (fill store now s))
  unfolding fill
  fill-Seeded = elim (Option-cases (store.save_aircraft_types aircraft_types s)) [
    | inl fails ↦ rolled_back (ground arith)
    | inr ((types, s₁), y₁) ↦
        let l₁ = store.save_aircraft_types-some aircraft_types s s₁ types y₁ in
        let (a, b, c, types_are) = three_rows a320 b737 a380 types l₁.0 in
        let made = create_flights-three now a b c in
        let apart = distinct_three a b c a320 b737 a380 types types_are l₁.1 in
        elim (Option-cases (store.save_flights (on_types now a b c) s₁)) [
          | inl fails ↦ rolled_back (ground arith)
          | inr ((saved_flights, s₂), y₂) ↦
              let l₂ = store.save_flights-some (on_types now a b c) s₁ s₂ saved_flights y₂ in
              let (d, e, g, flights_are) = three_rows _ _ _ saved_flights l₂.0 in
              let apart' = distinct_three d e g _ _ _ saved_flights flights_are l₂.1 in
              elim (save_seats_of_flights-SeatsSaved store now a b c d e g apart.0 apart.1 apart.2
                s₂) [
                  | query_failed h ↦ rolled_back (ground arith)
                  | all_saved s₃ h stored ↦
                      elim (Option-cases (store.save_passengers passengers s₃)) [
                        | inl fails ↦ rolled_back (ground arith)
                        | inr (s₄, y₄) ↦
                            let l₄ = store.save_passengers-some passengers s₃ s₄ y₄ in
                            committed d e g s₄ apart'.0 apart'.1 apart'.2 (ground arith)
                              (ground arith)
                      ]
                ]
        ]
  ]

-- A run of the seed ends in one of three ways: it met an aircraft type that is stored already, and
-- did nothing; a query failed, and nothing is stored; or it counted 878 seats, and the seats that
-- it added are those generated for three flights, under different ids, on an A320, a B737 and an
-- A380. It never fails to find an aircraft type.
pub seed-Seeded :
    (store : Store) (now : ℕ) (s : store.State) → Seeded store now s (seed store now s)
unfolding seed
seed-Seeded store now s = elim (Bool-cases (ltb 0 (store.count_aircraft_types s))) [
  | inl there ↦ was_seeded (ground arith) (ground arith)
  | inr empty ↦ rw empty (fill-Seeded store now s)
]
