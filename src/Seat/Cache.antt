-- ===== src/Seat/Cache.antt =====
-- The cache of the seat map: what a request sees, and for how long.
use sky_high_core.Common.{
  ℕ, ◌+◌, ◌<◌, ◌≡◌, inl, inr, none, some, ◌==◌, ==-refl, arith, Option-cases,
}
use sky_high_core.Domain.Errors.{Result, ok, err, domain, flight_not_found}
use sky_high_core.Domain.Dtos.{RedisKey, RedisValue, SeatMapResponse}
use sky_high_core.Platform.Table.{find_by_id}
use sky_high_core.Platform.Backend.{Backend, AlwaysWrites}
use sky_high_core.Platform.World.{World}
use sky_high_core.Redis
use sky_high_core.Redis.Ttl
use sky_high_core.Seat.{by_place, to_seat_map_response, get_seat_map, invalidate_cache}

module _ {be : Backend} where
  -- The seat map of the database: the flight's seats by row and column, or no such flight.
  abbrev pub stored_map : ℕ → World be → Result SeatMapResponse
  stored_map f w = elim (be.flight_rows.row w.flights f) [
    | none ↦ err (domain flight_not_found)
    | some flight ↦
        ok
          (to_seat_map_response flight (be.seat_rows.find by_place (λ s. s.flight_id == f) w.seats))
  ]

  -- If Redis takes every write, then after `invalidateCache` the seat map is the one of the
  -- database: the flight's seats, or the exception that there is no such flight.
  get_seat_map-invalidate_cache :
      AlwaysWrites be
      → (f : ℕ) (w : World be) → (get_seat_map f (invalidate_cache f w).1).0 ≡ stored_map f w
  unfolding get_seat_map invalidate_cache Redis.get_seat_map_cache Redis.del
      Redis.set_seat_map_cache Redis.set
  get_seat_map-invalidate_cache writes f w =
      let (del, took) = writes.deleted w.clock (RedisKey.seat_map_cache f) w.redis in
      let gone =
        be.redis.get-del w.clock w.clock (RedisKey.seat_map_cache f) (RedisKey.seat_map_cache f)
          w.redis del took in
      let seen = find_by_id be.flight_rows f w.flights in
      elim (Option-cases (be.flight_rows.row w.flights f)) [
        | inl lost ↦ ground (arith, ==-refl f)
        | inr (flight, at) ↦
            let m =
              to_seat_map_response flight
                (be.seat_rows.find by_place (λ s. s.flight_id == f) w.seats) in
            let (set, kept) =
              writes.written (RedisKey.seat_map_cache f) (RedisValue.seat_map m) Ttl.seat_map_cache
                w.clock del in
            ground (arith, ==-refl f)
      ]

  -- If no seat map is cached and `getSeatMap` returns one, then every later call in the two seconds
  -- after, with Redis left as it was, returns the same, whatever has happened to the tables.
  pub get_seat_map-get_seat_map :
      (f : ℕ) (w w' u : World be) (m : SeatMapResponse)
      → be.redis.get w.clock (RedisKey.seat_map_cache f) w.redis ≡ none
      → get_seat_map f w ≡ (ok m, w')
      → u.redis ≡ w'.redis
      → u.clock < w.clock + 2000
      → (get_seat_map f u).0 ≡ ok m
  unfolding get_seat_map Redis.get_seat_map_cache Redis.set_seat_map_cache Redis.set
  get_seat_map-get_seat_map f w w' u m empty h same soon =
      let seen = find_by_id be.flight_rows f w.flights in
      elim (Option-cases (be.flight_rows.row w.flights f)) [
        | inl lost ↦ absurd (ground arith)
        | inr (flight, at) ↦
            let m' =
              to_seat_map_response flight
                (be.seat_rows.find by_place (λ s. s.flight_id == f) w.seats) in
            elim (Option-cases (
              be.redis.set (RedisKey.seat_map_cache f) (RedisValue.seat_map m') Ttl.seat_map_cache
                w.clock w.redis)) [
                  | inl rejected ↦ absurd (ground arith)
                  | inr (set, kept) ↦
                      let back =
                        be.redis.get-set u.clock (RedisKey.seat_map_cache f)
                          (RedisKey.seat_map_cache f) (RedisValue.seat_map m') Ttl.seat_map_cache
                          w.clock w.redis set kept in
                      let alive =
                        be.redis.is_live-before w.clock Ttl.seat_map_cache u.clock (omega arith) in
                      ground (arith, ==-refl f)
                ]
      ]

  -- `getSeatMap` writes to no table.
  pub get_seat_map-tables : (f : ℕ) (w : World be) → (get_seat_map f w).1.tables ≡ w.tables
  unfolding get_seat_map Redis.get_seat_map_cache Redis.set_seat_map_cache Redis.set
  get_seat_map-tables f w =
      elim (Option-cases (be.flight_rows.find_one (λ x. x.id == f) w.flights)) [
        | inl lost ↦ ground arith
        | inr (flight, at) ↦ ground arith
      ]
