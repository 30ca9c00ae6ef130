-- ===== src/Expiry/Release/Stepping.antt =====
-- The steps of the system that a release, an expiry event and a sweep make.
use sky_high_core.Common.{
  List, [], ◌∷◌, ℕ, ◌≡◌, refl, inl, inr, Option, none, some, Bool, true, false, not, ◌||◌, ◌==◌,
  arith, Option-cases, Bool-cases,
}
use sky_high_core.Domain.Enums.{is_held}
use sky_high_core.Domain.Errors.{Result-cases}
use sky_high_core.Domain.Entities.{Seat}
use sky_high_core.Domain.Dtos.{RedisKey, Metric, Mechanism}
use sky_high_core.Platform.Backend.{Backend}
use sky_high_core.Platform.World.{World}
use sky_high_core.Redis
use sky_high_core.Seat
use sky_high_core.System.{Steps, release, expire, stay, one, append, Moves, ending}
use sky_high_core.Expiry.Release.{
  is_running, assigned_to, release_transaction, mark_waitlist_entry_expired,
  release_seat_within_lock, release_seat, handle_hold_expired, sweep_seats, sweep_expired_holds,
  is_stale,
}
use sky_high_core.Expiry.Release.Marking.{mark_waitlist_entry_expired-rest}
use sky_high_core.Expiry.Release.Effects.{release_transaction-false, release_transaction-err}

module _ {be : Backend} where
  pub mark_waitlist_entry_expired-Steps :
      (f : ℕ) (holder : Option ℕ) (w : World be)
      → Steps be.db w.tables (mark_waitlist_entry_expired f holder w).1.tables
  unfolding mark_waitlist_entry_expired
  mark_waitlist_entry_expired-Steps f none w = stay refl
  mark_waitlist_entry_expired-Steps f (some p) w =
      elim (Option-cases (be.waitlist_rows.find_one (assigned_to f p) w.waitlists)) [
        | inl absent ↦ stay (ground arith)
        | inr (e, found) ↦
            let (at, is_it) =
              be.waitlist_rows.find_one-some (assigned_to f p) w.waitlists e found in
            one (expire e at (ground arith))
      ]

  module _ (meanwhile : World be → World be) (moves : Moves be meanwhile) (s : ℕ) where
    release_seat_within_lock-Steps :
        (w : World be) → Steps be.db w.tables (release_seat_within_lock meanwhile s w).1.tables
    unfolding release_seat_within_lock is_running Seat.invalidate_cache Redis.del
    release_seat_within_lock-Steps w =
        elim (Option-cases (be.seat_rows.find_one (λ x. x.id == s) w.seats)) [
          | inl lost ↦ stay (ground arith)
          | inr (seat, at) ↦
              elim (Bool-cases (not (is_held seat.status) || is_running w.clock seat)) [
                | inl over ↦ stay (ground arith)
                | inr open_seat ↦
                    let v = meanwhile w in
                    let law = be.transaction_law Bool (release_transaction seat) v.tables in
                    elim (Result-cases (release_transaction seat v.tables)) [
                      | inl (true, t, e) ↦
                          let u : World be = record v { tables = t } in
                          let marks =
                            mark_waitlist_entry_expired-Steps seat.flight_id seat.held_by u in
                          let rest =
                            mark_waitlist_entry_expired-rest seat.flight_id u seat.held_by in
                          let moved = append (append (moves w) (one (release seat e))) marks in
                          elim (Option-cases (
                            be.redis.del v.clock (RedisKey.seat_map_cache seat.flight_id)
                              v.redis)) [
                                | inl rejected ↦ ending (ground arith) moved
                                | inr (del, gone) ↦ ending (ground arith) moved
                              ]
                      | inl (false, t, e) ↦
                          let same = release_transaction-false seat v.tables t e in
                          ending (ground arith) (moves w)
                      | inr (x, t, e) ↦ absurd (release_transaction-err seat v.tables t x e)
                    ]
              ]
        ]

    pub release_seat-Steps :
        (w : World be) → Steps be.db w.tables (release_seat meanwhile s w).1.tables
    unfolding release_seat Redis.acquire_lock Redis.and_release_lock
    release_seat-Steps w =
        elim (Option-cases (be.locks.acquire (RedisKey.seat_lock s) 5000 w.clock w.locks)) [
          | inl busy ↦ stay (ground arith)
          | inr (l, e) ↦
              ending (ground arith) (release_seat_within_lock-Steps (record w { locks = l }))
        ]

    pub handle_hold_expired-Steps :
        (w : World be) → Steps be.db w.tables (handle_hold_expired meanwhile s w).1.tables
    unfolding handle_hold_expired
    handle_hold_expired-Steps w = elim (Result-cases (release_seat meanwhile s w)) [
      | inl (true, u, e) ↦ ending (ground arith) (release_seat-Steps w)
      | inl (false, u, e) ↦ ending (ground arith) (release_seat-Steps w)
      | inr (x, u, e) ↦ ending (ground arith) (release_seat-Steps w)
    ]

  module _ (meanwhile : World be → World be) (moves : Moves be meanwhile) where
    sweep_seats-Steps :
        (seats : List Seat) (w : World be)
        → Steps be.db w.tables (sweep_seats meanwhile seats w).1.tables
    unfolding sweep_seats
    sweep_seats-Steps [] w = stay refl
    sweep_seats-Steps (seat ∷ seats) w =
        let releases = release_seat-Steps meanwhile moves seat.id w in
        elim (Result-cases (release_seat meanwhile seat.id w)) [
          | inl (true, u, e) ↦
              let v : World be = record u {
                metrics = Metric.hold_expiry (some seat.flight_id) Mechanism.sweep ∷ u.metrics;
              } in
              let to : v.tables ≡ (release_seat meanwhile seat.id w).1.tables = ground arith in
              ending (ground arith) (append (ending to releases) (sweep_seats-Steps seats v))
          | inl (false, u, e) ↦
              let to : u.tables ≡ (release_seat meanwhile seat.id w).1.tables = ground arith in
              ending (ground arith) (append (ending to releases) (sweep_seats-Steps seats u))
          | inr (x, u, e) ↦ ending (ground arith) releases
        ]

    pub sweep_expired_holds-Steps :
        (w : World be) → Steps be.db w.tables (sweep_expired_holds meanwhile w).1.tables
    unfolding sweep_expired_holds
    sweep_expired_holds-Steps w =
        sweep_seats-Steps (be.seat_rows.find (λ _ _. true) (is_stale w.clock) w.seats) w
