-- ===== src/Waitlist/Assign/Stepping.antt =====
-- The steps of the system that `processWaitlist` makes.
use sky_high_core.Common.{ℕ, inl, inr, Option, some, Bool, true, false, arith, Option-cases}
use sky_high_core.Domain.Entities.{Waitlist}
use sky_high_core.Domain.Errors.{Result-cases}
use sky_high_core.Domain.Dtos.{RedisKey}
use sky_high_core.Platform.Backend.{Backend}
use sky_high_core.Platform.World.{World}
use sky_high_core.Redis
use sky_high_core.Seat
use sky_high_core.CheckIn.Steps.Announce.{announce_hold-cases}
use sky_high_core.System.{Steps, assign, stay, one, append, Moves, ending}
use sky_high_core.Expiry.Release.Marking.{mark_waitlist_entry_expired-rest}
use sky_high_core.Expiry.Release.Stepping.{mark_waitlist_entry_expired-Steps}
use sky_high_core.Waitlist.Assign.{
  waiting_on, wanted_seat, assign_transaction, assign_seat_to_waitlist_passenger,
  process_waitlist_within_lock, process_waitlist, handle_waitlist_hold_expiry,
}
use sky_high_core.Waitlist.Assign.Effects.{assign_transaction-false}

module _ {be : Backend} (meanwhile : World be → World be) (moves : Moves be meanwhile) where
  assign_seat_to_waitlist_passenger-Steps :
      (e : Waitlist) (s f : ℕ) (w : World be)
      → Steps be.db w.tables (assign_seat_to_waitlist_passenger meanwhile e s f w).1.tables
  unfolding assign_seat_to_waitlist_passenger Redis.set_seat_hold Redis.set Seat.invalidate_cache
      Redis.del
  assign_seat_to_waitlist_passenger-Steps e s f w =
      let v = meanwhile w in
      let law = be.transaction_law Bool (assign_transaction e s f w.clock v.clock) v.tables in
      elim (Result-cases (assign_transaction {db = be.db} e s f w.clock v.clock v.tables)) [
        | inl (true, t, q) ↦
            let moved = append (moves w) (one (assign e s f w.clock v.clock q)) in
            elim (announce_hold-cases be e.passenger_id f s v.clock v.redis) [
              | inl told ↦ ending (ground (arith, told.set, told.del)) moved
              | inr rejected ↦ ending (ground (arith, rejected.cause)) moved
            ]
        | inl (false, t, q) ↦
            let same = assign_transaction-false e s f w.clock v.clock v.tables t q in
            ending (ground arith) (moves w)
        | inr (x, t, q) ↦ ending (ground arith) (moves w)
      ]

  module _ (f : ℕ) (wanted : Option ℕ) where
    process_waitlist_within_lock-Steps :
        (w : World be)
        → Steps be.db w.tables (process_waitlist_within_lock meanwhile f wanted w).1.tables
    unfolding process_waitlist_within_lock
    process_waitlist_within_lock-Steps w =
        elim (Option-cases
          (be.waitlist_rows.find_least (λ e. e.position) (waiting_on f) w.waitlists)) [
            | inl empty ↦ stay (ground arith)
            | inr (e, first) ↦
                elim (Option-cases (be.seat_rows.find_one (wanted_seat f wanted) w.seats)) [
                  | inl full ↦ stay (ground arith)
                  | inr (s, found) ↦
                      ending (ground arith) (assign_seat_to_waitlist_passenger-Steps e s.id f w)
                ]
          ]

    pub process_waitlist-Steps :
        (w : World be) → Steps be.db w.tables (process_waitlist meanwhile f wanted w).1.tables
    unfolding process_waitlist Redis.acquire_lock Redis.and_release_lock
    process_waitlist-Steps w =
        elim (Option-cases (be.locks.acquire (RedisKey.waitlist_lock f) 5000 w.clock w.locks)) [
          | inl busy ↦ stay (ground arith)
          | inr (l, e) ↦
              ending (ground arith) (process_waitlist_within_lock-Steps (record w { locks = l }))
        ]

module _ {be : Backend} where
  pub handle_waitlist_hold_expiry-Steps :
      (s f p : ℕ) (w : World be)
      → Steps be.db w.tables (handle_waitlist_hold_expiry s f p w).1.tables
  unfolding handle_waitlist_hold_expiry
  handle_waitlist_hold_expiry-Steps s f p w =
      let rest = mark_waitlist_entry_expired-rest f w (some p) in
      ending (ground arith) (mark_waitlist_entry_expired-Steps f (some p) w)
