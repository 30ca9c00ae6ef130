-- ===== src/CheckIn/Start/Stepping.antt =====
-- How `startCheckIn` moves the tables, for any relation that the passenger's writes keep to.
use sky_high_core.Common.{ℕ, inl, inr, ◌==◌, arith, Option-cases, Bool-cases}
use sky_high_core.Domain.Entities.{CheckIn}
use sky_high_core.Domain.Errors.{Result-cases}
use sky_high_core.Domain.Dtos.{RedisKey}
use sky_high_core.Platform.Backend.{Backend}
use sky_high_core.Platform.World.{World}
use sky_high_core.Redis
use sky_high_core.Seat
use sky_high_core.System.Motion.{Motion, Beside, rests, ends, join_on}
use sky_high_core.CheckIn.Steps.Announce.{announce_hold-cases}
use sky_high_core.CheckIn.Start.{
  hold_transaction, hold_seat_within_lock, hold_seat_under_lock, validate_request, start_check_in,
  is_unavailable,
}
use sky_high_core.CheckIn.Start.Outcome.{validate_request-keeps}

module _ {be : Backend} {p : ℕ} (m : Motion be.db p) (meanwhile : World be → World be)
    (moves : Beside m meanwhile) (f s : ℕ) where
  hold_seat_within_lock-Moved :
      (w : World be) → m.Moved w.tables (hold_seat_within_lock meanwhile p f s w).1.tables
  unfolding hold_seat_within_lock Redis.set_seat_hold Redis.set Seat.invalidate_cache Redis.del
  hold_seat_within_lock-Moved w =
      let v = meanwhile w in
      let law = be.transaction_law CheckIn (hold_transaction p f s w.clock v.clock) v.tables in
      elim (Bool-cases (is_unavailable (be.seat_rows.find_one (λ x. x.id == s) w.seats))) [
        | inl taken ↦ rests m (ground arith)
        | inr open_seat ↦ elim (Result-cases (hold_transaction p f s w.clock v.clock v.tables)) [
          | inl (c, t, e) ↦
              let moved = join_on m (moves w) (m.holds f s w.clock v.clock c v.tables t e) in
              elim (announce_hold-cases be p f s v.clock v.redis) [
                | inl told ↦ ends m (ground (arith, told.set, told.del)) moved
                | inr rejected ↦ ends m (ground (arith, rejected.cause)) moved
              ]
          | inr (x, t, e) ↦ ends m (ground arith) (moves w)
        ]
      ]

  hold_seat_under_lock-Moved :
      (w : World be) → m.Moved w.tables (hold_seat_under_lock meanwhile p f s w).1.tables
  unfolding hold_seat_under_lock Redis.acquire_lock Redis.and_release_lock
  hold_seat_under_lock-Moved w =
      elim (Option-cases (be.locks.acquire (RedisKey.seat_lock s) 5000 w.clock w.locks)) [
        | inl busy ↦ rests m (ground arith)
        | inr (l, e) ↦ ends m (ground arith) (hold_seat_within_lock-Moved (record w { locks = l }))
      ]

  pub start_check_in-Moved :
      (w : World be) → m.Moved w.tables (start_check_in meanwhile p f s w).1.tables
  unfolding start_check_in
  start_check_in-Moved w =
      let keeps = validate_request-keeps p f s w in
      elim (Result-cases (validate_request p f s w)) [
        | inl (_, w₀, valid) ↦ ends m (ground arith) (hold_seat_under_lock-Moved w)
        | inr (x, w₀, q) ↦ rests m (ground arith)
      ]
