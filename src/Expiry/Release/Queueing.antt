-- ===== src/Expiry/Release/Queueing.antt =====
-- A release leaves the queue of the passengers who wait as it was.
use sky_high_core.Common.{
  ℕ, ◌≡◌, refl, inl, inr, Option, none, some, Bool, true, false, ◌==◌, arith, Option-cases,
}
use sky_high_core.Domain.Entities.{Waitlist}
use sky_high_core.Domain.Errors.{Result-cases}
use sky_high_core.Domain.Dtos.{RedisKey}
use sky_high_core.Platform.Table.{keep_if}
use sky_high_core.Platform.Backend.{Backend}
use sky_high_core.Platform.World.{World}
use sky_high_core.Redis
use sky_high_core.Seat
use sky_high_core.Waitlist.Assign.{waiting_on}
use sky_high_core.Expiry.Release.{
  expired, assigned_to, mark_waitlist_entry_expired, release_transaction, release_seat_within_lock,
  release_seat,
}
use sky_high_core.Expiry.Release.Effects.{
  release_transaction-err, release_transaction-false, release_transaction-waitlists,
}
use sky_high_core.Expiry.Release.Marking.{mark_waitlist_entry_expired-rest}

module _ {be : Backend} (g : ℕ) where
  -- The entry that waits on flight `g` under an id.
  abbrev pub waiting_at : ℕ → World be → Option Waitlist
  waiting_at i w = keep_if (waiting_on g) (be.waitlist_rows.row w.waitlists i)

  mark_waitlist_entry_expired-waiting_at :
      (f : ℕ) (holder : Option ℕ) (w : World be) (i : ℕ)
      → waiting_at i (mark_waitlist_entry_expired f holder w).1 ≡ waiting_at i w
  unfolding mark_waitlist_entry_expired
  mark_waitlist_entry_expired-waiting_at f none w i = refl
  mark_waitlist_entry_expired-waiting_at f (some p) w i =
      elim (Option-cases (be.waitlist_rows.find_one (assigned_to f p) w.waitlists)) [
        | inl absent ↦ ground arith
        | inr (e, found) ↦
            let (at, is_it) =
              be.waitlist_rows.find_one-some (assigned_to f p) w.waitlists e found in
            ground (arith, be.waitlist_rows.row-save (expired e) w.waitlists i)
      ]

  release_seat_within_lock-waiting_at :
      (s : ℕ) (w : World be) (i : ℕ)
      → waiting_at i (release_seat_within_lock (λ v. v) s w).1 ≡ waiting_at i w
  unfolding release_seat_within_lock Seat.invalidate_cache Redis.del
  release_seat_within_lock-waiting_at s w i =
      elim (Option-cases (be.seat_rows.find_one (λ x. x.id == s) w.seats)) [
        | inl lost ↦ ground arith
        | inr (seat, at) ↦
            let law = be.transaction_law Bool (release_transaction seat) w.tables in
            elim (Result-cases (release_transaction seat w.tables)) [
              | inl (true, t, e) ↦
                  let u : World be = record w { tables = t } in
                  let rest = mark_waitlist_entry_expired-rest seat.flight_id u seat.held_by in
                  let kept = release_transaction-waitlists seat w.tables t e in
                  let marked =
                    mark_waitlist_entry_expired-waiting_at seat.flight_id seat.held_by u i in
                  elim (Option-cases
                    (be.redis.del w.clock (RedisKey.seat_map_cache seat.flight_id) w.redis)) [
                      | inl rejected ↦ ground arith
                      | inr (del, gone) ↦ ground arith
                    ]
              | inl (false, t, e) ↦ ground (arith, release_transaction-false seat w.tables t)
              | inr (x, t, e) ↦ absurd (release_transaction-err seat w.tables t x e)
            ]
      ]

  pub release_seat-waiting_at :
      (s : ℕ) (w : World be) (i : ℕ) → waiting_at i (release_seat (λ v. v) s w).1 ≡ waiting_at i w
  unfolding release_seat Redis.acquire_lock Redis.and_release_lock
  release_seat-waiting_at s w i =
      elim (Option-cases (be.locks.acquire (RedisKey.seat_lock s) 5000 w.clock w.locks)) [
        | inl busy ↦ ground arith
        | inr (l, e) ↦
            let kept = release_seat_within_lock-waiting_at s (record w { locks = l }) i in
            let u = (release_seat_within_lock (λ v. v) s (record w { locks = l })).1 in
            elim (Option-cases (be.locks.release (RedisKey.seat_lock s) u.clock u.locks)) [
              | inl stuck ↦ ground arith
              | inr (l', gone) ↦ ground arith
            ]
      ]
