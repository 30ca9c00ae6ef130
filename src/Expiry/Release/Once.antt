-- ===== src/Expiry/Release/Once.antt =====
-- The outcomes of `releaseSeat`, and two calls of it for one hold.
use sky_high_core.Common.{ℕ, ◌≡◌, ◌≢◌, inl, inr, true, false, ==-refl, arith, Option-cases}
use sky_high_core.Domain.Errors.{ok, err, lock_failed, Exception, Result-cases}
use sky_high_core.Domain.Dtos.{RedisKey}
use sky_high_core.Platform.Backend.{Backend}
use sky_high_core.Platform.World.{World}
use sky_high_core.Redis
use sky_high_core.CheckIn.Start.Failure.{IsUntouched, refused, rolled_back}
use sky_high_core.Expiry.Release.{release_seat_within_lock, release_seat}
use sky_high_core.Expiry.Release.Effects.{
  HoldExpired, release_seat_within_lock-HoldExpired, release_seat_within_lock-false,
  release_seat_within_lock-err,
}

module _ {be : Backend} (meanwhile : World be → World be) (s : ℕ) (w w' : World be) where
  HoldExpired-same :
      {clock : ℕ} {v u : World be} (e : HoldExpired s clock w.tables v u)
      → w'.tables ≡ u.tables
      → w'.redis ≡ u.redis
      → w'.events ≡ u.events
      → HoldExpired s clock w.tables v w'
  HoldExpired-same e t r n = record {
    seat = e.seat;
    seen = e.seen;
    is_seat = e.is_seat;
    was_held = e.was_held;
    ran_out = e.ran_out;
    released = rw t e.released;
    events = rw n e.events;
    map_forgotten = λ i. rw r (e.map_forgotten i);
  }

  -- If `releaseSeat` returns true, it read the seat as HELD with a hold that had run out by its
  -- clock, and with some state of the locks, and whatever others did since, its transaction met the
  -- seat still held by the same passenger; it made the seat AVAILABLE and no other, cancelled
  -- exactly the check-ins IN_PROGRESS on it, and logged the release; then it dropped the cached
  -- seat map and asked for the waitlist with the seat.
  pub release_seat-HoldExpired :
      release_seat meanwhile s w ≡ (ok true, w')
      → (l : be.locks.State) × HoldExpired s w.clock w.tables
          (meanwhile (record w { locks = l }))
          w'
  unfolding release_seat Redis.acquire_lock Redis.and_release_lock
  release_seat-HoldExpired h =
      elim (Option-cases (be.locks.acquire (RedisKey.seat_lock s) 5000 w.clock w.locks)) [
        | inl busy ↦ absurd (ground arith)
        | inr (l, e) ↦
            elim (Result-cases (release_seat_within_lock meanwhile s (record w { locks = l }))) [
              | inl (true, u, q) ↦
                  let d =
                    release_seat_within_lock-HoldExpired meanwhile s (record w { locks = l }) u q in
                  (l, HoldExpired-same d (ground arith) (ground arith) (ground arith))
              | inl (false, u, q) ↦ absurd (ground arith)
              | inr (x, u, q) ↦ absurd (ground arith)
            ]
      ]

  -- If `releaseSeat` returns false, the tables and Redis are as it found them, or as others left
  -- them before its transaction with some state of the locks.
  pub release_seat-false : release_seat meanwhile s w ≡ (ok false, w') → IsUntouched meanwhile w w'
  unfolding release_seat Redis.acquire_lock Redis.and_release_lock
  release_seat-false h =
      elim (Option-cases (be.locks.acquire (RedisKey.seat_lock s) 5000 w.clock w.locks)) [
        | inl busy ↦ refused (ground arith) (ground arith)
        | inr (l, e) ↦
            elim (Result-cases (release_seat_within_lock meanwhile s (record w { locks = l }))) [
              | inl (false, u, q) ↦
                  elim (release_seat_within_lock-false meanwhile s (record w { locks = l }) u q) [
                    | inl (t, r) ↦ refused (ground arith) (ground arith)
                    | inr (t, r) ↦ rolled_back l (ground arith) (ground arith)
                  ]
              | inl (true, u, q) ↦ absurd (ground arith)
              | inr (x, u, q) ↦ absurd (ground arith)
            ]
      ]

  -- If `releaseSeat` throws, then the failure is one of the lock.
  pub release_seat-err :
      (x : Exception) → release_seat meanwhile s w ≡ (err x, w') → x ≡ lock_failed
  unfolding release_seat Redis.acquire_lock Redis.and_release_lock
  release_seat-err x h =
      elim (Option-cases (be.locks.acquire (RedisKey.seat_lock s) 5000 w.clock w.locks)) [
        | inl busy ↦ absurd (ground arith)
        | inr (l, e) ↦
            elim (Result-cases (release_seat_within_lock meanwhile s (record w { locks = l }))) [
              | inl (b, u, q) ↦ ground arith
              | inr (y, u, q) ↦
                  let stuck =
                    release_seat_within_lock-err meanwhile s (record w { locks = l }) u y q
                      (RedisKey.seat_lock s) in
                  ground arith
            ]
      ]

-- The keyspace event and the sweep may both come for one expired hold: once `releaseSeat` has
-- returned true, a later call for the seat that begins with the tables as they were left does not
-- return true, whatever runs beside either call.
pub release_seat_once :
    {be : Backend} (meanwhile meanwhile' : World be → World be) (s : ℕ) (w w' u u' : World be)
    → release_seat meanwhile s w ≡ (ok true, w')
    → u.tables ≡ w'.tables
    → release_seat meanwhile' s u ≢ (ok true, u')
release_seat_once {be} meanwhile meanwhile' s w w' u u' first same second =
    let (l, d) = release_seat-HoldExpired meanwhile s w w' first in
    let (l', d') = release_seat-HoldExpired meanwhile' s u u' second in
    ground (arith, d.released.seats s, ==-refl s, d.is_seat, d.released.was, d'.seen, d'.was_held)
