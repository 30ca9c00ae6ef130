-- ===== src/Expiry/Release/Settling.antt =====
-- One release of a sweep, where the locks are granted and nothing runs beside it.
use sky_high_core.Common.{
  ℕ, ◌≡◌, refl, inl, inr, none, some, Bool, true, false, ◌==◌, Option, arith, Option-cases,
  Bool-cases, ==-refl, same_option,
}
use sky_high_core.Domain.Enums.{is_held}
use sky_high_core.Domain.Entities.{Seat}
use sky_high_core.Domain.Errors.{ok, Result-cases}
use sky_high_core.Domain.Dtos.{RedisKey}
use sky_high_core.Platform.Table.{find_by_id, affected_by_key}
use sky_high_core.Platform.Backend.{Backend, Database, Tables, AlwaysGrants}
use sky_high_core.Platform.World.{World}
use sky_high_core.Redis
use sky_high_core.Seat
use sky_high_core.CheckIn.Cancel.{freed}
use sky_high_core.Expiry.Release.{
  is_stale, is_running, still_held, release_transaction, release_seat_within_lock, release_seat,
}
use sky_high_core.Expiry.Release.Effects.{
  release_seat_within_lock-HoldExpired, release_seat_within_lock-false,
  release_seat_within_lock-err, release_transaction-err,
}
use sky_high_core.Expiry.Release.Marking.{mark_waitlist_entry_expired-rest}

same_option_refl : (o : Option ℕ) → same_option o o ≡ true
same_option_refl none = refl
same_option_refl (some n) = ==-refl n

-- The compare-and-set succeeds on the row that was read.
release_transaction-current :
    {db : Database} (seat : Seat) (t : Tables db)
    → db.seat_rows.row t.seats seat.id ≡ some seat
    → is_held seat.status ≡ true
    → (release_transaction seat t).0 ≡ ok true
unfolding release_transaction
release_transaction-current {db} seat t at held = ground (
  arith,
  affected_by_key db.seat_rows seat.id (still_held seat.held_by) t.seats,
  same_option_refl seat.held_by,
)

module _ {be : Backend} (s : ℕ) (w : World be) where
  release_seat_within_lock-clock : (release_seat_within_lock (λ v. v) s w).1.clock ≡ w.clock
  unfolding release_seat_within_lock Seat.invalidate_cache Redis.del
  release_seat_within_lock-clock =
      elim (Option-cases (be.seat_rows.find_one (λ x. x.id == s) w.seats)) [
        | inl lost ↦ ground arith
        | inr (seat, at) ↦
            let law = be.transaction_law Bool (release_transaction seat) w.tables in
            elim (Result-cases (release_transaction seat w.tables)) [
              | inl (true, t, e) ↦
                  let u : World be = record w { tables = t } in
                  let rest = mark_waitlist_entry_expired-rest seat.flight_id u seat.held_by in
                  elim (Option-cases
                    (be.redis.del w.clock (RedisKey.seat_map_cache seat.flight_id) w.redis)) [
                      | inl rejected ↦ ground arith
                      | inr (del, gone) ↦ ground arith
                    ]
              | inl (false, t, e) ↦ ground arith
              | inr (x, t, e) ↦ absurd (release_transaction-err seat w.tables t x e)
            ]
      ]

  -- A seat that a release leaves alone is not held past its time.
  release_seat_within_lock-kept :
      (w' : World be)
      → release_seat_within_lock (λ v. v) s w ≡ (ok false, w')
      → (seat : Seat) → be.seat_rows.row w.seats s ≡ some seat
      → is_stale w.clock seat ≡ false
  unfolding release_seat_within_lock is_running Seat.invalidate_cache Redis.del
  release_seat_within_lock-kept w' h seat at =
      let found = find_by_id be.seat_rows s w.seats in
      let key = be.seat_rows.row-key w.seats s seat at in
      let law = be.transaction_law Bool (release_transaction seat) w.tables in
      elim (Bool-cases (is_stale w.clock seat)) [
        | inr fresh ↦ fresh
        | inl stale ↦ elim (Result-cases (release_transaction seat w.tables)) [
          | inl (true, t, e) ↦
              let u : World be = record w { tables = t } in
              let rest = mark_waitlist_entry_expired-rest seat.flight_id u seat.held_by in
              elim (Option-cases
                (be.redis.del w.clock (RedisKey.seat_map_cache seat.flight_id) w.redis)) [
                  | inl rejected ↦ absurd (ground arith)
                  | inr (del, gone) ↦ absurd (ground arith)
                ]
          | inl (false, t, e) ↦ absurd (ground (arith, release_transaction-current seat w.tables))
          | inr (x, t, e) ↦ absurd (release_transaction-err seat w.tables t x e)
        ]
      ]

module _ {be : Backend} where
  -- What a release does to the seats: it frees the one that it is for, if that is stale, and leaves
  -- it if it is free; no other changes.
  pub record Settled (s : ℕ) (w w' : World be) : Type 0 where
    pub clock : w'.clock ≡ w.clock
    pub others :
        (i : ℕ) → (i == s) ≡ false → be.seat_rows.row w'.seats i ≡ be.seat_rows.row w.seats i
    pub stale :
        (x : Seat)
        → be.seat_rows.row w.seats s ≡ some x
        → is_stale w.clock x ≡ true
        → be.seat_rows.row w'.seats s ≡ some (freed x)
    pub free :
        (x : Seat)
        → be.seat_rows.row w.seats s ≡ some x
        → is_held x.status ≡ false
        → be.seat_rows.row w'.seats s ≡ some x

  release_seat_within_lock-Settled :
      AlwaysGrants be
      → (s : ℕ) (w : World be)
      → (b : Bool) × (w' : World be) × (release_seat_within_lock (λ v. v) s w ≡ (ok b, w'))
        × Settled s w w'
  release_seat_within_lock-Settled grants s w =
      let ticks = release_seat_within_lock-clock s w in
      elim (Result-cases (release_seat_within_lock (λ v. v) s w)) [
        | inl (true, w', h) ↦
            let d = release_seat_within_lock-HoldExpired (λ v. v) s w w' h in
            (
              true,
              w',
              h,
              record {
                clock = ground arith;
                others = λ i e. ground (arith, d.released.seats i, d.is_seat);
                stale = λ x at e. ground (arith, d.released.seats s, d.is_seat, ==-refl s);
                free = λ x at e. absurd (ground (arith, d.seen, d.was_held));
              },
            )
        | inl (false, w', h) ↦
            let same = release_seat_within_lock-false (λ v. v) s w w' h in
            (
              false,
              w',
              h,
              record {
                clock = ground arith;
                others = λ i e. ground arith;
                stale = λ x at e. absurd (ground (arith, release_seat_within_lock-kept s w w' h x));
                free = λ x at e. ground arith;
              },
            )
        | inr (x, w', h) ↦
            let stuck = release_seat_within_lock-err (λ v. v) s w w' x h (RedisKey.seat_lock s) in
            absurd (ground (arith, grants.released (RedisKey.seat_lock s) w'.clock w'.locks))
      ]

  module _ (grants : AlwaysGrants be) where
    pub release_seat-Settled :
        (s : ℕ) (w : World be)
        → (b : Bool) × (w' : World be) × (release_seat (λ v. v) s w ≡ (ok b, w')) × Settled s w w'
    unfolding release_seat Redis.acquire_lock Redis.and_release_lock
    release_seat-Settled s w =
        let (l, got) = grants.granted (RedisKey.seat_lock s) 5000 w.clock w.locks in
        let (b, u, h, d) = release_seat_within_lock-Settled grants s (record w { locks = l }) in
        let (l', gone) = grants.released (RedisKey.seat_lock s) u.clock u.locks in
        (
          b,
          record u { locks = l' },
          ground arith,
          record { clock = d.clock; others = d.others; stale = d.stale; free = d.free },
        )
