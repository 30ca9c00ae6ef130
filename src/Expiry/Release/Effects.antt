-- ===== src/Expiry/Release/Effects.antt =====
-- What a release has done.
use mathlib.Core.Option
use sky_high_core.Common.{
  ℕ, ◌+◌, ◌≤◌, ◌≡◌, ◌≢◌, refl, ◌⊎◌, inl, inr, none, some, Bool, true, false, not, ◌||◌, ◌∷◌, ◌==◌,
  ==-refl, if◌then◌else◌, arith, Option-cases, Bool-cases,
}
use sky_high_core.Domain.Enums.{SeatStatus, is_held}
use sky_high_core.Domain.Entities.{Seat}
use sky_high_core.Domain.Errors.{ok, err, Exception, Result-cases}
use sky_high_core.Domain.Dtos.{Event, RedisKey}
use sky_high_core.Platform.Table.{changed_at, affected_by_key, update_by_key, find_by_id}
use sky_high_core.Platform.Backend.{Backend, Database, Tables}
use sky_high_core.Platform.World.{World}
use sky_high_core.Redis
use sky_high_core.Seat
use sky_high_core.CheckIn.Cancel.{freed, cancelled}
use sky_high_core.Expiry.Release.{
  is_running, still_held, in_progress_on, released_row, or_zero, release_transaction,
  release_seat_within_lock,
}
use sky_high_core.Expiry.Release.Marking.{mark_waitlist_entry_expired-rest}

module _ {db : Database} (seat : Seat) where
  -- The seat was still held by the passenger seen before; it is AVAILABLE now, and every check-in
  -- IN_PROGRESS on it is CANCELLED. No other row has changed.
  pub record Released (t t' : Tables db) : Type 0 where
    pub current : Seat
    pub was : db.seat_rows.row t.seats seat.id ≡ some current
    pub was_held : still_held seat.held_by current ≡ true
    pub seats :
        (i : ℕ)
        → db.seat_rows.row t'.seats i ≡ changed_at freed (some seat.id) (db.seat_rows.row t.seats) i
    pub check_ins :
        (i : ℕ)
        → db.check_in_rows.row t'.check_ins i
          ≡ Option.map
              (λ c. if in_progress_on seat.id c then cancelled c else c)
              (db.check_in_rows.row t.check_ins i)
    pub audit_logs : t'.audit_logs ≡ released_row seat ∷ t.audit_logs

  module _ (t t' : Tables db) where
    pub release_transaction-Released : release_transaction seat t ≡ (ok true, t') → Released t t'
    unfolding release_transaction
    release_transaction-Released h =
        let seen = affected_by_key db.seat_rows seat.id (still_held seat.held_by) t.seats in
        elim (Option-cases (db.seat_rows.row t.seats seat.id)) [
          | inl gone ↦ absurd (ground arith)
          | inr (now, was) ↦ record {
            current = now;
            was = was;
            was_held = ground arith;
            seats = λ i. ground (
              arith,
              update_by_key db.seat_rows seat.id (still_held seat.held_by) freed t.seats i
                  (λ r. refl),
            );
            check_ins = λ i. ground (
              arith,
              db.check_in_rows.row-update (in_progress_on seat.id) cancelled t.check_ins i
                  (λ r. refl),
            );
            audit_logs = ground arith;
          }
        ]

    pub release_transaction-waitlists :
        release_transaction seat t ≡ (ok true, t') → t'.waitlists ≡ t.waitlists
    unfolding release_transaction
    release_transaction-waitlists h = ground arith

    pub release_transaction-false : release_transaction seat t ≡ (ok false, t') → t' ≡ t
    unfolding release_transaction
    release_transaction-false h = ground arith

    pub release_transaction-err : (x : Exception) → release_transaction seat t ≢ (err x, t')
    unfolding release_transaction
    release_transaction-err x h = ground arith

module _ {be : Backend} where
  -- A release that took effect: the seat was seen held, its hold run out; `v` is what the
  -- transaction met.
  pub record HoldExpired (s clock : ℕ) (t : Tables be.db) (v w : World be) : Type 0 where
    pub seat : Seat
    pub seen : be.seat_rows.row t.seats s ≡ some seat
    pub is_seat : seat.id ≡ s
    pub was_held : seat.status ≡ SeatStatus.held
    pub ran_out : or_zero seat.held_at + 120000 ≤ clock
    pub released : Released seat v.tables w.tables
    pub events : w.events ≡ Event.waitlist_process seat.flight_id (some seat.id) ∷ v.events
    pub map_forgotten :
        (i : ℕ) → be.redis.get i (RedisKey.seat_map_cache seat.flight_id) w.redis ≡ none

  module _ (meanwhile : World be → World be) (s : ℕ) where
    pub release_seat_within_lock-HoldExpired :
        (w w' : World be)
        → release_seat_within_lock meanwhile s w ≡ (ok true, w')
        → HoldExpired s w.clock w.tables (meanwhile w) w'
    unfolding release_seat_within_lock is_running Seat.invalidate_cache Redis.del
    release_seat_within_lock-HoldExpired w w' h =
        let v = meanwhile w in
        let found = find_by_id be.seat_rows s w.seats in
        elim (Option-cases (be.seat_rows.row w.seats s)) [
          | inl lost ↦ absurd (ground arith)
          | inr (seat, at) ↦
              let key = be.seat_rows.row-key w.seats s seat at in
              let law = be.transaction_law Bool (release_transaction seat) v.tables in
              elim (Result-cases (release_transaction seat v.tables)) [
                | inl (true, t, e) ↦
                    let u : World be = record v { tables = t } in
                    let rest = mark_waitlist_entry_expired-rest seat.flight_id u seat.held_by in
                    let r = release_transaction-Released seat v.tables t e in
                    let key_of_map = RedisKey.seat_map_cache seat.flight_id in
                    elim (Option-cases (be.redis.del v.clock key_of_map v.redis)) [
                      | inl rejected ↦ absurd (ground arith)
                      | inr (del, gone) ↦ record {
                        seat = seat;
                        seen = at;
                        is_seat = key;
                        was_held = ground arith;
                        ran_out = ground arith;
                        released = record {
                          current = r.current;
                          was = r.was;
                          was_held = r.was_held;
                          seats = λ i. ground (arith, r.seats i);
                          check_ins = λ i. ground (arith, r.check_ins i);
                          audit_logs = ground (arith, r.audit_logs);
                        };
                        events = ground arith;
                        map_forgotten = λ i. ground (
                          arith,
                          ==-refl seat.flight_id,
                          be.redis.get-del i v.clock key_of_map key_of_map v.redis del gone,
                        );
                      }
                    ]
                | inl (false, t, e) ↦ absurd (ground arith)
                | inr (x, t, e) ↦ absurd (release_transaction-err seat v.tables t x e)
              ]
        ]

    pub release_seat_within_lock-false :
        (w w' : World be)
        → release_seat_within_lock meanwhile s w ≡ (ok false, w')
        → ((w'.tables ≡ w.tables) × (w'.redis ≡ w.redis))
          ⊎ ((w'.tables ≡ (meanwhile w).tables) × (w'.redis ≡ (meanwhile w).redis))
    unfolding release_seat_within_lock Seat.invalidate_cache Redis.del
    release_seat_within_lock-false w w' h =
        let v = meanwhile w in
        elim (Option-cases (be.seat_rows.find_one (λ x. x.id == s) w.seats)) [
          | inl lost ↦ inl (ground arith, ground arith)
          | inr (seat, at) ↦
              let law = be.transaction_law Bool (release_transaction seat) v.tables in
              elim (Bool-cases (not (is_held seat.status) || is_running w.clock seat)) [
                | inl early ↦ inl (ground arith, ground arith)
                | inr late ↦ elim (Result-cases (release_transaction seat v.tables)) [
                  | inl (true, t, e) ↦
                      let u : World be = record v { tables = t } in
                      let rest = mark_waitlist_entry_expired-rest seat.flight_id u seat.held_by in
                      elim (Option-cases
                        (be.redis.del v.clock (RedisKey.seat_map_cache seat.flight_id) v.redis)) [
                          | inl rejected ↦ absurd (ground arith)
                          | inr (del, gone) ↦ absurd (ground arith)
                        ]
                  | inl (false, t, e) ↦
                      let same = release_transaction-false seat v.tables t e in
                      inr (ground arith, ground arith)
                  | inr (x, t, e) ↦ absurd (release_transaction-err seat v.tables t x e)
                ]
              ]
        ]

    -- It throws only what Redis rejects, after the commit; then no lock is released either.
    pub release_seat_within_lock-err :
        (w w' : World be) (x : Exception)
        → release_seat_within_lock meanwhile s w ≡ (err x, w')
        → (key : RedisKey) → be.locks.release key w'.clock w'.locks ≡ none
    unfolding release_seat_within_lock Seat.invalidate_cache Redis.del
    release_seat_within_lock-err w w' x h key =
        let v = meanwhile w in
        elim (Option-cases (be.seat_rows.find_one (λ x. x.id == s) w.seats)) [
          | inl lost ↦ absurd (ground arith)
          | inr (seat, at) ↦
              let law = be.transaction_law Bool (release_transaction seat) v.tables in
              elim (Result-cases (release_transaction seat v.tables)) [
                | inl (true, t, e) ↦
                    let u : World be = record v { tables = t } in
                    let rest = mark_waitlist_entry_expired-rest seat.flight_id u seat.held_by in
                    let key_of_map = RedisKey.seat_map_cache seat.flight_id in
                    elim (Option-cases (be.redis.del v.clock key_of_map v.redis)) [
                      | inl rejected ↦
                          let fails =
                            be.del-none v.clock key_of_map v.redis key w'.locks rejected in
                          ground arith
                      | inr (del, gone) ↦ absurd (ground arith)
                    ]
                | inl (false, t, e) ↦ absurd (ground arith)
                | inr (y, t, e) ↦ absurd (release_transaction-err seat v.tables t y e)
              ]
        ]
