-- ===== src/CheckIn/Cancel/Effects.antt =====
-- What `cancelCheckIn` has done when it returns, and when it throws.
use sky_high_core.Common.{
  ℕ, ◌≡◌, refl, ◌⊎◌, inl, inr, none, some, false, ◌∷◌, ◌==◌, arith, Option-cases, Bool-cases,
}
use sky_high_core.Domain.Enums.{CheckInStatus}
use sky_high_core.Domain.Entities.{CheckIn}
use sky_high_core.Domain.Errors.{ok, err, Exception, redis_failed, Result-cases}
use sky_high_core.Domain.Dtos.{CheckInCancelledResponse, Event}
use sky_high_core.Platform.Table.{is_none, changed_at, update_by_id}
use sky_high_core.Platform.Backend.{Backend, Database, Tables}
use sky_high_core.Platform.World.{World}
use sky_high_core.Audit
use sky_high_core.CheckIn.Steps.{find_check_in_or_throw, forget_hold}
use sky_high_core.CheckIn.Steps.Forget.{
  NoHold, forget_hold-tables, forget_hold-NoHold, forget_hold-events, forget_hold-seat,
  forget_hold-redis_failed,
}
use sky_high_core.CheckIn.Steps.Find.{find_check_in_or_throw-Found, find_check_in_or_throw-keeps}
use sky_high_core.CheckIn.Cancel.{
  has_departed, freed, cancelled, cancel_transaction, cancel_check_in,
}

module _ {db : Database} (c : CheckIn) (t : Tables db) where
  -- The transaction of a cancellation does not fail.
  pub cancel_transaction_lem : (cancel_transaction c t).0 ≡ ok tt
  unfolding cancel_transaction Audit.log_with_transaction
  cancel_transaction_lem = ground arith

  -- The seat of the check-in is AVAILABLE with no holder, and the check-in CANCELLED; no other row
  -- has changed.
  pub record SeatFreed (t' : Tables db) : Type 0 where
    pub seats :
        (i : ℕ)
        → db.seat_rows.row t'.seats i ≡ changed_at freed c.seat_id (db.seat_rows.row t.seats) i
    pub check_ins :
        (i : ℕ)
        → db.check_in_rows.row t'.check_ins i
          ≡ changed_at cancelled (some c.id) (db.check_in_rows.row t.check_ins) i
    pub waitlists : t'.waitlists ≡ t.waitlists
    pub flights : t'.flights ≡ t.flights

  pub cancel_transaction-SeatFreed : SeatFreed (cancel_transaction c t).1
  unfolding cancel_transaction Audit.log_with_transaction
  cancel_transaction-SeatFreed = record {
    seats = λ i. elim (Option-cases c.seat_id) [
      | inl no_seat ↦ ground arith
      | inr (s, at) ↦ ground (arith, update_by_id db.seat_rows s freed t.seats i (λ r. refl))
    ];
    check_ins =
        λ i. ground (arith, update_by_id db.check_in_rows c.id cancelled t.check_ins i (λ r. refl));
    waitlists = ground arith;
    flights = ground arith;
  }

module _ {be : Backend} where
  -- A cancellation that took effect: `v` is what its transaction met.
  pub record Cancelled (c : CheckIn) (r : CheckInCancelledResponse) (w v w' : World be)
      : Type 0 where
    pub tables : SeatFreed c v.tables w'.tables
    pub no_hold : NoHold be.redis c.seat_id w'.redis
    pub events : w'.events ≡ Event.waitlist_process c.flight_id none ∷ v.events
    pub response :
        r ≡ record { id = c.id; status = CheckInStatus.cancelled; cancelled_at = w.clock }

  -- A cancellation that was committed, and whose caller was not told: Redis rejected a write, and
  -- no event was emitted. `v` is what the transaction met.
  pub record Interrupted (id p : ℕ) (w v : World be) (x : Exception) (w' : World be) : Type 0 where
    pub check_in : CheckIn
    pub found : be.check_in_rows.row w.check_ins id ≡ some check_in
    pub own : check_in.passenger_id ≡ p
    pub seat : is_none check_in.seat_id ≡ false
    pub cause : x ≡ redis_failed
    pub tables : SeatFreed check_in v.tables w'.tables
    pub events : w'.events ≡ v.events

  module _ (meanwhile : World be → World be) (id p : ℕ) (w w' : World be) where
    -- If `cancelCheckIn` returns, it found the passenger's own check-in on a flight that has not
    -- departed and, whatever others did before its transaction, the seat of that check-in, if any,
    -- is AVAILABLE with no holder and the check-in CANCELLED, the transaction changed no other seat
    -- or check-in, no flight and no waitlist entry, the hold key of the seat is gone, and the
    -- waitlist of the flight was asked for.
    pub cancel_check_in-Cancelled :
        (r : CheckInCancelledResponse)
        → cancel_check_in meanwhile id p w ≡ (ok r, w')
        → (c : CheckIn) × (be.check_in_rows.row w.check_ins id ≡ some c)
          × (c.passenger_id ≡ p)
          × (has_departed (be.flight_rows.find_one (λ f. f.id == c.flight_id) w.flights) ≡ false)
          × Cancelled c r w (meanwhile w) w'
    unfolding cancel_check_in
    cancel_check_in-Cancelled r h = elim (Result-cases (find_check_in_or_throw id p w)) [
      | inl (c, w₁, e) ↦
          let found = find_check_in_or_throw-Found id p w c w₁ e in
          let v₀ = meanwhile w in
          let law = be.transaction_law (Unit {0}) (cancel_transaction c) v₀.tables in
          let ends = cancel_transaction_lem c v₀.tables in
          let t = (cancel_transaction c v₀.tables).1 in
          let v : World be = record v₀ { tables = t } in
          let kept = forget_hold-tables c.seat_id c.flight_id v in
          let told = forget_hold-events c.seat_id c.flight_id v in
          let freed = cancel_transaction-SeatFreed c v₀.tables in
          elim (Result-cases (forget_hold c.seat_id c.flight_id v)) [
            | inl (u, w₂, q) ↦ (
              c,
              found.row,
              found.owner,
              ground arith,
              record {
                tables = let same : w'.tables ≡ t = ground arith in rw same freed;
                no_hold =
                    let same : w'.redis ≡ (forget_hold c.seat_id c.flight_id v).1.redis =
                      ground arith in
                    rw same (forget_hold-NoHold c.seat_id c.flight_id v (ground arith));
                events = ground arith;
                response = ground arith;
              },
            )
            | inr (x, w₂, q) ↦ absurd (ground arith)
          ]
      | inr (x, w₁, e) ↦ absurd (ground arith)
    ]

    -- If `cancelCheckIn` throws, nothing has changed, or Redis rejected a write after the commit.
    pub cancel_check_in-err :
        (x : Exception)
        → cancel_check_in meanwhile id p w ≡ (err x, w')
        → (w' ≡ w) ⊎ Interrupted id p w (meanwhile w) x w'
    unfolding cancel_check_in
    cancel_check_in-err x h = elim (Result-cases (find_check_in_or_throw id p w)) [
      | inl (c, w₁, e) ↦
          let found = find_check_in_or_throw-Found id p w c w₁ e in
          let v₀ = meanwhile w in
          let law = be.transaction_law (Unit {0}) (cancel_transaction c) v₀.tables in
          let ends = cancel_transaction_lem c v₀.tables in
          let t = (cancel_transaction c v₀.tables).1 in
          let v : World be = record v₀ { tables = t } in
          let kept = forget_hold-tables c.seat_id c.flight_id v in
          let told = forget_hold-events c.seat_id c.flight_id v in
          let freed = cancel_transaction-SeatFreed c v₀.tables in
          elim (Bool-cases
            (has_departed (be.flight_rows.find_one (λ f. f.id == c.flight_id) w.flights))) [
              | inl gone ↦ inl (ground arith)
              | inr before ↦ elim (Result-cases (forget_hold c.seat_id c.flight_id v)) [
                | inl (u, w₂, q) ↦ absurd (ground arith)
                | inr (y, w₂, q) ↦ inr (record {
                  check_in = c;
                  found = found.row;
                  own = found.owner;
                  seat = forget_hold-seat c.seat_id c.flight_id v y w₂ q;
                  cause = ground (arith, forget_hold-redis_failed c.seat_id c.flight_id v y w₂ q);
                  tables = let same : w'.tables ≡ t = ground arith in rw same freed;
                  events = ground arith;
                })
              ]
            ]
      | inr (x, w₁, e) ↦ inl (ground (arith, find_check_in_or_throw-keeps id p w))
    ]
