-- ===== src/CheckIn/Confirm/Effects.antt =====
-- What a committed confirmation has done.
use sky_high_core.Common.{ℕ, String, ◌≡◌, refl, inl, inr, Option, none, some, arith, Option-cases}
use sky_high_core.Domain.Entities.{CheckIn}
use sky_high_core.Domain.Errors.{ok, Result-cases}
use sky_high_core.Domain.Dtos.{CheckInResponse}
use sky_high_core.Platform.Table.{changed_at, update_by_id, find_by_id}
use sky_high_core.Platform.Backend.{Backend, Database, Tables}
use sky_high_core.Platform.World.{World}
use sky_high_core.Audit
use sky_high_core.CheckIn.Steps.{to_check_in_response, forget_hold, find_one_or_fail}
use sky_high_core.CheckIn.Steps.Forget.{NoHold, forget_hold-tables, forget_hold-NoHold}
use sky_high_core.CheckIn.Confirm.{completed, confirmed, complete_transaction, complete_check_in}

module _ {db : Database} where
  -- The seat of the check-in is CONFIRMED and the check-in COMPLETED; no other row has changed.
  pub record SeatConfirmed (c : CheckIn) (weight : Option ℕ) (payment : Option String)
      (t t' : Tables db) : Type 0 where
    pub numeral : ℕ
    pub weighed : weight ≡ some numeral
    pub seats :
        (i : ℕ)
        → db.seat_rows.row t'.seats i ≡ changed_at confirmed c.seat_id (db.seat_rows.row t.seats) i
    pub check_ins :
        (i : ℕ)
        → db.check_in_rows.row t'.check_ins i
          ≡ changed_at (completed numeral payment) (some c.id) (db.check_in_rows.row t.check_ins) i
    pub waitlists : t'.waitlists ≡ t.waitlists
    pub flights : t'.flights ≡ t.flights

  module _ (c : CheckIn) (weight : Option ℕ) (payment : Option String) (t t' : Tables db) where
    pub complete_transaction-SeatConfirmed :
        complete_transaction c weight payment t ≡ (ok tt, t') → SeatConfirmed c weight payment t t'
    unfolding complete_transaction Audit.log_with_transaction
    complete_transaction-SeatConfirmed h = elim (Option-cases weight) [
      | inl overflow ↦ absurd (ground arith)
      | inr (n, e) ↦ record {
        numeral = n;
        weighed = e;
        seats = λ i. elim (Option-cases c.seat_id) [
          | inl no_seat ↦ ground arith
          | inr (s, at) ↦
              ground (arith, update_by_id db.seat_rows s confirmed t.seats i (λ r. refl))
        ];
        check_ins = λ i. ground (
          arith,
          update_by_id db.check_in_rows c.id (completed n payment) t.check_ins i (λ r. refl),
        );
        waitlists = ground arith;
        flights = ground arith;
      }
    ]

module _ {be : Backend} where
  -- A confirmation that took effect: `v` is what its transaction met.
  pub record Confirmed (c : CheckIn) (weight : ℕ) (payment : Option String) (r : CheckInResponse)
      (v w : World be) : Type 0 where
    pub tables : SeatConfirmed c (be.to_weight weight) payment v.tables w.tables
    pub no_hold : NoHold be.redis c.seat_id w.redis
    pub check_in : CheckIn
    pub found : be.check_in_rows.row w.check_ins c.id ≡ some check_in
    pub response : r ≡ to_check_in_response check_in none (some v.clock) none

  module _ (c : CheckIn) (weight : ℕ) (payment : Option String) (r : CheckInResponse)
      (w w' : World be) where
    -- If `completeCheckIn` returns, the weight fits its column, the seat of the check-in, if any,
    -- is CONFIRMED and the check-in COMPLETED with that weight and the payment's id; no other seat
    -- or check-in, no flight and no waitlist entry has changed, the hold key of the seat is gone,
    -- and the response is the stored check-in with the time of the confirmation.
    pub complete_check_in-Confirmed :
        complete_check_in c weight payment w ≡ (ok r, w') → Confirmed c weight payment r w w'
    unfolding complete_check_in find_one_or_fail
    complete_check_in-Confirmed h =
        let law =
          be.transaction_law (Unit {0}) (complete_transaction c (be.to_weight weight) payment)
            w.tables in
        elim (Result-cases (complete_transaction c (be.to_weight weight) payment w.tables)) [
          | inl (u, t, e) ↦
              let v : World be = record w { tables = t } in
              let kept = forget_hold-tables c.seat_id c.flight_id v in
              let seen = find_by_id be.check_in_rows c.id t.check_ins in
              elim (Result-cases (forget_hold c.seat_id c.flight_id v)) [
                | inr (x, w₂, q) ↦ absurd (ground arith)
                | inl (u₂, w₂, q) ↦ elim (Option-cases (be.check_in_rows.row t.check_ins c.id)) [
                  | inl lost ↦ absurd (ground arith)
                  | inr (d, at) ↦ record {
                    tables =
                        complete_transaction-SeatConfirmed c (be.to_weight weight) payment w.tables
                          w'.tables (ground arith);
                    no_hold =
                        let same : w'.redis ≡ (forget_hold c.seat_id c.flight_id v).1.redis =
                          ground arith in
                        rw same (forget_hold-NoHold c.seat_id c.flight_id v (ground arith));
                    check_in = d;
                    found = ground arith;
                    response = ground arith;
                  }
                ]
              ]
          | inr (x, t, e) ↦ absurd (ground arith)
        ]
