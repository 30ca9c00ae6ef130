-- ===== src/CheckIn/Start/Held.antt =====
-- What a committed hold has done to the tables.
use sky_high_core.Common.{
  ℕ, ◌≡◌, refl, inl, inr, false, none, some, ◌∷◌, ◌==◌, if◌then◌else◌, arith, Option-cases,
}
use sky_high_core.Domain.Enums.{SeatStatus}
use sky_high_core.Domain.Entities.{Seat, CheckIn, same_booking}
use sky_high_core.Domain.Errors.{ok}
use sky_high_core.Platform.Backend.{Database, Tables}
use sky_high_core.Platform.Table.{affected_by_key, update_by_key}
use sky_high_core.Domain.Enums.{is_available}
use sky_high_core.Audit
use sky_high_core.CheckIn.Start.{
  held_seat, new_check_in, held_row, cas_hold, insert_check_in, hold_transaction,
}

module _ {db : Database} where
  -- Seat `s` was available, and passenger `p` holds it now; the booking `c` is new; no other row
  -- has changed, and one row is logged.
  pub record SeatTaken (p f s held_at created_at : ℕ) (c : CheckIn) (t t' : Tables db)
      : Type 0 where
    pub seat : Seat
    pub was : db.seat_rows.row t.seats s ≡ some seat
    pub was_available : seat.status ≡ SeatStatus.available
    pub seats :
        (i : ℕ)
        → db.seat_rows.row t'.seats i
          ≡ (if i == s then some (held_seat p held_at seat) else db.seat_rows.row t.seats i)
    pub is_new : db.check_in_rows.row t.check_ins c.id ≡ none
    pub is_only :
        (i : ℕ) (q : CheckIn)
        → db.check_in_rows.row t.check_ins i ≡ some q
        → same_booking c q ≡ false
    pub booking : c ≡ new_check_in c.id p f s created_at
    pub check_ins :
        (i : ℕ)
        → db.check_in_rows.row t'.check_ins i
          ≡ (if i == c.id then some c else db.check_in_rows.row t.check_ins i)
    pub waitlists : t'.waitlists ≡ t.waitlists
    pub flights : t'.flights ≡ t.flights
    pub audit_logs : t'.audit_logs ≡ held_row p f s c.id ∷ t.audit_logs

  module _ (p f s held_at created_at : ℕ) (c : CheckIn) (t t' : Tables db) where
    pub hold_transaction-SeatTaken :
        hold_transaction p f s held_at created_at t ≡ (ok c, t')
        → SeatTaken p f s held_at created_at c t t'
    unfolding hold_transaction cas_hold insert_check_in Audit.log_with_transaction new_check_in
    hold_transaction-SeatTaken h =
        let seen = affected_by_key db.seat_rows s (λ x. is_available x.status) t.seats in
        elim (Option-cases (db.seat_rows.row t.seats s)) [
          | inl gone ↦ ground arith
          | inr (seat, was) ↦ record {
            seat = seat;
            was = was;
            was_available = ground arith;
            seats = λ i. ground (
              arith,
              update_by_key db.seat_rows s (λ x. is_available x.status) (held_seat p held_at)
                  t.seats i (λ r. refl),
            );
            is_new = ground (arith, db.check_in_rows.row-fresh t.check_ins);
            is_only = λ i q held. ground (
              arith,
              db.check_in_rows.insert_law c t.check_ins,
              db.check_in_rows.find_one-none (same_booking c) t.check_ins i q,
            );
            booking = ground arith;
            check_ins = λ i. ground (
              arith,
              db.check_in_rows.insert_law c t.check_ins,
              db.check_in_rows.row-added c t.check_ins i,
            );
            waitlists = ground arith;
            flights = ground arith;
            audit_logs = ground arith;
          }
        ]
