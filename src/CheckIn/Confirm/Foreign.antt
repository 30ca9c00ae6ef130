-- ===== src/CheckIn/Confirm/Foreign.antt =====
-- `confirmCheckIn` for a check-in whose seat another passenger holds.
use sky_high_core.Common.{
  ℕ, String, ◌≡◌, ◌≢◌, refl, inl, inr, Option, none, some, false, ==-refl, arith,
}
use sky_high_core.Domain.Enums.{CheckInStatus}
use sky_high_core.Domain.Entities.{CheckIn, Seat}
use sky_high_core.Domain.Errors.{ok, err, Exception, Result-cases}
use sky_high_core.Domain.Dtos.{CheckInResponse, RedisKey, RedisValue}
use sky_high_core.Platform.Table.{find_by_id}
use sky_high_core.Platform.Backend.{Backend, Database, Tables, AlwaysWrites}
use sky_high_core.Platform.World.{World}
use sky_high_core.Redis
use sky_high_core.Audit
use sky_high_core.Baggage.{BaggageConfig, calculate_fee}
use sky_high_core.Payment.{PaymentConfig, Reply}
use sky_high_core.CheckIn.Steps.{find_one_or_fail}
use sky_high_core.CheckIn.Steps.Forget.{forget_hold_lem, forget_hold-tables}
use sky_high_core.CheckIn.Steps.Find.{find_check_in_or_throw-own}
use sky_high_core.CheckIn.Confirm.{
  declared, completed, confirmed, complete_transaction, complete_check_in,
  validate_hold_not_expired, decide_baggage, confirm_check_in,
}
use sky_high_core.CheckIn.Confirm.Effects.{
  complete_transaction-SeatConfirmed, complete_check_in-Confirmed,
}

complete_transaction-returns :
    {db : Database} (c : CheckIn) (n : ℕ) (payment : Option String) (t : Tables db)
    → (t' : Tables db) × (complete_transaction c (some n) payment t ≡ (ok tt, t'))
unfolding complete_transaction Audit.log_with_transaction
complete_transaction-returns c n payment t =
    ((complete_transaction c (some n) payment t).1, ground arith)

module _ {be : Backend} (c : CheckIn) (weight : ℕ) (payment : Option String) (n : ℕ)
    (w : World be) where
  -- A completion of a check-in that is stored returns, if its weight fits its column.
  pub complete_check_in-returns :
      AlwaysWrites be
      → be.check_in_rows.row w.check_ins c.id ≡ some c
      → be.to_weight weight ≡ some n
      → (r : CheckInResponse) × (w' : World be) × (complete_check_in c weight payment w
          ≡ (ok r, w'))
  unfolding complete_check_in find_one_or_fail
  complete_check_in-returns writes stored fits =
      elim (Result-cases (complete_check_in c weight payment w)) [
        | inl (r, w', e) ↦ (r, w', e)
        | inr (x, w', e) ↦ absurd (refute x w' e)
      ]
    where
      refute :
          (x : Exception) (w' : World be) → complete_check_in c weight payment w ≡ (err x, w') → ⊥
      refute x w' e =
          let (t, q) = complete_transaction-returns c n payment w.tables in
          let d = complete_transaction-SeatConfirmed c (some n) payment w.tables t q in
          let law =
            be.transaction_law (Unit {0}) (complete_transaction c (some n) payment) w.tables in
          let v : World be = record w { tables = t } in
          let done = forget_hold_lem writes c.seat_id c.flight_id v in
          let kept = forget_hold-tables c.seat_id c.flight_id v in
          let seen = find_by_id be.check_in_rows c.id t.check_ins in
          ground (arith, ==-refl c.id, d.check_ins c.id, d.weighed)

module _ {be : Backend} (baggage : BaggageConfig) (pay : PaymentConfig)
    (meanwhile : World be → World be) (reply : ℕ → Reply) (c : CheckIn) (seat : Seat) (s q n : ℕ)
    (weight : Option ℕ) (w : World be) where
  -- A check-in AWAITING_PAYMENT whose seat is held by another passenger, with the hold key of that
  -- passenger, is confirmed when its passenger declares a weight within the allowance that fits the
  -- column, if Redis takes every write and nothing runs beside the call: it returns, the other's
  -- seat is CONFIRMED and the check-in COMPLETED.
  pub confirm_check_in-foreign :
      AlwaysWrites be
      → be.check_in_rows.row w.check_ins c.id ≡ some c
      → c.status ≡ CheckInStatus.awaiting_payment
      → c.seat_id ≡ some s
      → be.seat_rows.row w.seats s ≡ some seat
      → seat.held_by ≡ some q
      → q ≢ c.passenger_id
      → be.redis.get w.clock (RedisKey.seat_hold s) w.redis ≡ some (RedisValue.passenger q)
      → (calculate_fee baggage (declared weight)).is_overweight ≡ false
      → be.to_weight (declared weight) ≡ some n
      → (r : CheckInResponse) × (w' : World be) × (confirm_check_in baggage pay
            (λ v. v)
            meanwhile
            reply
            c.id
            c.passenger_id
            weight
            w
          ≡ (ok r, w'))
        × (be.seat_rows.row w'.seats s ≡ some (confirmed seat))
        × (be.check_in_rows.row w'.check_ins c.id ≡ some (completed n none c))
  unfolding confirm_check_in validate_hold_not_expired decide_baggage Redis.exists
  confirm_check_in-foreign writes stored awaits at held holder other key under fits =
      let (r, w', e) = complete_check_in-returns c (declared weight) none n w writes stored fits in
      let d = complete_check_in-Confirmed c (declared weight) none r w w' e in
      let found = find_check_in_or_throw-own c.id c.passenger_id w c stored refl in
      (
        r,
        w',
        ground arith,
        ground (arith, ==-refl s, d.tables.seats s),
        ground (arith, ==-refl c.id, d.tables.check_ins c.id, d.tables.weighed),
      )
