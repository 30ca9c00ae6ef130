-- ===== src/CheckIn/Confirm/Stepping.antt =====
-- How `confirmCheckIn` moves the tables, for any relation that the passenger's writes keep to.
use sky_high_core.Common.{
  ℕ, ◌≡◌, inl, inr, Option, none, some, String, ◌==◌, arith, Option-cases, Bool-cases,
}
use sky_high_core.Domain.Entities.{CheckIn}
use sky_high_core.Domain.Errors.{Result-cases}
use sky_high_core.Platform.Backend.{Backend}
use sky_high_core.Platform.World.{World}
use sky_high_core.Redis
use sky_high_core.System.Motion.{Motion, Beside, Seen, rests, ends, join_on, later}
use sky_high_core.Baggage.{BaggageConfig, calculate_fee}
use sky_high_core.Payment.{PaymentConfig, Reply, process_payment, call_payment_service_with_retry}
use sky_high_core.Payment.Service.{process_payment_lem}
use sky_high_core.Payment.Stepping.{process_payment-Moved}
use sky_high_core.CheckIn.Steps.{find_check_in_or_throw, find_one_or_fail, forget_hold}
use sky_high_core.CheckIn.Steps.Find.{find_check_in_or_throw-Found, find_check_in_or_throw-keeps}
use sky_high_core.CheckIn.Steps.Forget.{forget_hold-tables}
use sky_high_core.CheckIn.Confirm.{
  declared, complete_transaction, complete_check_in, validate_hold_not_expired, decide_baggage,
  handle_excess_baggage, confirm_check_in, await_payment,
}
use sky_high_core.CheckIn.Confirm.Charging.{charge}

module _ {be : Backend} {p : ℕ} (m : Motion be.db p) where
  complete_check_in-Moved :
      (c : CheckIn) (weight : ℕ) (payment : Option String) (w : World be)
      → Seen be.db p m.Moved c.id w.tables
      → m.Moved w.tables (complete_check_in c weight payment w).1.tables
  unfolding complete_check_in find_one_or_fail
  complete_check_in-Moved c weight payment w seen =
      let law =
        be.transaction_law (Unit {0}) (complete_transaction c (be.to_weight weight) payment)
          w.tables in
      elim (Result-cases (complete_transaction c (be.to_weight weight) payment w.tables)) [
        | inl (u, t, e) ↦
            let v : World be = record w { tables = t } in
            let kept = forget_hold-tables c.seat_id c.flight_id v in
            elim (Result-cases (forget_hold c.seat_id c.flight_id v)) [
              | inr (x, w₂, q) ↦
                  ends m (ground arith)
                    (m.completes c (be.to_weight weight) payment w.tables t seen e)
              | inl (u₂, w₂, q) ↦
                  elim (Option-cases (be.check_in_rows.find_one (λ x. x.id == c.id) t.check_ins)) [
                    | inl lost ↦
                        ends m (ground arith)
                          (m.completes c (be.to_weight weight) payment w.tables t seen e)
                    | inr (d, at) ↦
                        ends m (ground arith)
                          (m.completes c (be.to_weight weight) payment w.tables t seen e)
                  ]
            ]
        | inr (x, t, e) ↦ rests m (ground arith)
      ]

  await_payment-Moved :
      (id weight fee : ℕ) (w : World be)
      → Seen be.db p m.Moved id w.tables
      → m.Moved w.tables (await_payment id weight fee w).1.tables
  unfolding await_payment
  await_payment-Moved id weight fee w seen = elim (Option-cases (be.to_weight weight)) [
    | inl heavy ↦ rests m (ground arith)
    | inr (n, fits) ↦ elim (Option-cases (be.to_fee fee)) [
      | inl dear ↦ rests m (ground arith)
      | inr (k, fits') ↦ ends m (ground arith) (m.awaits_fee id n k w.tables seen)
    ]
  ]

  validate_hold_not_expired-keeps :
      (c : CheckIn) (w : World be) → (validate_hold_not_expired c w).1 ≡ w
  unfolding validate_hold_not_expired Redis.exists
  validate_hold_not_expired-keeps c w = ground arith

  module _ (pay : PaymentConfig) (meanwhile : World be → World be) (moves : Beside m meanwhile)
      (reply : ℕ → Reply) where
    handle_excess_baggage-Moved :
        (c : CheckIn) (weight fee : ℕ) (w : World be)
        → Seen be.db p m.Moved c.id w.tables
        → m.Moved w.tables (handle_excess_baggage pay meanwhile reply c weight fee w).1.tables
    unfolding handle_excess_baggage find_one_or_fail
    handle_excess_baggage-Moved c weight fee w seen =
        let waits = await_payment-Moved c.id weight fee w seen in
        elim (Result-cases (await_payment c.id weight fee w)) [
          | inl (u, w₁, e) ↦
              let done = process_payment_lem pay meanwhile reply (charge c fee) w₁ in
              let v = (process_payment pay meanwhile reply (charge c fee) w₁).1 in
              let pays = process_payment-Moved m pay meanwhile moves reply (charge c fee) w₁ in
              let to : w₁.tables ≡ (await_payment c.id weight fee w).1.tables = ground arith in
              let before = join_on m (ends m to waits) pays in
              elim (Bool-cases (call_payment_service_with_retry pay reply).result.success) [
                | inl s ↦ ends m (ground arith) (
                    join_on m before (
                      complete_check_in-Moved
                        (record c { baggage_weight = some weight; excess_fee = some fee }) weight
                        (call_payment_service_with_retry pay reply).result.transaction_id v
                        (later m before seen)))
                | inr s ↦
                    elim (Option-cases
                      (be.check_in_rows.find_one (λ x. x.id == c.id) v.check_ins)) [
                        | inl lost ↦ ends m (ground arith) before
                        | inr (d, at) ↦ ends m (ground arith) before
                      ]
              ]
          | inr (x, w₁, e) ↦ ends m (ground arith) waits
        ]

    module _ (baggage : BaggageConfig) where
      decide_baggage-Moved :
          (c : CheckIn) (weight : ℕ) (w : World be)
          → Seen be.db p m.Moved c.id w.tables
          → m.Moved w.tables (decide_baggage baggage pay meanwhile reply c weight w).1.tables
      unfolding decide_baggage
      decide_baggage-Moved c weight w seen =
          elim (Bool-cases (calculate_fee baggage weight).is_overweight) [
            | inl over ↦ ends m (ground arith) (
                handle_excess_baggage-Moved c weight (calculate_fee baggage weight).excess_fee w
                  seen)
            | inr under ↦ ends m (ground arith) (complete_check_in-Moved c weight none w seen)
          ]

      pub confirm_check_in-Moved :
          (weighing : World be → World be) (weighs : Beside m weighing) (id : ℕ) (weight : Option ℕ)
          (w : World be)
          → m.Moved w.tables
              (confirm_check_in baggage pay weighing meanwhile reply id p weight w).1.tables
      unfolding confirm_check_in
      confirm_check_in-Moved weighing weighs id weight w =
          elim (Result-cases (find_check_in_or_throw id p w)) [
            | inl (c, w₁, e) ↦
                let found = find_check_in_or_throw-Found id p w c w₁ e in
                let kept = validate_hold_not_expired-keeps c w in
                elim (Result-cases (validate_hold_not_expired c w)) [
                  | inl (u, w₂, q) ↦ ends m (ground arith) (
                      join_on m (weighs w) (
                        decide_baggage-Moved c (declared weight) (weighing w)
                          (w.tables, c, ground arith, found.owner, weighs w)))
                  | inr (x, w₂, q) ↦ rests m (ground arith)
                ]
            | inr (x, w₁, e) ↦ rests m (ground (arith, find_check_in_or_throw-keeps id p w))
          ]
