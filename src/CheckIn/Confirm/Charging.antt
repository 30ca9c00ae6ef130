-- ===== src/CheckIn/Confirm/Charging.antt =====
-- What `handleExcessBaggage` has done when it returns.
use sky_high_core.Common.{ℕ, ◌≡◌, ◌∷◌, inl, inr, none, some, true, false, ◌==◌, arith, Option-cases}
use sky_high_core.Domain.Entities.{CheckIn}
use sky_high_core.Domain.Errors.{ok, Result-cases}
use sky_high_core.Domain.Dtos.{CheckInResponse, Message}
use sky_high_core.Platform.Table.{find_by_id}
use sky_high_core.Platform.Backend.{Backend}
use sky_high_core.Platform.World.{World}
use sky_high_core.Audit
use sky_high_core.Payment.{
  PaymentConfig, Reply, PaymentRequest, requested_row, process_payment,
  call_payment_service_with_retry,
}
use sky_high_core.Payment.Service.{requested, process_payment_lem, process_payment-tables}
use sky_high_core.CheckIn.Steps.{find_one_or_fail, to_check_in_response, calculate_hold_expires_at}
use sky_high_core.CheckIn.Confirm.{handle_excess_baggage, await_payment, awaiting_payment}
use sky_high_core.CheckIn.Confirm.Effects.{Confirmed, complete_check_in-Confirmed}

abbrev pub charge : CheckIn → ℕ → PaymentRequest
charge c fee = record {
  passenger_id = c.passenger_id;
  amount = fee;
  currency = "USD";
  check_in_id = c.id;
}

module _ {be : Backend} where
  -- The world in which the Payment Service is called: the check-in awaits the payment, with the
  -- weight and the fee as their columns take them.
  abbrev pub asked : CheckIn → (fee numeral price : ℕ) → World be → World be
  asked c fee numeral price w = record w {
    tables = record w.tables {
      check_ins =
          be.check_in_rows.update (λ x. x.id == c.id) (awaiting_payment numeral price) w.check_ins;
    };
    saving = requested_row (charge c fee) ∷ w.saving;
  }

  -- `v` has the tables that the payment left, with what others did beside it.
  pub record Charged (meanwhile : World be → World be) (c : CheckIn) (weight fee : ℕ)
      (w v : World be) : Type 0 where
    pub numeral : ℕ
    pub price : ℕ
    pub weighed : be.to_weight weight ≡ some numeral
    pub priced : be.to_fee fee ≡ some price
    pub charged : v.tables ≡ (meanwhile (asked c fee numeral price w)).tables

  -- The response to a payment that failed is that of the check-in as it is stored.
  pub record Asks (c : CheckIn) (fee : ℕ) (r : CheckInResponse) (w' : World be) : Type 0 where
    pub stored : CheckIn
    pub row : be.check_in_rows.row w'.check_ins c.id ≡ some stored
    pub response :
        r
        ≡ to_check_in_response stored
            (calculate_hold_expires_at stored)
            none
            (some (Message.fee_must_be_paid fee))

  module _ (pay : PaymentConfig) (meanwhile : World be → World be) (reply : ℕ → Reply) (c : CheckIn)
      (weight fee : ℕ) (r : CheckInResponse) (w w' : World be) where
    await_payment-Charged :
        (w₁ : World be)
        → await_payment c.id weight fee w ≡ (ok tt, w₁)
        → Charged meanwhile c weight fee w (process_payment pay meanwhile reply (charge c fee) w₁).1
    unfolding await_payment requested Audit.log
    await_payment-Charged w₁ h =
        let tables = process_payment-tables pay meanwhile reply (charge c fee) w₁ in
        elim (Option-cases (be.to_weight weight)) [
          | inl heavy ↦ absurd (ground arith)
          | inr (numeral, weighed) ↦ elim (Option-cases (be.to_fee fee)) [
            | inl dear ↦ absurd (ground arith)
            | inr (price, priced) ↦ record {
              numeral = numeral;
              price = price;
              weighed = weighed;
              priced = priced;
              charged = ground arith;
            }
          ]
        ]

    pub handle_excess_baggage-paid :
        handle_excess_baggage pay meanwhile reply c weight fee w ≡ (ok r, w')
        → (call_payment_service_with_retry pay reply).result.success ≡ true
        → (v : World be) × Charged meanwhile c weight fee w v
          × Confirmed
              (record c { baggage_weight = some weight; excess_fee = some fee })
              weight
              (call_payment_service_with_retry pay reply).result.transaction_id
              r
              v
              w'
    unfolding handle_excess_baggage
    handle_excess_baggage-paid h s = elim (Result-cases (await_payment c.id weight fee w)) [
      | inl (u, w₁, e) ↦
          let done = process_payment_lem pay meanwhile reply (charge c fee) w₁ in
          (
            (process_payment pay meanwhile reply (charge c fee) w₁).1,
            await_payment-Charged w₁ e,
            complete_check_in-Confirmed
                (record c { baggage_weight = some weight; excess_fee = some fee }) weight
                (call_payment_service_with_retry pay reply).result.transaction_id r _ w'
                (ground arith),
          )
      | inr (x, w₁, e) ↦ absurd (ground arith)
    ]

    pub handle_excess_baggage-unpaid :
        handle_excess_baggage pay meanwhile reply c weight fee w ≡ (ok r, w')
        → (call_payment_service_with_retry pay reply).result.success ≡ false
        → Charged meanwhile c weight fee w w' × Asks c fee r w'
    unfolding handle_excess_baggage find_one_or_fail
    handle_excess_baggage-unpaid h s = elim (Result-cases (await_payment c.id weight fee w)) [
      | inl (u, w₁, e) ↦
          let done = process_payment_lem pay meanwhile reply (charge c fee) w₁ in
          let v = (process_payment pay meanwhile reply (charge c fee) w₁).1 in
          let seen = find_by_id be.check_in_rows c.id v.check_ins in
          let held = await_payment-Charged w₁ e in
          elim (Option-cases (be.check_in_rows.find_one (λ x. x.id == c.id) v.check_ins)) [
            | inl lost ↦ absurd (ground arith)
            | inr (d, at) ↦ (
              record {
                numeral = held.numeral;
                price = held.price;
                weighed = held.weighed;
                priced = held.priced;
                charged = ground (arith, held.charged);
              },
              record { stored = d; row = ground arith; response = ground arith },
            )
          ]
      | inr (x, w₁, e) ↦ absurd (ground arith)
    ]
