-- ===== src/Payment/Service.antt =====
-- What `processPayment` returns and writes.
use sky_high_core.Common.{ℕ, ◌≡◌, arith}
use sky_high_core.Domain.Errors.{ok}
use sky_high_core.Platform.Backend.{Backend}
use sky_high_core.Platform.World.{World}
use sky_high_core.Audit
use sky_high_core.Payment.{
  PaymentConfig, PaymentRequest, Reply, requested_row, call_payment_service_with_retry,
  process_payment,
}

module _ {be : Backend} (c : PaymentConfig) (meanwhile : World be → World be) (reply : ℕ → Reply)
    (r : PaymentRequest) (w : World be) where
  -- `processPayment` never throws: whatever the Payment Service replies, it returns the result of
  -- the calls.
  pub process_payment_lem :
      (process_payment c meanwhile reply r w).0
      ≡ ok (call_payment_service_with_retry c reply).result
  unfolding process_payment Audit.log
  process_payment_lem = ground arith

  -- The world in which the calls are made: the save of the request's audit row is under way.
  unfoldable pub requested : World be
  requested = (Audit.log (requested_row r) w).1

  -- `processPayment` itself writes to no table.
  pub process_payment-tables :
      (process_payment c meanwhile reply r w).1.tables ≡ (meanwhile requested).tables
  unfolding process_payment Audit.log requested
  process_payment-tables = ground arith

  pub requested-tables : requested.tables ≡ w.tables
  unfolding requested Audit.log
  requested-tables = ground arith
