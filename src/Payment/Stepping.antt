-- ===== src/Payment/Stepping.antt =====
-- How `processPayment` moves the tables, for any relation that the passenger's writes keep to.
use sky_high_core.Common.{ℕ}
use sky_high_core.Platform.Backend.{Backend}
use sky_high_core.Platform.World.{World}
use sky_high_core.System.Motion.{Motion, Beside, rests, ends, join_on}
use sky_high_core.Payment.{PaymentConfig, PaymentRequest, Reply, process_payment}
use sky_high_core.Payment.Service.{requested, process_payment-tables, requested-tables}

module _ {be : Backend} {p : ℕ} (m : Motion be.db p) where
  pub process_payment-Moved :
      (c : PaymentConfig) (meanwhile : World be → World be) (moves : Beside m meanwhile)
      (reply : ℕ → Reply) (r : PaymentRequest) (w : World be)
      → m.Moved w.tables (process_payment c meanwhile reply r w).1.tables
  process_payment-Moved c meanwhile moves reply r w =
      let v = requested c meanwhile reply r w in
      ends m (process_payment-tables c meanwhile reply r w)
        (join_on m (rests m (requested-tables c meanwhile reply r w)) (moves v))
