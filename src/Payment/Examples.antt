-- ===== src/Payment/Examples.antt =====
-- The theorems about the payment at concrete replies.
use sky_high_core.Common.{◌-◌, ◌≤◌, ◌≡◌}
use sky_high_core.Samples.{payments, recovering}
use sky_high_core.Payment.{call_payment_service_with_retry}
use sky_high_core.Payment.Retries.{
  doubling, Decided, call_payment_service_with_retry-delays,
  call_payment_service_with_retry-Decided,
}

call_payment_service_with_retry-delays_example :
    let calls = call_payment_service_with_retry payments recovering in
    (1 ≤ calls.posts) × (calls.posts ≤ 4) × (calls.delays ≡ doubling 200 (calls.posts - 1))
call_payment_service_with_retry-delays_example =
    call_payment_service_with_retry-delays payments recovering

call_payment_service_with_retry-Decided_example : Decided payments recovering
call_payment_service_with_retry-Decided_example =
    call_payment_service_with_retry-Decided payments recovering
