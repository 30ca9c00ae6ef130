-- ===== src/Filter/Statuses.antt =====
-- The status of the response for each exception.
use text.Mathlib.Text.{◌==◌ as str_eq}
use sky_high_core.Common.{
  true, false, not, ◌↔◌, ℕ, ◌≡◌, refl, String, Bool, none, some, arith, if◌then◌else◌, ◌==◌, ◌||◌,
}
use sky_high_core.Domain.Errors.{
  DomainError, seat_already_held, hold_expired, payment_required, flight_not_found, seat_not_found,
  check_in_not_found, already_checked_in, already_on_waitlist, cancellation_not_allowed,
  waitlist_not_found, rate_limit_exceeded,
}
use sky_high_core.Filter.{
  Thrown, domain_exception, http_exception, query_failed, entity_not_found, error, anything_else,
  error_type_of, status_error_type_map, resolve_http_exception, resolve_query_failed_error,
  resolve_exception, catch,
}

-- The statuses that the filter knows.
abbrev pub is_known : ℕ → Bool
is_known status =
    status == 400
    || status == 401
    || status == 402
    || status == 403
    || status == 404
    || status == 409
    || status == 410
    || status == 429

-- The status that an exception stands for.
abbrev pub own_status : Thrown → ℕ
own_status (domain_exception e message) = (error_type_of e).status
own_status (http_exception status body message) = if is_known status then status else 500
own_status (query_failed none) = 500
own_status (query_failed (some code)) = if str_eq code "23505" then 409 else 500
own_status entity_not_found = 404
own_status (error message) = 500
own_status anything_else = 500

-- The filter answers with the status that the exception stands for, in the response and in its
-- body: a domain exception's own, an HTTP exception's if it is one of 400, 401, 402, 403, 404, 409,
-- 410 and 429, 409 for a unique violation, 404 for an entity that is not found, and 500 for
-- everything else.
pub catch-own_status :
    (x : Thrown) (url : String)
    → ((catch x url).0 ≡ own_status x) × ((catch x url).1.status ≡ own_status x)
unfolding catch resolve_exception resolve_http_exception resolve_query_failed_error
    status_error_type_map
catch-own_status (domain_exception e message) url = (refl, refl)
catch-own_status (http_exception status body message) url = ground arith
catch-own_status (query_failed none) url = (refl, refl)
catch-own_status (query_failed (some code)) url = ground arith
catch-own_status entity_not_found url = (refl, refl)
catch-own_status (error message) url = (refl, refl)
catch-own_status anything_else url = (refl, refl)

-- What no class of errors stands for: an exception that is neither one of the domain, nor one of
-- HTTP with a status that the filter knows, nor a violation of a unique key, nor a missing entity.
abbrev pub is_unforeseen : Thrown → Bool
is_unforeseen (domain_exception e message) = false
is_unforeseen (http_exception status body message) = not (is_known status)
is_unforeseen (query_failed none) = true
is_unforeseen (query_failed (some code)) = not (str_eq code "23505")
is_unforeseen entity_not_found = false
is_unforeseen (error message) = true
is_unforeseen anything_else = true

domain-not_500 : (e : DomainError) → (error_type_of e).status ≡ 500 → false ≡ true
unfolding error_type_of
domain-not_500 seat_already_held h = ground arith
domain-not_500 hold_expired h = ground arith
domain-not_500 payment_required h = ground arith
domain-not_500 flight_not_found h = ground arith
domain-not_500 seat_not_found h = ground arith
domain-not_500 check_in_not_found h = ground arith
domain-not_500 already_checked_in h = ground arith
domain-not_500 already_on_waitlist h = ground arith
domain-not_500 cancellation_not_allowed h = ground arith
domain-not_500 waitlist_not_found h = ground arith
domain-not_500 rate_limit_exceeded h = ground arith

pub own_status_500 : (x : Thrown) → (own_status x ≡ 500) ↔ (is_unforeseen x ≡ true)
own_status_500 (domain_exception e message) = (domain-not_500 e, λ h. absurd (ground arith))
own_status_500 (http_exception status body message) = (λ h. ground arith, λ h. ground arith)
own_status_500 (query_failed none) = (λ h. ground arith, λ h. ground arith)
own_status_500 (query_failed (some code)) = (λ h. ground arith, λ h. ground arith)
own_status_500 entity_not_found = (λ h. ground arith, λ h. ground arith)
own_status_500 (error message) = (λ h. ground arith, λ h. ground arith)
own_status_500 anything_else = (λ h. ground arith, λ h. ground arith)
