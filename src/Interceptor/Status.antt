-- ===== src/Interceptor/Status.antt =====
-- The status that is reported of a request that fails, and the one that its client gets: the filter
-- of src/common/filters runs after the interceptor.
use sky_high_core.Common.{ℕ, ◌<◌, String, true, ◌≡◌, ◌↔◌, ◌∙◌, sym, arith}
use sky_high_core.Filter.{Thrown, catch}
use sky_high_core.Filter.Statuses.{is_unforeseen, own_status_500, catch-own_status}
use sky_high_core.Interceptor.{Request, Ending, intercept}

intercept-error :
    (request : Request) (start finish status_code : ℕ)
    → status_code < 400
    → (intercept request start finish Ending.error status_code).0.status ≡ 500
unfolding intercept
intercept-error request start finish status_code unset = ground arith

-- For a request that fails while the status code of the response is below 400, the status that the
-- interceptor observes is the one that the filter answers with if and only if the exception is an
-- unforeseen one: neither one of the domain, nor an HTTP exception of one of the statuses 400, 401,
-- 402, 403, 404, 409, 410 and 429, nor a violation of a unique key, nor a missing entity.
pub intercept-catch :
    (request : Request) (start finish status_code : ℕ) (exception : Thrown) (url : String)
    → status_code < 400
    → ((intercept request start finish Ending.error status_code).0.status ≡ (catch exception url).0)
      ↔ (is_unforeseen exception ≡ true)
intercept-catch request start finish status_code exception url unset =
    let label = intercept-error request start finish status_code unset in
    let answer = (catch-own_status exception url).0 in
    let (to, from) = own_status_500 exception in
    (λ same. to (sym answer ∙ (sym same ∙ label)), λ h. label ∙ sym (answer ∙ from h))
