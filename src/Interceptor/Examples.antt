-- ===== src/Interceptor/Examples.antt =====
-- The interceptor at a concrete request: GET /a/{id}/b for an unknown check-in.
use sky_high_core.Common.{true, codes, ℕ, none, List, ◌≡◌, ◌↔◌, refl, arith}
use sky_high_core.Domain.Errors.{check_in_not_found}
use sky_high_core.Filter.{Thrown, domain_exception, catch}
use sky_high_core.Interceptor.{Request, Ending, normalize_path, intercept}
use sky_high_core.Filter.Statuses.{is_unforeseen}
use sky_high_core.Interceptor.Status.{intercept-catch}

abbrev path : List ℕ
path = codes "/a/123e4567-E89b-12d3-a456-426614174000/b"

normalized : normalize_path path ≡ codes "/a/:id/b"
unfolding normalize_path
normalized = refl

abbrev asking : Request
asking = record {
  method = "GET";
  url = path;
  route_path = none;
  params = record { flight_id = none; check_in_id = none; waitlist_id = none };
  body = none;
  user_sub = none;
}

abbrev unknown : Thrown
unknown = domain_exception check_in_not_found "Check-in not found"

intercept-catch_example :
    ((intercept asking 1000 1020 Ending.error 200).0.status ≡ (catch unknown "/a").0)
    ↔ (is_unforeseen unknown ≡ true)
intercept-catch_example = intercept-catch asking 1000 1020 200 unknown "/a" (omega arith)
