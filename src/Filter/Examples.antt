-- ===== src/Filter/Examples.antt =====
-- The theorems about the filter at concrete exceptions.
use sky_high_core.Common.{◌≡◌}
use sky_high_core.Filter.{http_exception, plain, catch}
use sky_high_core.Filter.Statuses.{own_status, catch-own_status}

-- A service that is unavailable is reported as an internal error.
catch-own_status_example :
    ((catch (http_exception 503 (plain "down") "down") "/health").0
      ≡ own_status (http_exception 503 (plain "down") "down"))
    × ((catch (http_exception 503 (plain "down") "down") "/health").1.status
        ≡ own_status (http_exception 503 (plain "down") "down"))
catch-own_status_example = catch-own_status (http_exception 503 (plain "down") "down") "/health"
