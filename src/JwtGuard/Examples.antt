-- ===== src/JwtGuard/Examples.antt =====
-- The guard at a concrete request.
use sky_high_core.Common.{String, Option, none, some, false, ◌≡◌, ◌↔◌, if◌then◌else◌}
use text.Mathlib.Text.{◌==◌ as str_eq}
use sky_high_core.JwtGuard.{JwtPayload, Request, activated, can_activate}
use sky_high_core.JwtGuard.Bearer.{Admitted, can_activate_iff}

abbrev claims : JwtPayload
claims = record { sub = "p-7"; iat = 1000; exp = 2000 }

abbrev verify_one : String → Option JwtPayload
verify_one token = if str_eq token "abc" then some claims else none

abbrev asking : Request
asking = record { authorization = some "Bearer abc x"; user = none }

abbrev known : Request
known = record asking { user = some claims }

can_activate_iff_example :
    (can_activate verify_one none (some false) asking ≡ activated known)
    ↔ Admitted verify_one none (some false) asking known
can_activate_iff_example = can_activate_iff verify_one none (some false) asking known
