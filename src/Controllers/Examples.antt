-- ===== src/Controllers/Examples.antt =====
-- A request of passenger 7 while passenger 8 has a check-in too.
use sky_high_core.Common.{ℕ, String, Option, some, none, true, ◌≡◌, refl, if◌then◌else◌, split}
use text.Mathlib.Text.{◌==◌ as str_eq}
use sky_high_core.Domain.Enums.{SeatStatus, CheckInStatus, WaitlistStatus}
use sky_high_core.Platform.World.{World}
use sky_high_core.Platform.Memory.Server.{memory}
use sky_high_core.Samples.{
  one_row, seat_of, check_in_of, entry_of, hold_of, world_of, baggage, payments, recovering,
}
use sky_high_core.JwtGuard.{
  JwtPayload, Request, is_public_route, extract_token_from_header, can_activate, current_user,
}
use sky_high_core.RateLimiter.Memory.{limits, quiet}
use sky_high_core.System.Privacy.{Spares}
use sky_high_core.Controllers.{HttpRequest, check_ins, delete_check_in, serve, asks_as}
use sky_high_core.Controllers.Privacy.{serve-Spares}

abbrev before : World memory
before =
    world_of (one_row 5 (seat_of SeatStatus.held (some 7) (some 1000)))
      (one_row 3 (check_in_of CheckInStatus.in_progress))
      (one_row 2 (entry_of WaitlistStatus.waiting)) (hold_of 7) 50000

abbrev verify_one : String → Option JwtPayload
verify_one token =
    if str_eq token "abc" then some (record { sub = "p-7"; iat = 1000; exp = 2000 }) else none

abbrev id_named : String → ℕ
id_named text = if str_eq text "p-7" then 7 else 0

abbrev asked : Request
asked = record { authorization = some "Bearer abc"; user = none }

asks_as_7 : asks_as verify_one id_named asked ≡ some 7
unfolding asks_as can_activate is_public_route extract_token_from_header current_user split
asks_as_7 = refl

abbrev request : HttpRequest
request = record {
  sent = record { client_ip = 4; original_url = "/check-ins/3"; method = "DELETE" };
  asked = asked;
}

serve-Spares_example :
    Spares memory.db 7 before.tables
      (serve baggage payments
        (λ w. w)
        (λ w. w)
        recovering
        verify_one
        id_named
        limits
        true
        true
        request
        (check_ins (delete_check_in 3))
        before
        quiet).1.tables
serve-Spares_example =
    serve-Spares baggage payments (λ w. w) (λ w. w) recovering 7 alone alone verify_one id_named
      limits true true request (check_ins (delete_check_in 3)) before quiet asks_as_7
  where
    alone : (w : World memory) → Spares memory.db 7 w.tables w.tables
    alone w = record { check_ins = λ i. refl; entries = λ i. refl }
