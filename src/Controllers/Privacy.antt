-- ===== src/Controllers/Privacy.antt =====
-- What a request can change of the check-ins and waitlist entries of other passengers.
use sky_high_core.Common.{
  ℕ, String, Bool, ◌⊎◌, Option, none, some, ◌≡◌, refl, ap, sym, inl, inr, arith, Option-cases,
}
use sky_high_core.Platform.Backend.{Backend}
use sky_high_core.Platform.World.{World}
use sky_high_core.Baggage.{BaggageConfig}
use sky_high_core.Payment.{PaymentConfig, Reply}
use sky_high_core.Filter.{ErrorType}
use sky_high_core.RateLimiter.{SortedSets, Limits, Guard, Verdict, next, too_many}
use sky_high_core.JwtGuard.{
  JwtPayload, Request, Activation, activated, unauthorized, can_activate, current_user,
}
use sky_high_core.Domain.Errors.{Result, ok, err, Result-cases}
use sky_high_core.CheckIn.Start.{start_check_in}
use sky_high_core.CheckIn.Start.Stepping.{start_check_in-Moved}
use sky_high_core.CheckIn.Confirm.{confirm_check_in}
use sky_high_core.CheckIn.Confirm.Stepping.{confirm_check_in-Moved}
use sky_high_core.CheckIn.Cancel.{cancel_check_in}
use sky_high_core.CheckIn.Cancel.Stepping.{cancel_check_in-Moved}
use sky_high_core.Waitlist.Queue.{join_waitlist, leave_waitlist, get_flight_waitlist}
use sky_high_core.Waitlist.Queue.Stepping.{
  join_waitlist-Moved, leave_waitlist-Moved, get_flight_waitlist_keeps,
}
use sky_high_core.Seat.{get_seat_map}
use sky_high_core.Seat.Cache.{get_seat_map-tables}
use sky_high_core.Flights.{find_all, find_one}
use sky_high_core.Flights.Pages.{find_all_keeps, find_one_keeps}
use sky_high_core.CheckIn.Steps.{get_check_in}
use sky_high_core.CheckIn.Steps.Reading.{get_check_in_lem}
use sky_high_core.System.Motion.{Motion, Beside, rests}
use sky_high_core.Controllers.{
  Route, check_ins, waitlist, seats, flights, check_in_controller, waitlist_controller,
  seat_controller, flight_controller, post_check_in, get_check_in_by_id, patch_check_in,
  delete_check_in, post_waitlist, get_waitlist, delete_waitlist, get_seats, get_flights, get_flight,
  Response, check_in_response, cancelled_response, waitlist_response, waitlist_responses,
  seat_map_response, flights_response, flight_response, handler, authorized, limit, HttpRequest,
  serve, asks_as,
}
use sky_high_core.System.Privacy.{
  Spares, Spares-refl, privacy, privacy_of_Spares, Spares-of_privacy,
}

Activation-cases :
    (a : Activation)
    → ((message : String) × (a ≡ unauthorized message))
      ⊎ ((known : Request) × (a ≡ activated known))
Activation-cases (unauthorized message) = inl (message, refl)
Activation-cases (activated known) = inr (known, refl)

Verdict-cases :
    (v : Verdict)
    → (v ≡ next) ⊎ ((type : ErrorType) × (retry_after : ℕ) × (v ≡ too_many type retry_after))
Verdict-cases next = inl refl
Verdict-cases (too_many type retry_after) = inr (type, retry_after, refl)

-- What a handler makes of a service's result has no part in the tables.
kept :
    {be : Backend} {A : Type 0} (p : ℕ) (f : A → Response) (w : World be) (m : Result A × World be)
    → (privacy be.db p).Moved w.tables m.1.tables
    → Spares be.db p w.tables
        (elim m.0 as (λ _. Result Response × World be) [
          | ok a ↦ (ok (f a), m.1)
          | err e ↦ (err e, m.1)
        ]).1.tables
kept {be} p f w m moved = elim (Result-cases m) [
  | inl (a, w', e) ↦ rw e (Spares-of_privacy be.db p w.tables m.1.tables moved)
  | inr (x, w', e) ↦ rw e (Spares-of_privacy be.db p w.tables m.1.tables moved)
]

module _ {be : Backend} (baggage : BaggageConfig) (pay : PaymentConfig)
    (weighing meanwhile : World be → World be) (reply : ℕ → Reply) (p : ℕ)
    (weighs : (w : World be) → Spares be.db p w.tables (weighing w).tables)
    (moves : (w : World be) → Spares be.db p w.tables (meanwhile w).tables) where
  rule : Motion be.db p
  rule = privacy be.db p

  beside : Beside rule meanwhile
  unfolding rule
  beside w = privacy_of_Spares be.db p w.tables (meanwhile w).tables (moves w)

  weighed : Beside rule weighing
  unfolding rule
  weighed w = privacy_of_Spares be.db p w.tables (weighing w).tables (weighs w)

  handler-Spares :
      (route : Route) (w : World be)
      → Spares be.db p w.tables (handler baggage pay weighing meanwhile reply p route w).1.tables
  unfolding handler check_in_controller waitlist_controller seat_controller flight_controller rule
  handler-Spares (check_ins (post_check_in f s)) w =
      kept p check_in_response w (start_check_in meanwhile p f s w)
        (start_check_in-Moved rule meanwhile beside f s w)
  handler-Spares (check_ins (get_check_in_by_id c)) w =
      kept p check_in_response w (get_check_in c p w)
        (rests rule (ap (λ u. u.tables) (get_check_in_lem c p w).0))
  handler-Spares (check_ins (patch_check_in c weight)) w =
      kept p check_in_response w
        (confirm_check_in baggage pay weighing meanwhile reply c p weight w)
        (confirm_check_in-Moved rule pay meanwhile beside reply baggage weighing weighed c weight w)
  handler-Spares (check_ins (delete_check_in c)) w =
      kept p cancelled_response w (cancel_check_in meanwhile c p w)
        (cancel_check_in-Moved rule meanwhile beside c w)
  handler-Spares (waitlist (post_waitlist f)) w =
      kept p waitlist_response w (join_waitlist meanwhile p f w)
        (join_waitlist-Moved rule meanwhile beside f w)
  handler-Spares (waitlist (get_waitlist f)) w =
      kept p waitlist_responses w (get_flight_waitlist f w)
        (rests rule (ap (λ u. u.tables) (get_flight_waitlist_keeps rule f w)))
  handler-Spares (waitlist (delete_waitlist e)) w =
      kept p waitlist_response w (leave_waitlist e p w) (leave_waitlist-Moved rule e w)
  handler-Spares (seats (get_seats f)) w =
      kept p seat_map_response w (get_seat_map f w) (rests rule (get_seat_map-tables f w))
  handler-Spares (flights (get_flights page limit)) w =
      kept p flights_response w (find_all page limit w)
        (rests rule (ap (λ u. u.tables) (find_all_keeps w page limit)))
  handler-Spares (flights (get_flight f)) w =
      kept p flight_response w (find_one f w) (rests rule (ap (λ u. u.tables) (find_one_keeps w f)))

  -- A request that the guard takes for a passenger's leaves every check-in and every waitlist entry
  -- of every other passenger as it was, whatever the handler and its parameters, and whether it
  -- succeeds or fails, if what runs beside it where it waits does so too.
  authorized-Spares :
      (verify : String → Option JwtPayload) (id_named : String → ℕ) (request : Request)
      (route : Route) (w : World be)
      → asks_as verify id_named request ≡ some p
      → Spares be.db p w.tables
          (authorized baggage pay weighing meanwhile reply verify id_named request route w).1.tables
  unfolding authorized asks_as
  authorized-Spares verify id_named request route w asks =
      elim (Activation-cases (can_activate verify none none request)) [
        | inl (message, e) ↦ absurd (ground arith)
        | inr (known, e) ↦ elim (Option-cases (current_user known)) [
          | inl nobody ↦ absurd (ground arith)
          | inr (sub, e') ↦
              let is_p : id_named sub ≡ p = ground arith in
              let done = Result-cases (handler baggage pay weighing meanwhile reply p route w) in
              let same : (authorized baggage pay weighing meanwhile reply verify id_named request
                    route w).1
                  ≡ (handler baggage pay weighing meanwhile reply p route w).1 =
                elim done [ inl (a, w', q) ↦ ground arith | inr (x, w', q) ↦ ground arith ] in
              rw same (handler-Spares route w)
        ]
      ]

  -- A request that the guard takes for a passenger's leaves every check-in and every waitlist entry
  -- of every other passenger as it was, whatever the handler and its parameters, and whether it
  -- succeeds or fails, if what runs beside it where it waits does so too.
  pub serve-Spares :
      (verify : String → Option JwtPayload) (id_named : String → ℕ) {sets : SortedSets}
      (limits : Limits) (answers stores : Bool) (request : HttpRequest) (route : Route)
      (w : World be) (g : Guard sets)
      → asks_as verify id_named request.asked ≡ some p
      → Spares be.db p w.tables
          (serve baggage pay weighing meanwhile reply verify id_named limits answers stores request
            route w g).1.tables
  unfolding serve
  serve-Spares verify id_named limits answers stores request route w g asks =
      let served =
        serve baggage pay weighing meanwhile reply verify id_named limits answers stores request
          route w g in
      let allowed =
        authorized baggage pay weighing meanwhile reply verify id_named request.asked route w in
      elim (Verdict-cases (limit limits answers stores w.clock request.sent route g).0) [
        | inl passes ↦
            let same : served.1 ≡ allowed.1 = ground arith in
            rw same (authorized-Spares verify id_named request.asked route w asks)
        | inr (type, retry_after, stops) ↦
            let same : w.tables ≡ served.1.tables = ground arith in
            Spares-refl be.db p w.tables served.1.tables (sym same)
      ]
