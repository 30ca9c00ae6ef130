-- ===== src/Controllers.antt =====
-- src/check-in/check-in.controller.ts, waitlist/waitlist.controller.ts, seat/seat.controller.ts and
-- flight/flight.controller.ts: the requests that the program answers, behind the guard and, for the seats,
-- the limiter of src/seat/seat.module.ts. The
-- framework finds the handler and reads the parameters; `id_named` is the id that a text spells.
pub mod Privacy
mod Examples
use mathlib.Core.Option
use sky_high_core.Common.{ℕ, String, Bool, true, false, Option, none, some, List, if◌then◌else◌}
use sky_high_core.Domain.Errors.{Action, Exception, pure, ok, err, ◌>>=◌}
use sky_high_core.Domain.Dtos.{
  CheckInResponse, CheckInCancelledResponse, WaitlistResponse, SeatMapResponse,
}
use sky_high_core.Platform.Backend.{Backend}
use sky_high_core.Platform.World.{World}
use sky_high_core.Seat.{get_seat_map}
use sky_high_core.Baggage.{BaggageConfig}
use sky_high_core.Payment.{PaymentConfig, Reply}
use sky_high_core.CheckIn.Steps.{get_check_in}
use sky_high_core.CheckIn.Start.{start_check_in}
use sky_high_core.CheckIn.Confirm.{confirm_check_in}
use sky_high_core.CheckIn.Cancel.{cancel_check_in}
use sky_high_core.Waitlist.Queue.{join_waitlist, leave_waitlist, get_flight_waitlist}
use sky_high_core.Flights.{FlightResponse, PaginatedFlightsResponse, find_all, find_one}
use sky_high_core.Filter.{ErrorType}
use sky_high_core.RateLimiter
use sky_high_core.RateLimiter.{SortedSets, Limits, Guard, Verdict, next, too_many, use_limiter}
use sky_high_core.JwtGuard.{
  JwtPayload, Request, Activation, activated, unauthorized, can_activate, current_user,
}

-- A constructor for each handler of a controller, with its parameters but the user.
pub data CheckInRoute : Type 0 where
  post_check_in : (flight_id seat_id : ℕ) → CheckInRoute
  get_check_in_by_id : (check_in_id : ℕ) → CheckInRoute
  patch_check_in : (check_in_id : ℕ) (baggage_weight : Option ℕ) → CheckInRoute
  delete_check_in : (check_in_id : ℕ) → CheckInRoute

pub data WaitlistRoute : Type 0 where
  post_waitlist : (flight_id : ℕ) → WaitlistRoute
  get_waitlist : (flight_id : ℕ) → WaitlistRoute
  delete_waitlist : (waitlist_id : ℕ) → WaitlistRoute

pub data SeatRoute : Type 0 where
  get_seats : (flight_id : ℕ) → SeatRoute

pub data FlightRoute : Type 0 where
  get_flights : (page limit : ℕ) → FlightRoute
  get_flight : (flight_id : ℕ) → FlightRoute

pub data Route : Type 0 where
  check_ins : CheckInRoute → Route
  waitlist : WaitlistRoute → Route
  seats : SeatRoute → Route
  flights : FlightRoute → Route

-- `consumer.apply(RateLimiterMiddleware).forRoutes(SeatController)`
pub limited : Route → Bool
limited (check_ins route) = false
limited (waitlist route) = false
limited (seats route) = true
limited (flights route) = false

-- What the middleware of a route makes of a request.
pub limit :
    {sets : SortedSets}
    → Limits
    → (answers stores : Bool) → (now : ℕ) → RateLimiter.Request
    → Route
    → Guard sets
    → Verdict × Guard sets
unfolding limited
limit limits answers stores now sent route g =
    if limited route then use_limiter limits answers stores now sent g else (next, g)

-- What the limiter and the guard read of one request.
pub record HttpRequest : Type 0 where
  pub sent : RateLimiter.Request
  pub asked : Request

pub data Response : Type 0 where
  check_in_response : CheckInResponse → Response
  cancelled_response : CheckInCancelledResponse → Response
  waitlist_response : WaitlistResponse → Response
  waitlist_responses : List WaitlistResponse → Response
  seat_map_response : SeatMapResponse → Response
  flights_response : PaginatedFlightsResponse → Response
  flight_response : FlightResponse → Response

-- How a request ends: refused by the guard, with a response, with what a service threw, with the
-- failure of `@CurrentUser()` on a request that has no user, or answered by the limiter.
pub data Outcome : Type 0 where
  refused : (message : String) → Outcome
  responded : Response → Outcome
  threw : Exception → Outcome
  no_user : Outcome
  rate_limited : ErrorType → (retry_after : ℕ) → Outcome

-- The passenger whom the guard makes of a request. No handler of these controllers is public.
pub asks_as : (verify : String → Option JwtPayload) (id_named : String → ℕ) → Request → Option ℕ
asks_as verify id_named request = elim (can_activate verify none none request) [
  | unauthorized message ↦ none
  | activated known ↦ Option.map id_named (current_user known)
]

module _ {be : Backend} where
  pub check_in_controller :
      (baggage : BaggageConfig) (pay : PaymentConfig) (weighing meanwhile : World be → World be)
      (reply : ℕ → Reply) (passenger_id : ℕ)
      → CheckInRoute
      → Action (World be) Response
  check_in_controller baggage pay weighing meanwhile reply p (post_check_in f s) = do
    r ← start_check_in meanwhile p f s
    pure (check_in_response r)
  check_in_controller baggage pay weighing meanwhile reply p (get_check_in_by_id c) = do
    r ← get_check_in c p
    pure (check_in_response r)
  check_in_controller baggage pay weighing meanwhile reply p (patch_check_in c weight) = do
    r ← confirm_check_in baggage pay weighing meanwhile reply c p weight
    pure (check_in_response r)
  check_in_controller baggage pay weighing meanwhile reply p (delete_check_in c) = do
    r ← cancel_check_in meanwhile c p
    pure (cancelled_response r)

  pub waitlist_controller :
      (meanwhile : World be → World be) (passenger_id : ℕ)
      → WaitlistRoute
      → Action (World be) Response
  waitlist_controller meanwhile p (post_waitlist f) = do
    r ← join_waitlist meanwhile p f
    pure (waitlist_response r)
  waitlist_controller meanwhile p (get_waitlist f) = do
    r ← get_flight_waitlist f
    pure (waitlist_responses r)
  waitlist_controller meanwhile p (delete_waitlist e) = do
    r ← leave_waitlist e p
    pure (waitlist_response r)

  pub seat_controller : SeatRoute → Action (World be) Response
  seat_controller (get_seats f) = do r ← get_seat_map f; pure (seat_map_response r)

  pub flight_controller : FlightRoute → Action (World be) Response
  flight_controller (get_flights page limit) = do r ← find_all page limit; pure (flights_response r)
  flight_controller (get_flight f) = do r ← find_one f; pure (flight_response r)

module _ {be : Backend} (baggage : BaggageConfig) (pay : PaymentConfig)
    (weighing meanwhile : World be → World be) (reply : ℕ → Reply) where
  pub handler : (passenger_id : ℕ) → Route → Action (World be) Response
  handler p (check_ins route) = check_in_controller baggage pay weighing meanwhile reply p route
  handler p (waitlist route) = waitlist_controller meanwhile p route
  handler p (seats route) = seat_controller route
  handler p (flights route) = flight_controller route

  module _ (verify : String → Option JwtPayload) (id_named : String → ℕ) where
    abbrev answered : Request → Route → World be → Outcome × World be
    answered known route w = elim (current_user known) [
      | none ↦ (no_user, w)
      | some sub ↦
          let (r, w') = handler (id_named sub) route w in
          elim r [ ok response ↦ (responded response, w') | err e ↦ (threw e, w') ]
    ]

    -- The guard, then the handler.
    pub authorized : Request → Route → World be → Outcome × World be
    authorized request route w = elim (can_activate verify none none request) [
      | unauthorized message ↦ (refused message, w)
      | activated known ↦ answered known route w
    ]

    -- The middleware of a route comes before the guard. `answers` and `stores` are the limiter's.
    pub serve :
        {sets : SortedSets}
        → Limits
        → (answers stores : Bool) → HttpRequest
        → Route
        → World be
        → Guard sets
        → Outcome × World be × Guard sets
    serve limits answers stores request route w g =
        let (verdict, g') = limit limits answers stores w.clock request.sent route g in
        elim verdict [
          | next ↦ let (outcome, w') = authorized request.asked route w in (outcome, w', g')
          | too_many type retry_after ↦ (rate_limited type retry_after, w, g')
        ]
