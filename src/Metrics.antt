-- ===== src/Metrics.antt =====
-- src/common/observability/metrics.service.ts: the metrics of the program, each registered once.
-- The registry of the Prometheus library is an interface.
pub mod Registered
use text.Mathlib.Text.{◌==◌ as str_eq}
use sky_high_core.Common.{ℕ, String, Option, none, some, List, [], ◌∷◌, ◌≡◌, if◌then◌else◌}
use sky_high_core.Platform.Table.{is_none}

pub data Kind : Type 0 where
  counter gauge histogram : Kind

-- What a metric is created with. Buckets are in hundredths of a second.
pub record Metric : Type 0 where
  pub kind : Kind
  pub name : String
  pub help : String
  pub label_names : List String
  pub buckets : List ℕ

pub record Registry : Type 1 where
  pub State : Type 0
  pub get_single_metric : String → State → Option Metric
  -- A metric's constructor registers it, and throws if its name is taken.
  pub create : Metric → State → Option State
  pub registered : Metric → State → State
  pub create_law :
      (m : Metric) (s : State)
      → create m s ≡ (if is_none (get_single_metric m.name s) then some (registered m s) else none)
  pub get_single_metric-registered :
      (n : String) (m : Metric) (s : State)
      → get_single_metric n (registered m s)
        ≡ (if str_eq m.name n then some m else get_single_metric n s)

-- A step on the registry that may throw.
abbrev pub Registering : Type 0 → Type 0 → Type 0
Registering S A = S → Option (A × S)

infixl 5 ◌>>=◌
abbrev pub ◌>>=◌ : {S A B : Type 0} → Registering S A → (A → Registering S B) → Registering S B
◌>>=◌ step f s = elim (step s) [ none ↦ none | some (a, s') ↦ f a s' ]

pub record MetricsService : Type 0 where
  pub seat_map_requests_total : Metric
  pub seat_hold_duration_seconds : Metric
  pub seat_contention_total : Metric
  pub hold_expiry_total : Metric
  pub checkin_duration_seconds : Metric
  pub waitlist_depth : Metric
  pub waitlist_assignment_total : Metric
  pub abuse_events_total : Metric
  pub payment_request_duration_seconds : Metric
  pub http_request_duration_seconds : Metric

module _ (registry : Registry) where
  abbrev created : Metric → Option registry.State → Option (Metric × registry.State)
  created m none = none
  created m (some s) = some (m, s)

  abbrev pub get_or_create : Metric → Registering registry.State Metric
  get_or_create m s = elim (registry.get_single_metric m.name s) [
    | some existing ↦ some (existing, s)
    | none ↦ created m (registry.create m s)
  ]

  pub get_or_create_counter : String → String → List String → Registering registry.State Metric
  get_or_create_counter name help label_names = get_or_create (record {
    kind = Kind.counter;
    name = name;
    help = help;
    label_names = label_names;
    buckets = [];
  })

  pub get_or_create_histogram :
      String → String → List String → List ℕ → Registering registry.State Metric
  get_or_create_histogram name help label_names buckets = get_or_create (record {
    kind = Kind.histogram;
    name = name;
    help = help;
    label_names = label_names;
    buckets = buckets;
  })

  pub get_or_create_gauge : String → String → List String → Registering registry.State Metric
  get_or_create_gauge name help label_names = get_or_create (record {
    kind = Kind.gauge;
    name = name;
    help = help;
    label_names = label_names;
    buckets = [];
  })

  -- The constructor.
  pub create_metrics_service : Registering registry.State MetricsService
  unfolding get_or_create_counter get_or_create_histogram get_or_create_gauge
  create_metrics_service = do
    seat_map_requests ←
        get_or_create_counter "skyhigh_seat_map_requests_total" "Total seat map requests"
          ("flight_id" ∷ "status" ∷ [])
    seat_hold_duration ←
        get_or_create_histogram "skyhigh_seat_hold_duration_seconds"
          "Duration of seat holds in seconds" ("flight_id" ∷ [])
          (500 ∷ 1500 ∷ 3000 ∷ 6000 ∷ 9000 ∷ 12000 ∷ 15000 ∷ [])
    seat_contention ←
        get_or_create_counter "skyhigh_seat_contention_total"
          "Total seat contention events (CAS failures)" ("flight_id" ∷ [])
    hold_expiry ←
        get_or_create_counter "skyhigh_hold_expiry_total" "Total hold expiry events"
          ("flight_id" ∷ "mechanism" ∷ [])
    checkin_duration ←
        get_or_create_histogram "skyhigh_checkin_duration_seconds"
          "Duration of the full check-in flow in seconds" ("flight_id" ∷ "status" ∷ [])
          (10 ∷ 50 ∷ 100 ∷ 200 ∷ 500 ∷ 1000 ∷ 3000 ∷ [])
    waitlist_depth ←
        get_or_create_gauge "skyhigh_waitlist_depth" "Current waitlist depth per flight"
          ("flight_id" ∷ [])
    waitlist_assignment ←
        get_or_create_counter "skyhigh_waitlist_assignment_total"
          "Total waitlist auto-assignment events" ("flight_id" ∷ [])
    abuse_events ←
        get_or_create_counter "skyhigh_abuse_events_total" "Total abuse events detected"
          ("source_ip" ∷ [])
    payment_request_duration ←
        get_or_create_histogram "skyhigh_payment_request_duration_seconds"
          "Duration of payment service requests in seconds" ("status" ∷ [])
          (10 ∷ 50 ∷ 100 ∷ 200 ∷ 500 ∷ 1000 ∷ [])
    http_request_duration ←
        get_or_create_histogram "skyhigh_http_request_duration_seconds"
          "Duration of HTTP requests in seconds" ("method" ∷ "path" ∷ "status" ∷ [])
          (1 ∷ 5 ∷ 10 ∷ 25 ∷ 50 ∷ 100 ∷ 250 ∷ 500 ∷ 1000 ∷ [])
    λ s. some (
      record {
        seat_map_requests_total = seat_map_requests;
        seat_hold_duration_seconds = seat_hold_duration;
        seat_contention_total = seat_contention;
        hold_expiry_total = hold_expiry;
        checkin_duration_seconds = checkin_duration;
        waitlist_depth = waitlist_depth;
        waitlist_assignment_total = waitlist_assignment;
        abuse_events_total = abuse_events;
        payment_request_duration_seconds = payment_request_duration;
        http_request_duration_seconds = http_request_duration;
      },
      s,
    )
