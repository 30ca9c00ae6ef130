-- ===== src/Metrics/Registered.antt =====
-- The constructor of the metrics service, run any number of times.
use text.Mathlib.TextEquality.{eq_iff}
use text.Mathlib.TextPositions.{eq_refl}
use sky_high_core.Common.{String, some, ◌≡◌, refl, inl, inr, arith, Option-cases}
use sky_high_core.Metrics.{
  Metric, Registry, Registering, ◌>>=◌, MetricsService, get_or_create, get_or_create_counter,
  get_or_create_histogram, get_or_create_gauge, create_metrics_service,
}

module _ (registry : Registry) where
  -- What is registered stays registered.
  abbrev Keeps : registry.State → registry.State → Type 0
  Keeps s u =
      (n : String) (m : Metric)
      → registry.get_single_metric n s ≡ some m
      → registry.get_single_metric n u ≡ some m

  -- The step returns, keeps what is registered, and from then on returns the same at once.
  record Settles {A : Type 0} (step : Registering registry.State A) (s : registry.State)
      : Type 0 where
    value : A
    after : registry.State
    returns : step s ≡ some (value, after)
    keeps : Keeps s after
    again : (u : registry.State) → Keeps after u → step u ≡ some (value, u)

  get_or_create-Settles : (m : Metric) (s : registry.State) → Settles (get_or_create registry m) s
  get_or_create-Settles m s = elim (Option-cases (registry.get_single_metric m.name s)) [
    | inr (x, found) ↦ record {
      value = x;
      after = s;
      returns = ground arith;
      keeps = λ n y e. e;
      again = λ u k. let e = k m.name x found in ground arith;
    }
    | inl absent ↦
        let law = registry.create_law m s in
        let here = registry.get_single_metric-registered m.name m s in
        record {
          value = m;
          after = registry.registered m s;
          returns = ground arith;
          keeps =
              λ n y e. ground (arith, registry.get_single_metric-registered n m s, eq_iff m.name n);
          again = λ u k. let e = k m.name m (ground (arith, eq_refl m.name)) in ground arith;
        }
  ]

  >>=-Settles :
      {A B : Type 0} (step : Registering registry.State A) (f : A → Registering registry.State B)
      → ((s : registry.State) → Settles step s)
      → ((a : A) (s : registry.State) → Settles (f a) s)
      → (s : registry.State) → Settles (step >>= f) s
  >>=-Settles step f first rest s =
      let a = first s in
      let b = rest a.value a.after in
      record {
        value = b.value;
        after = b.after;
        returns = ground (arith, a.returns, b.returns);
        keeps = λ n m e. b.keeps n m (a.keeps n m e);
        again = λ u k.
            let e = a.again u (λ n m e. k n m (b.keeps n m e)) in
            let e' = b.again u k in ground arith;
      }

  create_metrics_service-Settles :
      (s : registry.State) → Settles (create_metrics_service registry) s
  unfolding create_metrics_service get_or_create_counter get_or_create_histogram get_or_create_gauge
  create_metrics_service-Settles = >>=-Settles _ _ (get_or_create-Settles _) λ m₁.
      >>=-Settles _ _ (get_or_create-Settles _) λ m₂.
        >>=-Settles _ _ (get_or_create-Settles _) λ m₃.
          >>=-Settles _ _ (get_or_create-Settles _) λ m₄.
            >>=-Settles _ _ (get_or_create-Settles _) λ m₅.
              >>=-Settles _ _ (get_or_create-Settles _) λ m₆.
                >>=-Settles _ _ (get_or_create-Settles _) λ m₇.
                  >>=-Settles _ _ (get_or_create-Settles _) λ m₈.
                    >>=-Settles _ _ (get_or_create-Settles _) λ m₉.
                      >>=-Settles _ _ (get_or_create-Settles _) λ m₁₀ s. record {
                        value = _;
                        after = s;
                        returns = refl;
                        keeps = λ n m e. e;
                        again = λ u k. refl;
                      }

  -- The constructor of the metrics service never fails, whatever is registered before; what was
  -- registered under a name stays, and a second run of the constructor gives the same metrics and
  -- registers nothing.
  create_metrics_service-again :
      (s : registry.State)
      → (service : MetricsService) × (s' : registry.State) × (create_metrics_service registry s
          ≡ some (service, s'))
        × (create_metrics_service registry s' ≡ some (service, s'))
        × Keeps s s'
  create_metrics_service-again s =
      let d = create_metrics_service-Settles s in
      (d.value, d.after, d.returns, d.again d.after (λ n m e. e), d.keeps)
