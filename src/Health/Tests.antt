-- ===== src/Health/Tests.antt =====
-- The histograms and the health checks at concrete inputs.
use bacnet_event_server.Base.{ℕ, ◌≡◌, refl, List, [], ◌∷◌, ◌++◌, none, some, codes, arith}
use bacnet_event_server.Base.Samples.{whole}
use bacnet_event_server.Health.Histogram.{
  Histogram, observe_all, observe, bump, find_histogram_bucket, find_from, cumulative,
}
use bacnet_event_server.Health.Checks.{
  HealthStatus, up, down, degraded, unknown, RegisteredCheck, new_check, register_all,
  handle_health, handle_health_ready, ready_loop,
}
use bacnet_event_server.Health.Readiness.{health-ready, register_all-first}
use bacnet_event_server.Health.Buckets.{IsConsistent, last_or, observed_cumulative}

abbrev bounds : List ℕ
bounds = 1 ∷ 5 ∷ 10 ∷ []

abbrev zeroed : Histogram
zeroed = record { buckets = 0 ∷ 0 ∷ 0 ∷ []; count = 0; sum = 0 }

zeroed-IsConsistent : IsConsistent bounds zeroed
zeroed-IsConsistent = record { sized = refl; counted = refl }

observed_cumulative_example :
    last_or 0 (cumulative 0 (observe_all whole bounds zeroed (3 ∷ 7 ∷ 1 ∷ 99 ∷ [])).buckets) ≡ 4
unfolding observe_all observe
observed_cumulative_example =
    observed_cumulative whole bounds (3 ∷ 7 ∷ 1 ∷ 99 ∷ []) zeroed (omega arith) zeroed-IsConsistent

printed :
    cumulative 0 (observe_all whole bounds zeroed (3 ∷ 7 ∷ 1 ∷ 99 ∷ [])).buckets ≡ 1 ∷ 2 ∷ 4 ∷ []
unfolding observe_all observe bump find_histogram_bucket find_from cumulative
printed = refl

-- Two checks that are their own answers, and one without a function.
abbrev sensors : List (RegisteredCheck HealthStatus)
sensors =
    record {
      name = codes "redis";
      check_fn = some up;
      last_status = unknown;
      last_message = [];
      last_check_time = 0;
    }
    ∷ record {
      name = codes "spare";
      check_fn = none;
      last_status = unknown;
      last_message = [];
      last_check_time = 0;
    }
    ∷ record {
      name = codes "bacnet";
      check_fn = some degraded;
      last_status = unknown;
      last_message = [];
      last_check_time = 0;
    }
    ∷ []

health-ready_example :
    (handle_health (λ s. (s, [])) 100 sensors).1.code
    ≡ (handle_health_ready (λ s. (s, [])) sensors).code
health-ready_example = (health-ready (λ s. (s, [])) 100 sensors).1

not_ready : (handle_health_ready (λ s. (s, [])) sensors).code ≡ 503
unfolding handle_health_ready ready_loop
not_ready = refl

register_all-first_example :
    register_all sensors ((codes "kurrentdb", some down) ∷ [])
    ≡ sensors ++ new_check (codes "kurrentdb") (some down) ∷ []
register_all-first_example = register_all-first sensors ((codes "kurrentdb", some down) ∷ [])
