-- ===== src/Health/Histogram.antt =====
-- The latency histograms of src/health_api.c: find_histogram_bucket, the two observe functions, and the
-- cumulative counts that handle_metrics prints.
use bacnet_event_server.Base.{ℕ, zero, suc, ◌-◌, List, [], ◌∷◌, if◌then◌else◌, length}
use bacnet_event_server.Base.Words.{Fpu, inc64, add64}

-- The bounds are doubles, the last one infinity; `value` a double.
unfoldable pub find_from : Fpu → List ℕ → ℕ → ℕ → ℕ → ℕ
find_from fpu [] i count value = count - 1
find_from fpu (b ∷ bounds) i count value =
    if fpu.le value b then i else find_from fpu bounds (suc i) count value

unfoldable pub find_histogram_bucket : Fpu → List ℕ → ℕ → ℕ
unfolding find_from
find_histogram_bucket fpu bounds value = find_from fpu bounds 0 (length bounds) value

-- The bucket counts, the number of observations, and their sum (a double).
pub record Histogram : Type 0 where
  pub buckets : List ℕ
  pub count : ℕ
  pub sum : ℕ

unfoldable pub bump : List ℕ → ℕ → List ℕ
bump [] i = []
bump (b ∷ bs) zero = inc64 b ∷ bs
bump (b ∷ bs) (suc i) = b ∷ bump bs i

-- health_api_observe_processing_latency and health_api_observe_read_latency.
unfoldable pub observe : Fpu → List ℕ → Histogram → ℕ → Histogram
observe fpu bounds h latency = record {
  buckets = bump h.buckets (find_histogram_bucket fpu bounds latency);
  count = inc64 h.count;
  sum = fpu.add h.sum latency;
}

unfoldable pub observe_all : Fpu → List ℕ → Histogram → List ℕ → Histogram
observe_all fpu bounds h [] = h
observe_all fpu bounds h (x ∷ xs) = observe_all fpu bounds (observe fpu bounds h x) xs

-- The loop of handle_metrics over the buckets.
unfoldable pub cumulative : ℕ → List ℕ → List ℕ
cumulative so_far [] = []
cumulative so_far (b ∷ bs) = let next = add64 so_far b in next ∷ cumulative next bs
