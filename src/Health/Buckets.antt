-- ===== src/Health/Buckets.antt =====
-- The consistency of the histograms of src/health_api.c: the buckets and the count.
use bacnet_event_server.Base.{
  ℕ, zero, suc, ◌+◌, ◌%◌, ◌<◌, ◌≤◌, ◌≡◌, refl, ap, ◌∙◌, List, [], ◌∷◌, arith, length,
}
use bacnet_event_server.Base.Words.{Fpu, u64_mod}
use bacnet_event_server.Health.Histogram.{
  find_from, find_histogram_bucket, Histogram, bump, observe, observe_all, cumulative,
}

abbrev pub total : List ℕ → ℕ
total [] = 0
total (b ∷ bs) = b + total bs

-- The bucket counts and the number of observations agree modulo 2^64, and there is a bucket for each
-- bound.
pub record IsConsistent (bounds : List ℕ) (h : Histogram) : Type 0 where
  pub sized : length h.buckets ≡ length bounds
  pub counted : h.count ≡ total h.buckets % u64_mod

length-bump : (bs : List ℕ) (i : ℕ) → length (bump bs i) ≡ length bs
unfolding bump
length-bump [] i = refl
length-bump (b ∷ bs) zero = refl
length-bump (b ∷ bs) (suc i) = ap suc (length-bump bs i)

total-bump :
    (bs : List ℕ) (i : ℕ) → i < length bs → total (bump bs i) % u64_mod ≡ (total bs + 1) % u64_mod
unfolding bump
total-bump [] i h = absurd (omega arith)
total-bump (b ∷ bs) zero h = omega arith
total-bump (b ∷ bs) (suc i) h = omega (arith, total-bump bs i (omega arith))

find_from-lt :
    (fpu : Fpu) (bounds : List ℕ) (i count value : ℕ)
    → i + length bounds ≤ count
    → 0 < count
    → find_from fpu bounds i count value < count
unfolding find_from
find_from-lt fpu [] i count value h p = omega arith
find_from-lt fpu (b ∷ bounds) i count value h p =
    ground (arith, find_from-lt fpu bounds (suc i) count value)

observe-IsConsistent :
    (fpu : Fpu) (bounds : List ℕ) (h : Histogram) (latency : ℕ)
    → 0 < length bounds
    → IsConsistent bounds h
    → IsConsistent bounds (observe fpu bounds h latency)
unfolding observe find_histogram_bucket
observe-IsConsistent fpu bounds h latency p c =
    let i = find_from fpu bounds 0 (length bounds) latency in
    let bound = find_from-lt fpu bounds 0 (length bounds) latency (omega arith) p in
    record {
      sized = length-bump h.buckets i ∙ c.sized;
      counted = omega (arith, total-bump h.buckets i (omega (arith, bound, c.sized)), c.counted);
    }

observe_all-IsConsistent :
    (fpu : Fpu) (bounds : List ℕ) (xs : List ℕ) (h : Histogram)
    → 0 < length bounds
    → IsConsistent bounds h
    → IsConsistent bounds (observe_all fpu bounds h xs)
unfolding observe_all
observe_all-IsConsistent fpu bounds [] h p c = c
observe_all-IsConsistent fpu bounds (x ∷ xs) h p c =
    observe_all-IsConsistent fpu bounds xs (observe fpu bounds h x) p
      (observe-IsConsistent fpu bounds h x p c)

abbrev pub last_or : ℕ → List ℕ → ℕ
last_or d [] = d
last_or d (x ∷ xs) = last_or x xs

last-cumulative :
    (bs : List ℕ) (so_far : ℕ)
    → so_far < u64_mod
    → last_or so_far (cumulative so_far bs) ≡ (so_far + total bs) % u64_mod
unfolding cumulative
last-cumulative [] so_far h = omega arith
last-cumulative (b ∷ bs) so_far h =
    last-cumulative bs ((so_far + b) % u64_mod) (omega arith) ∙ omega arith

-- However many latencies are observed from a consistent histogram (such as the zeroed one), the last
-- cumulative count that handle_metrics prints, that of "+Inf", is the count that it prints beside it.
pub observed_cumulative :
    (fpu : Fpu) (bounds : List ℕ) (xs : List ℕ) (h : Histogram)
    → 0 < length bounds
    → IsConsistent bounds h
    → last_or 0 (cumulative 0 (observe_all fpu bounds h xs).buckets)
      ≡ (observe_all fpu bounds h xs).count
observed_cumulative fpu bounds xs h p c =
    let w = observe_all fpu bounds h xs in
    omega (
      arith,
      last-cumulative w.buckets 0 (omega arith),
      (observe_all-IsConsistent fpu bounds xs h p c).counted,
    )
