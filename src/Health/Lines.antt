-- ===== src/Health/Lines.antt =====
-- The lengths of the lines of /metrics in src/health_api.c.
use bacnet_event_server.Base.{
  ℕ, String, ◌+◌, ◌-◌, ◌*◌, ◌^◌, ◌≤◌, ◌<◌, ◌≡◌, refl, ap, ◌∙◌, List, [], ◌∷◌, ◌++◌, Bytes, codes,
  length, length-append, All, arith, leb, Bool-cases, inl, inr,
}
use bacnet_event_server.Base.Words.{add64}
use bacnet_event_server.Base.Decimal.{print_nat, print_signed, length-print_nat}
use bacnet_event_server.Base.Buffer.{concat}
use bacnet_event_server.Health.Histogram.{cumulative}
use bacnet_event_server.Health.Metrics.{
  comment_lines, processing_bounds, read_bounds, bucket_line, bucket_lines, join,
}

pub length-word : (n : ℕ) → n < 2 ^ 64 → length (print_nat n) ≤ 20
length-word n h = length-print_nat 19 n (omega arith)

pub length-signed : (n : ℕ) → n < 2 ^ 64 → length (print_signed 64 n) ≤ 20
unfolding print_signed
length-signed n h = elim (Bool-cases (leb (2 ^ 63) n)) [
  | inl negative ↦ rw negative (omega (arith, length-print_nat 18 (2 ^ 64 - n) (ground arith)))
  | inr positive ↦ rw positive (length-word n h)
]

unfoldable pub AreShort : List Bytes → Type 0
AreShort ps = All (λ p. length p ≤ 700) ps

pub append-AreShort : (ps qs : List Bytes) → AreShort ps → AreShort qs → AreShort (ps ++ qs)
unfolding AreShort
append-AreShort [] qs h k = k
append-AreShort (p ∷ ps) qs (x, h) k = (x, append-AreShort ps qs h k)

pub length-concat : (ps : List Bytes) → AreShort ps → length (concat ps) ≤ 700 * length ps
unfolding AreShort
length-concat [] h = omega arith
length-concat (p ∷ ps) (x, h) = omega (arith, length-append p (concat ps), length-concat ps h)

pub length-comment_lines :
    (name help : String) (kind : Bytes)
    → length (comment_lines name help kind)
      ≡ 18 + 2 * length (codes name) + length (codes help) + length kind
unfolding comment_lines
length-comment_lines name help kind = simp length-append (omega arith)

pub length-bucket_line :
    (name bound : String) (count : ℕ)
    → length (codes name) ≤ 64
    → length (codes bound) ≤ 5
    → count < 2 ^ 64
    → length (bucket_line name bound count) ≤ 700
unfolding bucket_line
length-bucket_line name bound count h k l = simp length-append (omega (arith, length-word count l))

-- The cumulative counts are words.
pub bucket_lines-AreShort :
    (name : String) (bounds : List String) (so_far : ℕ) (counts : List ℕ)
    → length (codes name) ≤ 64
    → All (λ b. length (codes b) ≤ 5) bounds
    → AreShort (bucket_lines name bounds (cumulative so_far counts))
      × (length (bucket_lines name bounds (cumulative so_far counts)) ≤ length bounds)
unfolding bucket_lines AreShort cumulative
bucket_lines-AreShort name [] so_far counts h k = (tt, omega arith)
bucket_lines-AreShort name (bound ∷ bounds) so_far [] h k = (tt, omega arith)
bucket_lines-AreShort name (bound ∷ bounds) so_far (count ∷ counts) h (x, k) =
    let rest = bucket_lines-AreShort name bounds (add64 so_far count) counts h k in
    (
      (length-bucket_line name bound (add64 so_far count) h x (omega arith), rest.0),
      omega (arith, rest.1),
    )

pub bounds_short :
    All (λ b. length (codes b) ≤ 5) processing_bounds × All (λ b. length (codes b) ≤ 5) read_bounds
bounds_short = omega arith

pub join-AreShort : (gs : List (List Bytes)) → All AreShort gs → AreShort (join gs)
unfolding AreShort
join-AreShort [] h = tt
join-AreShort (g ∷ gs) (x, h) = append-AreShort g (join gs) x (join-AreShort gs h)

abbrev pub total : List (List Bytes) → ℕ
total [] = 0
total (g ∷ gs) = length g + total gs

pub length-join : (gs : List (List Bytes)) → length (join gs) ≡ total gs
length-join [] = refl
length-join (g ∷ gs) = length-append g (join gs) ∙ ap (λ n. length g + n) (length-join gs)
