-- ===== src/Metrics/Counts.antt =====
-- What the counters of pkg/server/middleware/metrics.go count.
use goupter.Prelude.{
  ℕ, suc, nat_key, String, ◌≡◌, refl, ap, ◌∙◌, ◌+◌, ◌^◌, ◌<◌, Bool, true, not, ◌&&◌, none, some,
  List, [], ◌∷◌, ◌==◌, Key, string_key, length, All, if◌then◌else◌, arith, Bool-cases, inl, inr,
}
use goupter.Prelude.Dict.{lookup}
use goupter.Prelude.Int.{ℤ, pos, negsuc, ◌≤ℤ◌, int_key, ◌+ℤ◌, ◌-ℤ◌, ltb_ℤ, leb_ℤ}
use goupter.Prelude.Word64.{add64, Fits64, add64_of_Fits64}
use goupter.Metrics.Requests.{
  RequestMetrics, new_request_metrics, bump, milliseconds, get_latency_bucket, is_success,
  record_request,
}

pub record Request : Type 0 where
  pub status : ℤ
  pub method : String
  pub latency : ℤ
  pub at : ℤ

pub record_all : List Request → RequestMetrics → RequestMetrics
record_all [] m = m
record_all (r ∷ rs) m = record_all rs (record_request m r.status r.method r.latency r.at)

pub count : (Request → Bool) → List Request → ℕ
count p [] = 0
count p (r ∷ rs) = if p r then suc (count p rs) else count p rs

-- `counts[key]`
abbrev pub count_at : {K : Type 0} → ⦃key : Key K⦄ → K → List (K × ℤ) → ℤ
count_at k counts = elim (lookup k counts) [ none ↦ pos 0 | some n ↦ n ]

add64_one : (a : ℕ) → suc a < 2 ^ 63 → add64 (pos a) (pos 1) ≡ pos (suc a)
unfolding ◌+ℤ◌
add64_one a h = add64_of_Fits64 (pos a) (pos 1) (fits h) ∙ ground arith
  where
    fits : suc a < 2 ^ 63 → Fits64 (pos a +ℤ pos 1)
    fits h = ground arith

count_at-bump :
    {K : Type 0} ⦃key : Key K⦄ (j k : K) (counts : List (K × ℤ))
    → count_at k (bump j counts)
      ≡ (if j == k then add64 (count_at k counts) (pos 1) else count_at k counts)
unfolding bump lookup
count_at-bump ⦃key⦄ j k [] = ground (arith, add64_one 0 (omega arith))
count_at-bump ⦃key⦄ j k ((i, n) ∷ counts) =
    ground (arith, key.same_iff i j, key.same_iff j k, key.same_iff i k, count_at-bump j k counts)

-- A counter that goes up by one for the requests that pass a test.
counter :
    (f : RequestMetrics → ℤ) (p : Request → Bool)
    → ((m : RequestMetrics) (r : Request)
        → f (record_request m r.status r.method r.latency r.at)
          ≡ (if p r then add64 (f m) (pos 1) else f m))
    → (rs : List Request) (m : RequestMetrics) (a : ℕ) → f m ≡ pos a
    → a + length rs < 2 ^ 63
    → f (record_all rs m) ≡ pos (a + count p rs)
unfolding record_all count
counter f p step [] m a e h = e ∙ ground arith
counter f p step (r ∷ rs) m a e h = elim (Bool-cases (p r)) [
  | inl t ↦ rw t (
      counter f p step rs next (suc a) (step m r ∙ rw (t, e) (add64_one a (omega arith)))
        (omega arith)
      ∙ ground arith)
  | inr t ↦ rw t (counter f p step rs next a (step m r ∙ rw (t, e) refl) (omega arith))
]
  where
    next : RequestMetrics
    next = record_request m r.status r.method r.latency r.at

counted :
    (f : RequestMetrics → ℤ) (p : Request → Bool)
    → ((m : RequestMetrics) (r : Request)
        → f (record_request m r.status r.method r.latency r.at)
          ≡ (if p r then add64 (f m) (pos 1) else f m))
    → (rs : List Request) (m : RequestMetrics) → f m ≡ pos 0
    → length rs < 2 ^ 63
    → f (record_all rs m) ≡ pos (count p rs)
counted f p step rs m e h = counter f p step rs m 0 e (omega arith) ∙ ap pos (omega arith)

-- The ranges of latencies that are told apart, with their names in the counts and their bounds in
-- nanoseconds; a negative latency is in the first.
pub data LatencyRange : Type 0 where
  below_10ms from_10ms from_50ms from_100ms from_500ms from_1s : LatencyRange

unfoldable pub range_name : LatencyRange → String
range_name below_10ms = "<10ms"
range_name from_10ms = "10-50ms"
range_name from_50ms = "50-100ms"
range_name from_100ms = "100-500ms"
range_name from_500ms = "500ms-1s"
range_name from_1s = ">1s"

unfoldable pub is_in : LatencyRange → ℤ → Bool
is_in below_10ms l = ltb_ℤ l (pos 10000000)
is_in from_10ms l = leb_ℤ (pos 10000000) l && ltb_ℤ l (pos 50000000)
is_in from_50ms l = leb_ℤ (pos 50000000) l && ltb_ℤ l (pos 100000000)
is_in from_100ms l = leb_ℤ (pos 100000000) l && ltb_ℤ l (pos 500000000)
is_in from_500ms l = leb_ℤ (pos 500000000) l && ltb_ℤ l (pos 1000000000)
is_in from_1s l = leb_ℤ (pos 1000000000) l

-- The place of a range in the order of the ranges, and the range of a latency.
position : LatencyRange → ℕ
position below_10ms = 0
position from_10ms = 1
position from_50ms = 2
position from_100ms = 3
position from_500ms = 4
position from_1s = 5

range_of : ℤ → LatencyRange
range_of l =
    if ltb_ℤ l (pos 10000000)
    then below_10ms
    else if ltb_ℤ l (pos 50000000)
    then from_10ms
    else if ltb_ℤ l (pos 100000000)
    then from_50ms
    else if ltb_ℤ l (pos 500000000)
    then from_100ms
    else if ltb_ℤ l (pos 1000000000)
    then from_500ms
    else from_1s

range_name_differs :
    (a b : LatencyRange) → (range_name a == range_name b) ≡ (position a == position b)
unfolding range_name position
range_name_differs below_10ms below_10ms = refl
range_name_differs below_10ms b = refl
range_name_differs from_10ms below_10ms = refl
range_name_differs from_10ms b = refl
range_name_differs from_50ms below_10ms = refl
range_name_differs from_50ms b = refl
range_name_differs from_100ms below_10ms = refl
range_name_differs from_100ms b = refl
range_name_differs from_500ms below_10ms = refl
range_name_differs from_500ms b = refl
range_name_differs from_1s below_10ms = refl
range_name_differs from_1s b = refl

bucket-range_of : (l : ℤ) → get_latency_bucket l ≡ range_name (range_of l)
unfolding get_latency_bucket milliseconds range_name range_of ◌-ℤ◌
bucket-range_of (pos n) = ground arith
bucket-range_of (negsuc n) = ground arith

range_of-is_in :
    (range : LatencyRange) (l : ℤ) → (position (range_of l) == position range) ≡ is_in range l
unfolding position range_of is_in
range_of-is_in below_10ms l = ground arith
range_of-is_in range l = ground arith

bucket-is_in :
    (range : LatencyRange) (l : ℤ) → (get_latency_bucket l == range_name range) ≡ is_in range l
bucket-is_in range l =
    ap (λ (name : String). name == range_name range) (bucket-range_of l)
    ∙ (range_name_differs (range_of l) range ∙ range_of-is_in range l)

-- The status is one from 200 to 399.
abbrev pub has_succeeded : Request → Bool
has_succeeded r = leb_ℤ (pos 200) r.status && leb_ℤ r.status (pos 399)

is_success-has_succeeded : (r : Request) → is_success r.status ≡ has_succeeded r
unfolding is_success
is_success-has_succeeded r = ground arith

-- Fewer than 2 ^ 63 requests are counted exactly, from a new set of metrics on: there are as many requests in
-- all as were recorded, as many successes as have a status from 200 to 399, as many failures as have
-- another, and under each status, each method and each range of latencies as many as have it.
pub record_all-count :
    (rs : List Request) (now : ℤ) (status : ℤ) (method : String) (range : LatencyRange)
    → length rs < 2 ^ 63
    → let m = record_all rs (new_request_metrics now) in
      (m.total_requests ≡ pos (length rs))
      × (m.success_requests ≡ pos (count has_succeeded rs))
      × (m.failed_requests ≡ pos (count (λ r. not (has_succeeded r)) rs))
      × (count_at status m.status_code_counts ≡ pos (count (λ r. r.status == status) rs))
      × (count_at method m.method_counts ≡ pos (count (λ r. r.method == method) rs))
      × (count_at (range_name range) m.latency_buckets
          ≡ pos (count (λ r. is_in range r.latency) rs))
unfolding new_request_metrics record_request lookup count
record_all-count rs now status method range h =
    let m = new_request_metrics now in
    (
      counted (λ m. m.total_requests) (λ r. true) (λ m r. refl) rs m refl h ∙ ap pos (all rs),
      counted (λ m. m.success_requests) has_succeeded (λ m r. rw (is_success-has_succeeded r) refl)
          rs m refl h,
      counted (λ m. m.failed_requests) (λ r. not (has_succeeded r))
          (λ m r. ground (arith, is_success-has_succeeded r)) rs m refl h,
      counted (λ m. count_at status m.status_code_counts) (λ r. r.status == status)
          (λ m r. count_at-bump r.status status m.status_code_counts) rs m refl h,
      counted (λ m. count_at method m.method_counts) (λ r. r.method == method)
          (λ m r. count_at-bump r.method method m.method_counts) rs m refl h,
      counted (λ m. count_at (range_name range) m.latency_buckets) (λ r. is_in range r.latency)
          (λ m r.
            count_at-bump (get_latency_bucket r.latency) (range_name range) m.latency_buckets
            ∙ rw (bucket-is_in range r.latency) refl)
          rs m refl h,
    )
  where
    all : (rs : List Request) → count (λ r. true) rs ≡ length rs
    all [] = refl
    all (r ∷ rs) = ap suc (all rs)

-- The latencies of the metrics bound one.
abbrev pub Bounds : RequestMetrics → ℤ → Type 0
Bounds m latency = (m.min_latency ≤ℤ latency) × (latency ≤ℤ m.max_latency)

stays_bounded :
    (rs : List Request) (m : RequestMetrics) (latency : ℤ)
    → Bounds m latency
    → Bounds (record_all rs m) latency
unfolding record_all record_request
stays_bounded [] m latency h = h
stays_bounded (r ∷ rs) m latency h =
    stays_bounded rs (record_request m r.status r.method r.latency r.at) latency (ground arith)

-- Whatever was recorded before, every latency recorded lies between the least and the greatest that the
-- metrics hold in the end.
pub record_all-Bounds :
    (rs : List Request) (m : RequestMetrics) → All (λ r. Bounds (record_all rs m) r.latency) rs
unfolding record_all record_request
record_all-Bounds [] m = tt
record_all-Bounds (r ∷ rs) m =
    let next = record_request m r.status r.method r.latency r.at in
    (stays_bounded rs next r.latency (ground arith), record_all-Bounds rs next)
