-- ===== src/Metrics/Requests.antt =====
-- `RequestMetrics` of pkg/server/middleware/metrics.go. Every locked method is one step, with its reading of
-- the clock an argument; times and durations are nanoseconds.
use goupter.Prelude.{
  ℕ, zero, suc, String, Bool, ◌&&◌, Option, none, some, List, [], ◌∷◌, ◌/◌, ◌^◌, ◌-◌, ◌==◌, Key,
  string_key, if◌then◌else◌, ◌+◌,
}
use goupter.Prelude.Int.{ℤ, pos, negsuc, ◌-ℤ◌, ltb_ℤ, leb_ℤ, int_key}
use goupter.Prelude.Word64.{add64}

pub record RequestMetrics : Type 0 where
  pub total_requests : ℤ
  pub success_requests : ℤ
  pub failed_requests : ℤ
  pub in_flight_requests : ℤ
  pub total_latency : ℤ
  pub min_latency : ℤ
  pub max_latency : ℤ
  pub status_code_counts : List (ℤ × ℤ)
  pub method_counts : List (String × ℤ)
  pub latency_buckets : List (String × ℤ)
  pub start_time : ℤ
  pub last_time : Option ℤ

-- `time.Duration(1<<63 - 1)`
abbrev pub longest : ℤ
longest = pos (2 ^ 63 - 1)

-- `last_time` is none for the zero time.
unfoldable pub new_request_metrics : ℤ → RequestMetrics
new_request_metrics now = record {
  total_requests = pos 0;
  success_requests = pos 0;
  failed_requests = pos 0;
  in_flight_requests = pos 0;
  total_latency = pos 0;
  min_latency = longest;
  max_latency = pos 0;
  status_code_counts = [];
  method_counts = [];
  latency_buckets = [];
  start_time = now;
  last_time = none;
}

-- `m[key]++`
unfoldable pub bump : {K : Type 0} → ⦃key : Key K⦄ → K → List (K × ℤ) → List (K × ℤ)
bump k [] = (k, pos 1) ∷ []
bump k ((j, n) ∷ counts) = if j == k then (k, add64 n (pos 1)) ∷ counts else (j, n) ∷ bump k counts

-- `latency.Milliseconds()`, which rounds towards zero.
unfoldable pub milliseconds : ℤ → ℤ
milliseconds (pos n) = pos (n / 1000000)
milliseconds (negsuc n) = pos 0 -ℤ pos ((n + 1) / 1000000)

unfoldable pub get_latency_bucket : ℤ → String
unfolding milliseconds
get_latency_bucket latency =
    let ms = milliseconds latency in
    if ltb_ℤ ms (pos 10)
    then "<10ms"
    else if ltb_ℤ ms (pos 50)
    then "10-50ms"
    else if ltb_ℤ ms (pos 100)
    then "50-100ms"
    else if ltb_ℤ ms (pos 500)
    then "100-500ms"
    else if ltb_ℤ ms (pos 1000)
    then "500ms-1s"
    else ">1s"

unfoldable pub is_success : ℤ → Bool
is_success status = leb_ℤ (pos 200) status && ltb_ℤ status (pos 400)

unfoldable pub record_request : RequestMetrics → ℤ → String → ℤ → ℤ → RequestMetrics
unfolding bump get_latency_bucket is_success
record_request m status method latency now = record m {
  total_requests = add64 m.total_requests (pos 1);
  success_requests =
      if is_success status then add64 m.success_requests (pos 1) else m.success_requests;
  failed_requests =
      if is_success status then m.failed_requests else add64 m.failed_requests (pos 1);
  status_code_counts = bump status m.status_code_counts;
  method_counts = bump method m.method_counts;
  total_latency = add64 m.total_latency latency;
  min_latency = if ltb_ℤ latency m.min_latency then latency else m.min_latency;
  max_latency = if ltb_ℤ m.max_latency latency then latency else m.max_latency;
  latency_buckets = bump (get_latency_bucket latency) m.latency_buckets;
  last_time = some now;
}

unfoldable pub incr_in_flight : RequestMetrics → RequestMetrics
incr_in_flight m = record m { in_flight_requests = add64 m.in_flight_requests (pos 1) }

unfoldable pub decr_in_flight : RequestMetrics → RequestMetrics
decr_in_flight m = record m { in_flight_requests = add64 m.in_flight_requests (negsuc 0) }

-- The last time and the number in flight stay.
unfoldable pub reset : RequestMetrics → ℤ → RequestMetrics
reset m now = record m {
  total_requests = pos 0;
  success_requests = pos 0;
  failed_requests = pos 0;
  status_code_counts = [];
  method_counts = [];
  total_latency = pos 0;
  min_latency = longest;
  max_latency = pos 0;
  latency_buckets = [];
  start_time = now;
}

-- What the middleware does around the rest of the chain, which ends or panics. None is no status and
-- latency, those of a panic, which `Record` is not called for.
unfoldable pub after_next : RequestMetrics → Option (ℤ × String × ℤ × ℤ) → RequestMetrics
unfolding record_request decr_in_flight
after_next m none = decr_in_flight m
after_next m (some (status, method, latency, now)) =
    decr_in_flight (record_request m status method latency now)

-- Go's division, which rounds towards zero, by a positive number.
unfoldable pub quotient : ℤ → ℕ → ℤ
quotient (pos a) b = pos (a / b)
quotient (negsuc a) b = pos 0 -ℤ pos ((a + 1) / b)

pub record MetricsSnapshot : Type 0 where
  pub total_requests : ℤ
  pub success_requests : ℤ
  pub failed_requests : ℤ
  pub in_flight_requests : ℤ
  pub avg_latency : ℤ
  pub min_latency : ℤ
  pub max_latency : ℤ
  pub start_time : ℤ
  pub last_time : Option ℤ
  pub status_code_counts : List (ℤ × ℤ)
  pub method_counts : List (String × ℤ)
  pub latency_buckets : List (String × ℤ)

average : ℤ → ℤ → ℤ
unfolding quotient
average total (pos zero) = pos 0
average total (pos (suc n)) = quotient total (suc n)
average total (negsuc n) = pos 0

unfoldable pub get_snapshot : RequestMetrics → MetricsSnapshot
unfolding average
get_snapshot m =
    let some_requests = ltb_ℤ (pos 0) m.total_requests in
    record {
      total_requests = m.total_requests;
      success_requests = m.success_requests;
      failed_requests = m.failed_requests;
      in_flight_requests = m.in_flight_requests;
      avg_latency = average m.total_latency m.total_requests;
      min_latency = if some_requests then m.min_latency else pos 0;
      max_latency = if some_requests then m.max_latency else pos 0;
      start_time = m.start_time;
      last_time = m.last_time;
      status_code_counts = m.status_code_counts;
      method_counts = m.method_counts;
      latency_buckets = m.latency_buckets;
    }
