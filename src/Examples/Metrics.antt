-- ===== src/Examples/Metrics.antt =====
-- Examples about pkg/server/middleware/metrics.go.
use goupter.Prelude.{◌≡◌, List, [], ◌∷◌, not, ◌==◌, string_key, arith, All}
use goupter.Prelude.Int.{pos, int_key}
use goupter.Metrics.Requests.{RequestMetrics, new_request_metrics}
use goupter.Metrics.Counts.{
  Request, record_all, count, count_at, below_10ms, range_name, is_in, has_succeeded,
  record_all-count, Bounds, record_all-Bounds,
}

abbrev requests : List Request
requests =
    record { status = pos 200; method = "GET"; latency = pos 7000000; at = pos 1 }
    ∷ record { status = pos 500; method = "POST"; latency = pos 70000000; at = pos 2 }
    ∷ record { status = pos 204; method = "GET"; latency = pos 3000000; at = pos 3 }
    ∷ []

abbrev metrics : RequestMetrics
metrics = record_all requests (new_request_metrics (pos 0))

record_all-count_example :
    (metrics.total_requests ≡ pos 3)
    × (metrics.success_requests ≡ pos (count has_succeeded requests))
    × (metrics.failed_requests ≡ pos (count (λ r. not (has_succeeded r)) requests))
    × (count_at (pos 500) metrics.status_code_counts
        ≡ pos (count (λ r. r.status == pos 500) requests))
    × (count_at "GET" metrics.method_counts ≡ pos (count (λ r. r.method == "GET") requests))
    × (count_at (range_name below_10ms) metrics.latency_buckets
        ≡ pos (count (λ r. is_in below_10ms r.latency) requests))
record_all-count_example =
    record_all-count requests (pos 0) (pos 500) "GET" below_10ms (omega arith)

record_all-Bounds_example : All (λ r. Bounds metrics r.latency) requests
record_all-Bounds_example = record_all-Bounds requests (new_request_metrics (pos 0))
