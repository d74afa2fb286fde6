-- ===== src/Metrics/Tests.antt =====
-- A run of the counters of src/Metrics.cpp.
use my_rpc_project.Base.{ℕ, ◌+◌, ◌%◌, ◌^◌, ◌≡◌, List, [], ◌∷◌, ltb}
use my_rpc_project.Metrics.{new_metrics}
use my_rpc_project.Metrics.Totals.{
  Event, marks, sees_latency, sees_status, rotates, run, marked, run-total,
}

abbrev events : List (Event ℕ)
events = marks 3 ∷ sees_status 0 ∷ sees_latency 7 ∷ rotates ∷ marks 2 ∷ []

run-total_example :
    let (written, last) = run ltb ◌+◌ (new_metrics 0 (5 ∷ [])) events in
    (last.total_requests ≡ (written + last.requests_in_current_second) % 2 ^ 64)
    × (last.total_requests ≡ marked ltb ◌+◌ events % 2 ^ 64)
run-total_example = run-total ltb ◌+◌ 0 (5 ∷ []) events
