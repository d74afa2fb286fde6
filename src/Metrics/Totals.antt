-- ===== src/Metrics/Totals.antt =====
-- src/Metrics.cpp: the rate and the total.
use my_rpc_project.Base.{ℕ, ◌+◌, ◌%◌, ◌^◌, ◌≡◌, refl, Bool, List, [], ◌∷◌, arith}
use my_rpc_project.Metrics.{
  Metrics, new_metrics, mark_request, observe_latency, observe_status, set_active_connections,
  set_task_queue_depth, render_prometheus_and_rotate,
}

pub data Event (D : Type 0) : Type 0 where
  marks : (n : ℕ) → Event D
  sees_latency : (v : D) → Event D
  sees_status : (status : ℕ) → Event D
  sets_active : (n : ℕ) → Event D
  sets_queue : (n : ℕ) → Event D
  rotates : Event D

module _ {D : Type 0} (below : D → D → Bool) (add : D → D → D) where
  -- The sum of the rates that are written, and the counters.
  unfoldable pub run : Metrics D → List (Event D) → ℕ × Metrics D
  run m [] = (0, m)
  run m (marks n ∷ es) = run (mark_request below add m n) es
  run m (sees_latency v ∷ es) = run (observe_latency below add m v) es
  run m (sees_status status ∷ es) = run (observe_status below add m status) es
  run m (sets_active n ∷ es) = run (set_active_connections below add m n) es
  run m (sets_queue n ∷ es) = run (set_task_queue_depth below add m n) es
  run m (rotates ∷ es) =
      let (rates, rotated) = render_prometheus_and_rotate below add m in
      let (written, last) = run rotated es in (rates.qps + written, last)

  -- How many requests the events mark.
  unfoldable pub marked : List (Event D) → ℕ
  marked [] = 0
  marked (marks n ∷ es) = n + marked es
  marked (_ ∷ es) = marked es

  observe_status_lem :
      (m : Metrics D) (status : ℕ)
      → let seen = observe_status below add m status in
        (seen.total_requests ≡ m.total_requests)
        × (seen.requests_in_current_second ≡ m.requests_in_current_second)
  unfolding observe_status
  observe_status_lem m status = ground arith

  run-rates :
      (m : Metrics D) (es : List (Event D)) (seen : ℕ)
      → m.total_requests ≡ (seen + m.requests_in_current_second) % 2 ^ 64
      → let (written, last) = run m es in
        (last.total_requests ≡ (seen + written + last.requests_in_current_second) % 2 ^ 64)
        × (last.total_requests ≡ (m.total_requests + marked es) % 2 ^ 64)
  unfolding run marked mark_request observe_latency set_active_connections set_task_queue_depth
      render_prometheus_and_rotate
  run-rates m [] seen e = (omega arith, omega arith)
  run-rates m (marks n ∷ es) seen e =
      let r = run-rates (mark_request below add m n) es seen (omega arith) in
      (r.0, omega (arith, r.1))
  run-rates m (sees_latency v ∷ es) seen e = run-rates (observe_latency below add m v) es seen e
  run-rates m (sees_status status ∷ es) seen e =
      let (total, current) = observe_status_lem m status in
      let r = run-rates (observe_status below add m status) es seen (omega arith) in
      (r.0, omega (arith, r.1))
  run-rates m (sets_active n ∷ es) seen e =
      run-rates (set_active_connections below add m n) es seen e
  run-rates m (sets_queue n ∷ es) seen e = run-rates (set_task_queue_depth below add m n) es seen e
  run-rates m (rotates ∷ es) seen e =
      let rotated = record m { requests_in_current_second = 0 } in
      let r = run-rates rotated es (seen + m.requests_in_current_second) (omega arith) in
      (omega (arith, r.0), r.1)

  -- Over any events of new metrics: the rates that have been written and the requests of the current
  -- second add up to the total, and the total is the number of requests that have been marked, each up
  -- to 2^64, so that no request is lost or counted twice when the counter is rotated.
  pub run-total :
      (zero_ms : D) (bounds : List D) (es : List (Event D))
      → let (written, last) = run (new_metrics zero_ms bounds) es in
        (last.total_requests ≡ (written + last.requests_in_current_second) % 2 ^ 64)
        × (last.total_requests ≡ marked es % 2 ^ 64)
  run-total zero_ms bounds es = omega (arith, run-rates (new_metrics zero_ms bounds) es 0 refl)
