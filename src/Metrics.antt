-- ===== src/Metrics.antt =====
-- include/Metrics.h and src/Metrics.cpp: the counters, 64 bits wide, and what the renderers write of
-- them, without the text around the numbers.
pub mod Totals
mod Tests
use my_rpc_project.Base.{
  ℕ, zero, suc, ◌+◌, ◌%◌, ◌^◌, Bool, true, false, List, [], ◌∷◌, replicate, ltb, if◌then◌else◌,
}
use my_rpc_project.Histogram.{Histogram, new_histogram, increment, render, observe}

pub record Metrics (D : Type 0) : Type 0 where
  pub total_requests : ℕ
  pub requests_in_current_second : ℕ
  pub active_connections : ℕ
  pub task_queue_depth : ℕ
  pub latency : Histogram D
  pub status_counts : List ℕ

abbrev pub new_metrics : {D : Type 0} → D → List D → Metrics D
new_metrics zero_ms bounds = record {
  total_requests = 0;
  requests_in_current_second = 0;
  active_connections = 0;
  task_queue_depth = 0;
  latency = new_histogram zero_ms bounds;
  status_counts = replicate 16 0;
}

-- The numbers of a line of `renderPrometheusAndRotate`.
pub record Rates : Type 0 where
  pub qps : ℕ
  pub total : ℕ
  pub active : ℕ
  pub queue : ℕ

-- The codes whose counter is not 0, with it.
unfoldable pub statuses : ℕ → List ℕ → List (ℕ × ℕ)
statuses i [] = []
statuses i (n ∷ ns) = if ltb 0 n then (i, n) ∷ statuses (suc i) ns else statuses (suc i) ns

pub record Snapshot (D : Type 0) : Type 0 where
  pub total : ℕ
  pub latency : List (D × ℕ) × ℕ
  pub statuses_seen : List (ℕ × ℕ)
  pub active : ℕ
  pub queue : ℕ

module _ {D : Type 0} (below : D → D → Bool) (add : D → D → D) where
  unfoldable pub mark_request : Metrics D → ℕ → Metrics D
  mark_request m n = record m {
    total_requests = (m.total_requests + n) % 2 ^ 64;
    requests_in_current_second = (m.requests_in_current_second + n) % 2 ^ 64;
  }

  unfoldable pub observe_latency : Metrics D → D → Metrics D
  observe_latency m v = record m { latency = observe below add m.latency v }

  unfoldable pub observe_status : Metrics D → ℕ → Metrics D
  observe_status m status =
      if ltb status 16 then record m { status_counts = increment status m.status_counts } else m

  unfoldable pub set_active_connections : Metrics D → ℕ → Metrics D
  set_active_connections m n = record m { active_connections = n }

  unfoldable pub set_task_queue_depth : Metrics D → ℕ → Metrics D
  set_task_queue_depth m n = record m { task_queue_depth = n }

  unfoldable pub render_prometheus_and_rotate : Metrics D → Rates × Metrics D
  render_prometheus_and_rotate m = (
    record {
      qps = m.requests_in_current_second;
      total = m.total_requests;
      active = m.active_connections;
      queue = m.task_queue_depth;
    },
    record m { requests_in_current_second = 0 },
  )

  unfoldable pub render_snapshot : Metrics D → Snapshot D
  render_snapshot m = record {
    total = m.total_requests;
    latency = render m.latency;
    statuses_seen = statuses 0 m.status_counts;
    active = m.active_connections;
    queue = m.task_queue_depth;
  }
