-- ===== src/Histogram.antt =====
-- include/Histogram.h and src/Histogram.cpp. `double` is a type `D`; its order and its sum are
-- parameters. The counters are 64 bits wide.
pub mod Buckets
mod Tests
use my_rpc_project.Base.{
  ℕ, zero, suc, ◌+◌, ◌%◌, ◌^◌, Bool, true, false, List, [], ◌∷◌, length, replicate, if◌then◌else◌,
}

pub record Histogram (D : Type 0) : Type 0 where
  pub bounds : List D
  pub counts : List ℕ
  pub count : ℕ
  pub sum_ms : D

abbrev pub new_histogram : {D : Type 0} → D → List D → Histogram D
new_histogram zero_ms bounds = record {
  bounds = bounds;
  counts = replicate (suc (length bounds)) 0;
  count = 0;
  sum_ms = zero_ms;
}

-- `counts_[i]++`.
unfoldable pub increment : ℕ → List ℕ → List ℕ
increment i [] = []
increment zero (c ∷ cs) = (c + 1) % 2 ^ 64 ∷ cs
increment (suc i) (c ∷ cs) = c ∷ increment i cs

-- What `renderPrometheus` writes for each bound, and for +Inf: the counts so far.
unfoldable pub cumulate : {D : Type 0} → ℕ → List D → List ℕ → List (D × ℕ) × ℕ
cumulate sum bounds [] = ([], sum)
cumulate sum [] (c ∷ cs) = ([], (sum + c) % 2 ^ 64)
cumulate sum (b ∷ bs) (c ∷ cs) =
    let n = (sum + c) % 2 ^ 64 in let (lines, last) = cumulate n bs cs in ((b, n) ∷ lines, last)

unfoldable pub render : {D : Type 0} → Histogram D → List (D × ℕ) × ℕ
render h = cumulate 0 h.bounds h.counts

module _ {D : Type 0} (below : D → D → Bool) (add : D → D → D) where
  -- `std::upper_bound`, on bounds that increase: the first one that the value is below.
  unfoldable pub upper_bound : D → List D → ℕ
  upper_bound v [] = 0
  upper_bound v (b ∷ bs) = if below v b then 0 else suc (upper_bound v bs)

  unfoldable pub observe : Histogram D → D → Histogram D
  observe h v = record h {
    counts = increment (upper_bound v h.bounds) h.counts;
    count = (h.count + 1) % 2 ^ 64;
    sum_ms = add h.sum_ms v;
  }
