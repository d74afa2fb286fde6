-- ===== src/Histogram/Tests.antt =====
-- A histogram of src/Histogram.cpp over natural numbers.
use my_rpc_project.Base.{ℕ, ◌+◌, ◌%◌, ◌^◌, ◌≡◌, refl, true, List, [], ◌∷◌, map, ltb, arith}
use my_rpc_project.Histogram.{new_histogram, render, cumulate, observe, increment, upper_bound}
use my_rpc_project.Histogram.Buckets.{IsIncreasing, observe_all, how_many, render-how_many}

abbrev values : List ℕ
values = 5 ∷ 1 ∷ 50 ∷ 10 ∷ 7 ∷ []

-- The value 10 is not in the line of the bound 10.
edges :
    render (observe_all ltb ◌+◌ (new_histogram 0 (5 ∷ 10 ∷ [])) values) ≡ ((5, 1) ∷ (10, 3) ∷ [], 5)
unfolding render cumulate observe_all observe increment upper_bound
edges = refl

bounds-IsIncreasing : IsIncreasing ltb ◌+◌ (5 ∷ 10 ∷ [])
bounds-IsIncreasing = ((later, tt), (tt, tt))
  where
    later : (v : ℕ) → ltb v 5 ≡ true → ltb v 10 ≡ true
    later v h = ground arith

render-how_many_example :
    let h = observe_all ltb ◌+◌ (new_histogram 0 (5 ∷ 10 ∷ [])) values in
    ((render h).0 ≡ map (λ b. (b, how_many ltb ◌+◌ b values % 2 ^ 64)) (5 ∷ 10 ∷ []))
    × ((render h).1 ≡ 5 % 2 ^ 64)
    × (h.count ≡ 5 % 2 ^ 64)
render-how_many_example = render-how_many ltb ◌+◌ 0 (5 ∷ 10 ∷ []) values bounds-IsIncreasing
