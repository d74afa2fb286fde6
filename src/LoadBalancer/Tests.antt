-- ===== src/LoadBalancer/Tests.antt =====
-- Picks of src/LoadBalancer.cpp, with natural numbers for `double`.
use my_rpc_project.Base.{
  ℕ, ◌+◌, ◌-◌, ◌*◌, ◌/◌, ◌≡◌, refl, Bool, true, false, List, [], ◌∷◌, some, leb, ltb, arith,
}
use my_rpc_project.LoadBalancer.{
  Double, score, InstanceState, healthy_from, healthy_indices, choose, p2c_of, p2c_pick, weight_at,
  total_of, grow, wrr_of, wrr_pick,
}
use my_rpc_project.LoadBalancer.Ring.{new_ring, ring_pick, balancers-IsPick, ring_pick-again}
use my_rpc_project.LoadBalancer.Picks.{IsPick}

abbrev instance_of : Bool → ℕ → ℕ → InstanceState ℕ
instance_of healthy inflight weight = record {
  healthy = healthy;
  inflight = inflight;
  latency_ema_ms = 10;
  weight = weight;
}

abbrev states : List (InstanceState ℕ)
states = instance_of false 0 9 ∷ instance_of true 4 1 ∷ instance_of true 2 3 ∷ []

abbrev numbers : Double ℕ
numbers = record {
  zero_weight = 0;
  one = 1;
  add = ◌+◌;
  subtract = ◌-◌;
  multiply = ◌*◌;
  divide = ◌/◌;
  above = λ x y. ltb y x;
  at_most = leb;
  of_size = λ n. n;
}

p2c_pick_test : p2c_pick numbers states 0 1 ≡ some 2
unfolding p2c_pick p2c_of choose score healthy_indices healthy_from
p2c_pick_test = refl

wrr_pick_test : wrr_pick numbers [] states ≡ (2, 1 ∷ 0 ∷ [])
unfolding wrr_pick wrr_of grow weight_at total_of healthy_indices healthy_from
wrr_pick_test = refl

balancers-IsPick_example :
    ((m : ℕ) × ((p2c_pick numbers states 0 1 ≡ some m) × IsPick states m))
    × IsPick states (wrr_pick numbers [] states).0
    × IsPick states (ring_pick (new_ring 2) states 77).0
unfolding healthy_from
balancers-IsPick_example =
    balancers-IsPick numbers states 0 1 [] (new_ring 2) 77
      (λ some_healthy. unfold healthy_indices in (omega arith, omega arith)) refl (λ e. grind arith)

-- The instances after the last two have failed.
abbrev later : List (InstanceState ℕ)
later = instance_of true 0 9 ∷ instance_of false 4 1 ∷ instance_of false 2 3 ∷ []

ring_pick-again_example :
    (ring_pick (ring_pick (new_ring 2) states 77).1 later 77).0
    ≡ (ring_pick (new_ring 2) states 77).0
ring_pick-again_example = ring_pick-again (new_ring 2) states later 77 refl
