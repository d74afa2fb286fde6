-- ===== src/LoadBalancer.antt =====
-- include/LoadBalancer.h and src/LoadBalancer.cpp: the balancers by two choices and by weighted
-- rounds. `double` is a type `D` with the operations `Double` that the code uses, a parameter; a
-- random draw, an index below the number of healthy instances, is an argument.
pub mod Picks
pub mod Ring
mod Tests
use my_rpc_project.Base.{
  ℕ, zero, suc, ◌+◌, Bool, true, false, List, [], ◌∷◌, map, Option, none, some, length, get_elem?,
  get_or, set, replicate, ◌==◌, if◌then◌else◌,
}

pub record Double (D : Type 0) : Type 0 where
  pub zero_weight : D
  pub one : D
  pub add : D → D → D
  pub subtract : D → D → D
  pub multiply : D → D → D
  pub divide : D → D → D
  pub above : D → D → Bool
  pub at_most : D → D → Bool
  pub of_size : ℕ → D

pub record InstanceState (D : Type 0) : Type 0 where
  pub healthy : Bool
  pub inflight : ℕ
  pub latency_ema_ms : D
  pub weight : D

module _ {D : Type 0} where
  -- The indices of the healthy instances, from an index on.
  unfoldable pub healthy_from : ℕ → List (InstanceState D) → List ℕ
  healthy_from i [] = []
  healthy_from i (s ∷ ss) =
      if s.healthy then i ∷ healthy_from (suc i) ss else healthy_from (suc i) ss

  unfoldable pub healthy_indices : List (InstanceState D) → List ℕ
  healthy_indices states = healthy_from 0 states

module _ {D : Type 0} (ops : Double D) where
  unfoldable pub score : InstanceState D → D
  score s =
      let w = if ops.above s.weight ops.zero_weight then s.weight else ops.one in
      ops.divide (ops.multiply s.latency_ema_ms (ops.add (ops.of_size s.inflight) ops.one)) w

  -- `none`: an access out of range.
  unfoldable pub choose : List (InstanceState D) → Option ℕ → Option ℕ → Option ℕ
  choose states none b = none
  choose states (some i) none = none
  choose states (some i) (some j) = elim (get_elem? states i) [
    | none ↦ none
    | some s ↦ elim (get_elem? states j) [
      | none ↦ none
      | some t ↦ some (if ops.at_most (score s) (score t) then i else j)
    ]
  ]

  unfoldable pub p2c_of : List (InstanceState D) → List ℕ → ℕ → ℕ → Option ℕ
  p2c_of states [] x y = some (length states)
  p2c_of states (i ∷ []) x y = some i
  p2c_of states (i ∷ j ∷ more) x y =
      choose states (get_elem? (i ∷ j ∷ more) x) (get_elem? (i ∷ j ∷ more) y)

  -- `P2cBalancer::pick`, with its two draws.
  unfoldable pub p2c_pick : List (InstanceState D) → ℕ → ℕ → Option ℕ
  p2c_pick states x y = p2c_of states (healthy_indices states) x y

module _ {D : Type 0} (ops : Double D) where
  unfoldable pub weight_at : List (InstanceState D) → ℕ → D
  weight_at states i = elim (get_elem? states i) [ none ↦ ops.zero_weight | some s ↦ s.weight ]

  unfoldable pub total_of : D → List D → D
  total_of total [] = total
  total_of total (w ∷ ws) = total_of (ops.add total w) ws

  -- The second loop: the current weights grow, and the largest one is kept in mind.
  unfoldable pub grow : List D → ℕ → ℕ → List D → List D × ℕ
  grow current best i [] = (current, best)
  grow current best i (w ∷ ws) =
      let grown = set current i (ops.add (get_or current i ops.zero_weight) w) in
      grow grown
        (if ops.above (get_or grown i ops.zero_weight) (get_or grown best ops.zero_weight)
          then i
          else best)
        (suc i) ws

  unfoldable pub wrr_of : List D → List (InstanceState D) → List ℕ → ℕ × List D
  wrr_of current states [] = (length states, current)
  wrr_of current states (h ∷ hs) =
      let healthy = h ∷ hs in
      let n = length healthy in
      let weights = map (weight_at states) healthy in
      let total = total_of ops.zero_weight weights in
      let (grown, best) =
        grow (if length current == n then current else replicate n ops.zero_weight) 0 0 weights in
      (
        get_or healthy best (length states),
        set grown best (ops.subtract (get_or grown best ops.zero_weight) total),
      )

  -- `WeightedRoundRobinBalancer::pick`: the index, and the current weights.
  unfoldable pub wrr_pick : List D → List (InstanceState D) → ℕ × List D
  wrr_pick current states = wrr_of current states (healthy_indices states)
