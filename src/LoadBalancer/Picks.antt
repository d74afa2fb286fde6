-- ===== src/LoadBalancer/Picks.antt =====
-- src/LoadBalancer.cpp: what the balancers pick.
use my_rpc_project.Base.{
  ℕ, zero, suc, ◌+◌, ◌<◌, ◌≡◌, ◌⊎◌, inl, inr, ◌≢◌, refl, ap, ap₂, subst, ◌∙◌, Bool, true, false,
  List, [], ◌∷◌, map, All, some, length, get_elem?, get_or, set, replicate, ◌==◌, if◌then◌else◌,
  Bool-cases, arith,
}
use my_rpc_project.LoadBalancer.{
  Double, score, InstanceState, healthy_from, healthy_indices, choose, p2c_of, p2c_pick, weight_at,
  grow, wrr_of, wrr_pick,
}

All-if :
    (P : ℕ → Type 0) (b : Bool) (i : ℕ) (is : List ℕ)
    → (b ≡ true → P i)
    → All P is
    → All P (if b then i ∷ is else is)
All-if P true i is p a = (p refl, a)
All-if P false i is p a = a

All-get_elem? :
    (P : ℕ → Type 0) (is : List ℕ) (x : ℕ)
    → All P is
    → x < length is
    → (i : ℕ) × ((get_elem? is x ≡ some i) × P i)
All-get_elem? P [] x a h = absurd (omega arith)
All-get_elem? P (i ∷ is) zero a h = (i, (refl, a.0))
All-get_elem? P (i ∷ is) (suc x) a h = All-get_elem? P is x a.1 (omega arith)

get_or-healthy :
    (P : ℕ → Type 0) (is : List ℕ) (x d : ℕ) → All P is → x < length is → P (get_or is x d)
get_or-healthy P [] x d a h = absurd (omega arith)
get_or-healthy P (i ∷ is) zero d a h = a.0
get_or-healthy P (i ∷ is) (suc x) d a h = get_or-healthy P is x d a.1 (omega arith)

module _ {D : Type 0} where
  -- An index of a healthy instance.
  abbrev pub IsHealthyAt : List (InstanceState D) → ℕ → Type 0
  IsHealthyAt states i =
      (s : InstanceState D) × ((get_elem? states i ≡ some s) × (s.healthy ≡ true))

  -- What a pick may be: a healthy instance, or the number of instances where none is healthy.
  abbrev pub IsPick : List (InstanceState D) → ℕ → Type 0
  IsPick states i =
      IsHealthyAt states i ⊎ ((i ≡ length states) × All (λ s. s.healthy ≡ false) states)

  -- The indices that stand for healthy instances of a list that starts at an index.
  abbrev Stands : ℕ → List (InstanceState D) → ℕ → Type 0
  Stands n states i = (k : ℕ) × ((i ≡ n + k) × IsHealthyAt states k)

  All-later :
      (n : ℕ) (s : InstanceState D) (ss : List (InstanceState D)) (is : List ℕ)
      → All (Stands (suc n) ss) is
      → All (Stands n (s ∷ ss)) is
  All-later n s ss [] a = tt
  All-later n s ss (i ∷ is) ((k, (e, h)), a) = ((suc k, (omega arith, h)), All-later n s ss is a)

  healthy_from-Stands :
      (n : ℕ) (states : List (InstanceState D)) → All (Stands n states) (healthy_from n states)
  unfolding healthy_from
  healthy_from-Stands n [] = tt
  healthy_from-Stands n (s ∷ ss) =
      All-if (Stands n (s ∷ ss)) s.healthy n (healthy_from (suc n) ss)
        (λ up. (zero, (omega arith, (s, (refl, up)))))
        (All-later n s ss (healthy_from (suc n) ss) (healthy_from-Stands (suc n) ss))

  healthy_from-nil :
      (n : ℕ) (states : List (InstanceState D))
      → healthy_from n states ≡ []
      → All (λ s. s.healthy ≡ false) states
  unfolding healthy_from
  healthy_from-nil n [] e = tt
  healthy_from-nil n (s ∷ ss) e = elim (Bool-cases s.healthy) [
    | inl up ↦ absurd (grind arith)
    | inr down ↦ (down, healthy_from-nil (suc n) ss (grind arith))
  ]

  pub healthy_indices-IsHealthyAt :
      (states : List (InstanceState D)) → All (IsHealthyAt states) (healthy_indices states)
  unfolding healthy_indices
  healthy_indices-IsHealthyAt states = go (healthy_from 0 states) (healthy_from-Stands 0 states)
    where
      go : (is : List ℕ) → All (Stands 0 states) is → All (IsHealthyAt states) is
      go [] a = tt
      go (i ∷ is) ((k, (e, h)), a) = (subst (IsHealthyAt states) (omega arith) h, go is a)

  pub healthy_indices-nil :
      (states : List (InstanceState D))
      → healthy_indices states ≡ []
      → All (λ s. s.healthy ≡ false) states
  unfolding healthy_indices
  healthy_indices-nil states e = healthy_from-nil 0 states e

module _ {D : Type 0} (ops : Double D) where
  IsHealthyAt-if :
      (states : List (InstanceState D)) (b : Bool) (i j : ℕ)
      → IsHealthyAt states i
      → IsHealthyAt states j
      → IsHealthyAt states (if b then i else j)
  IsHealthyAt-if states true i j p q = p
  IsHealthyAt-if states false i j p q = q

  choose-IsHealthyAt :
      (states : List (InstanceState D)) (i j : ℕ)
      → IsHealthyAt states i
      → IsHealthyAt states j
      → (m : ℕ) × ((choose ops states (some i) (some j) ≡ some m) × IsHealthyAt states m)
  unfolding choose
  choose-IsHealthyAt states i j (s, (e, h)) (t, (f, g)) = (
    if ops.at_most (score ops s) (score ops t) then i else j,
    (
      rw (e, f, choose) refl,
      IsHealthyAt-if states (ops.at_most (score ops s) (score ops t)) i j (s, (e, h)) (t, (f, g)),
    ),
  )

  p2c_of-IsPick :
      (states : List (InstanceState D)) (is : List ℕ) (x y : ℕ)
      → All (IsHealthyAt states) is
      → (is ≡ [] → All (λ s. s.healthy ≡ false) states)
      → (length is ≢ 0 → (x < length is) × (y < length is))
      → (m : ℕ) × ((p2c_of ops states is x y ≡ some m) × IsPick states m)
  unfolding p2c_of
  p2c_of-IsPick states [] x y a down draws = (length states, (refl, inr (refl, down refl)))
  p2c_of-IsPick states (i ∷ []) x y a down draws = (i, (refl, inl a.0))
  p2c_of-IsPick states (i ∷ j ∷ more) x y a down draws =
      let (x_in, y_in) = draws (λ e. omega arith) in
      let (p, (e, hp)) = All-get_elem? (IsHealthyAt states) (i ∷ j ∷ more) x a x_in in
      let (q, (f, hq)) = All-get_elem? (IsHealthyAt states) (i ∷ j ∷ more) y a y_in in
      let (m, (g, h)) = choose-IsHealthyAt states p q hp hq in
      (m, (ap₂ (choose ops states) e f ∙ g, inl h))

  pub p2c_pick-IsPick :
      (states : List (InstanceState D)) (x y : ℕ)
      → (length (healthy_indices states) ≢ 0
          → (x < length (healthy_indices states)) × (y < length (healthy_indices states)))
      → (m : ℕ) × ((p2c_pick ops states x y ≡ some m) × IsPick states m)
  unfolding p2c_pick
  p2c_pick-IsPick states x y draws =
      p2c_of-IsPick states (healthy_indices states) x y (healthy_indices-IsHealthyAt states)
        (healthy_indices-nil states) draws

module _ {D : Type 0} (ops : Double D) where
  grow-best :
      (current : List D) (best i : ℕ) (ws : List D)
      → best < i + length ws
      → (grow ops current best i ws).1 < i + length ws
  unfolding grow
  grow-best current best i [] h = h
  grow-best current best i (w ∷ ws) h =
      let grown = set current i (ops.add (get_or current i ops.zero_weight) w) in
      omega (
        arith,
        grow-best grown
            (if ops.above (get_or grown i ops.zero_weight) (get_or grown best ops.zero_weight)
              then i
              else best)
            (suc i) ws (ground arith),
      )

  length-map : (f : ℕ → D) (is : List ℕ) → length (map f is) ≡ length is
  length-map f [] = refl
  length-map f (i ∷ is) = ap suc (length-map f is)

  wrr_of-IsPick :
      (current : List D) (states : List (InstanceState D)) (is : List ℕ)
      → All (IsHealthyAt states) is
      → (is ≡ [] → All (λ s. s.healthy ≡ false) states)
      → IsPick states (wrr_of ops current states is).0
  unfolding wrr_of
  wrr_of-IsPick current states [] a down = inr (refl, down refl)
  wrr_of-IsPick current states (i ∷ is) a down =
      let weights = map (weight_at ops states) (i ∷ is) in
      let start =
        if length current == length (i ∷ is)
        then current
        else replicate (length (i ∷ is)) ops.zero_weight in
      inl (
        get_or-healthy (IsHealthyAt states) (i ∷ is) (grow ops start 0 0 weights).1 (length states)
          a
          (omega (
            arith,
            grow-best start 0 0 weights (omega arith),
            length-map (weight_at ops states) is,
          )))

  pub wrr_pick-IsPick :
      (current : List D) (states : List (InstanceState D))
      → IsPick states (wrr_pick ops current states).0
  unfolding wrr_pick
  wrr_pick-IsPick current states =
      wrr_of-IsPick current states (healthy_indices states) (healthy_indices-IsHealthyAt states)
        (healthy_indices-nil states)
