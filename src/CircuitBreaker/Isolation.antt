-- ===== src/CircuitBreaker/Isolation.antt =====
-- src/CircuitBreaker.cpp: the bounds of the isolation, and results that are counted.
use my_rpc_project.Base.{
  ℕ, ◌-◌, ◌≤◌, Bool, true, false, List, [], ◌∷◌, leb, inl, inr, Bool-cases, if_elim, arith,
}
use my_rpc_project.CircuitBreaker.{
  CircuitBreaker, State, Bucket, new_breaker, k_max_isolation, roll_window, record_outcome, trips,
  decide, allow_request, on_success, on_error,
}
use my_rpc_project.CircuitBreaker.Probes.{
  Event, asks, succeeds, fails, answer, run, record_outcome-keeps,
}

-- The isolation is in its bounds.
pub record IsIsolation (c : CircuitBreaker) : Type 0 where
  pub at_least : 100 ≤ c.last_isolation
  pub at_most : c.last_isolation ≤ k_max_isolation

other_buckets :
    (c : CircuitBreaker) (bs : List Bucket)
    → IsIsolation c
    → IsIsolation (record c { buckets = bs })
other_buckets c bs k = record { at_least = k.at_least; at_most = k.at_most }

-- A property of what each state leads to.
state_elim :
    (P : CircuitBreaker → Type 0) (s : State) {x y z : CircuitBreaker}
    → P x
    → P y
    → P z
    → P (elim s [ State.closed ↦ x | State.open_circuit ↦ y | State.half_open ↦ z ])
state_elim P State.closed p q r = p
state_elim P State.open_circuit p q r = q
state_elim P State.half_open p q r = r

recorded :
    (c : CircuitBreaker) (error : Bool) (now : ℕ)
    → IsIsolation c
    → IsIsolation (record_outcome c error now)
recorded = record_outcome-keeps IsIsolation other_buckets

on_success-IsIsolation :
    (c : CircuitBreaker) (now : ℕ) → IsIsolation c → IsIsolation (on_success c now)
unfolding on_success roll_window
on_success-IsIsolation c now k =
    let d = other_buckets c (roll_window c now).buckets k in
    state_elim IsIsolation c.state (recorded (roll_window c now) false now d)
      (recorded (roll_window c now) false now d)
      (record { at_least = omega arith; at_most = omega arith })

on_error-IsIsolation : (c : CircuitBreaker) (now : ℕ) → IsIsolation c → IsIsolation (on_error c now)
unfolding on_error roll_window
on_error-IsIsolation c now k =
    let d = other_buckets c (roll_window c now).buckets k in
    state_elim IsIsolation c.state (recorded (roll_window c now) true now d)
      (recorded (roll_window c now) true now d)
      (record { at_least = omega (arith, k.at_least); at_most = omega arith })

module _ (over_threshold : ℕ → ℕ → Bool) where
  answer-IsIsolation :
      (c : CircuitBreaker) (e : Event) → IsIsolation c → IsIsolation (answer over_threshold c e).1
  unfolding answer allow_request roll_window decide
  answer-IsIsolation c (succeeds now) k = on_success-IsIsolation c now k
  answer-IsIsolation c (fails now) k = on_error-IsIsolation c now k
  answer-IsIsolation c (asks now) k = asked c.state (roll_window c now) (other_buckets c _ k)
    where
      asked :
          (s : State) (d : CircuitBreaker)
          → IsIsolation d
          → IsIsolation (decide over_threshold d s now).1
      asked State.closed d i =
          if_elim IsIsolation (trips over_threshold d)
            (record { at_least = i.at_least; at_most = i.at_most }) i
      asked State.open_circuit d i = elim (Bool-cases (leb d.last_isolation (now - d.opened_at))) [
        | inl over ↦ rw (over, decide) (record { at_least = i.at_least; at_most = i.at_most })
        | inr shut ↦ rw (shut, decide) i
      ]
      asked State.half_open d i = i

  run-keeps :
      (c : CircuitBreaker) (es : List Event)
      → IsIsolation c
      → IsIsolation (run over_threshold c es).1
  unfolding run
  run-keeps c [] k = k
  run-keeps c (e ∷ es) k = run-keeps (answer over_threshold c e).1 es (answer-IsIsolation c e k)

  -- Over any requests and results of a new breaker, the isolation stays between 100 ms and 30 s.
  pub run-IsIsolation :
      (min_request_amount window_ms : ℕ) (es : List Event)
      → IsIsolation (run over_threshold (new_breaker min_request_amount window_ms) es).1
  run-IsIsolation min_request_amount window_ms es =
      run-keeps (new_breaker min_request_amount window_ms) es
        (record { at_least = omega arith; at_most = omega arith })
