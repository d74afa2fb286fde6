-- ===== src/CircuitBreaker/Tests.antt =====
-- Runs of the breaker of src/CircuitBreaker.cpp.
use my_rpc_project.Base.{ℕ, ◌*◌, ◌≤◌, ◌≡◌, refl, Bool, List, [], ◌∷◌, ltb, arith}
use my_rpc_project.CircuitBreaker.{CircuitBreaker, State, new_breaker}
use my_rpc_project.CircuitBreaker.Probes.{
  Event, asks, succeeds, fails, passed, run, run-open, run-one_probe,
}
use my_rpc_project.CircuitBreaker.Isolation.{IsIsolation, run-IsIsolation}

-- More than half of the requests fail.
abbrev over_half : ℕ → ℕ → Bool
over_half errors total = ltb total (errors * 2)

abbrev opened : CircuitBreaker
opened = record (new_breaker 5 10000) { state = State.open_circuit; opened_at = 700 }

abbrev early : List Event
early = asks 720 ∷ fails 730 ∷ succeeds 740 ∷ asks 799 ∷ []

abbrev requests : List Event
requests = asks 720 ∷ asks 800 ∷ asks 801 ∷ asks 5000 ∷ []

run-open_example :
    (passed (run over_half opened early).0 ≡ 0)
    × ((run over_half opened early).1.state ≡ State.open_circuit)
run-open_example =
    run-open over_half opened early refl
      (omega arith, (omega arith, (omega arith, (omega arith, tt))))

run-one_probe_example : passed (run over_half opened requests).0 ≤ 1
run-one_probe_example = run-one_probe over_half opened requests refl (tt, (tt, (tt, (tt, tt))))

run-IsIsolation_example : IsIsolation (run over_half (new_breaker 1 10000) early).1
run-IsIsolation_example = run-IsIsolation over_half 1 10000 early
