-- ===== src/CircuitBreaker.antt =====
-- include/CircuitBreaker.h and src/CircuitBreaker.cpp. Times are in milliseconds. The comparison of the
-- error rate with the threshold, which is made in floating point, is the parameter `over_threshold`
-- of the number of errors and the number of requests.
pub mod Probes
pub mod Isolation
mod Tests
use my_rpc_project.Base.{
  ℕ, suc, ◌+◌, ◌-◌, ◌*◌, min, Bool, true, false, ◌&&◌, List, [], ◌∷◌, ◌++◌, ltb, leb, if◌then◌else◌,
}

pub record Bucket : Type 0 where
  pub start : ℕ
  pub requests : ℕ
  pub errors : ℕ

-- `enum class State`.
pub data State : Type 0 where
  closed open_circuit half_open : State

pub record CircuitBreaker : Type 0 where
  pub buckets : List Bucket
  pub state : State
  pub opened_at : ℕ
  pub last_isolation : ℕ
  pub window_ms : ℕ
  pub min_request_amount : ℕ

-- A breaker as its constructor leaves it.
abbrev pub new_breaker : ℕ → ℕ → CircuitBreaker
new_breaker min_request_amount window_ms = record {
  buckets = [];
  state = State.closed;
  opened_at = 0;
  last_isolation = 100;
  window_ms = window_ms;
  min_request_amount = min_request_amount;
}

abbrev pub k_max_isolation : ℕ
k_max_isolation = 30000

-- The requests and the errors of the window.
unfoldable pub tally : List Bucket → ℕ × ℕ
tally [] = (0, 0)
tally (b ∷ bs) = let (total, errors) = tally bs in (b.requests + total, b.errors + errors)

unfoldable pub drop_old : ℕ → ℕ → List Bucket → List Bucket
drop_old window_ms now [] = []
drop_old window_ms now (b ∷ bs) =
    let rest = drop_old window_ms now bs in if leb window_ms (now - b.start) then rest else b ∷ bs

-- Whether there is no bucket, or the last one is at least as old as `age`.
unfoldable pub last_is_old : ℕ → ℕ → List Bucket → Bool
last_is_old age now [] = true
last_is_old age now (b ∷ []) = leb age (now - b.start)
last_is_old age now (b ∷ c ∷ bs) = last_is_old age now (c ∷ bs)

unfoldable pub roll_window : CircuitBreaker → ℕ → CircuitBreaker
roll_window c now =
    let kept = drop_old c.window_ms now c.buckets in
    record c {
      buckets =
          if last_is_old 1000 now kept
          then kept ++ (record { start = now; requests = 0; errors = 0 } ∷ [])
          else kept;
    }

-- One more request in the last bucket.
unfoldable pub count_last : Bool → List Bucket → List Bucket
count_last error [] = []
count_last error (b ∷ []) =
    record {
      start = b.start;
      requests = suc b.requests;
      errors = if error then suc b.errors else b.errors;
    }
    ∷ []
count_last error (b ∷ c ∷ bs) = b ∷ count_last error (c ∷ bs)

-- `record`.
unfoldable pub record_outcome : CircuitBreaker → Bool → ℕ → CircuitBreaker
record_outcome c error now =
    let rolled = if last_is_old c.window_ms now c.buckets then roll_window c now else c in
    record rolled { buckets = count_last error rolled.buckets }

module _ (over_threshold : ℕ → ℕ → Bool) where
  -- Whether the circuit trips.
  unfoldable pub trips : CircuitBreaker → Bool
  trips c =
      let (total, errors) = tally c.buckets in
      leb c.min_request_amount total && over_threshold errors total

  -- `allowRequest`, once the window is rolled.
  unfoldable pub decide : CircuitBreaker → State → ℕ → Bool × CircuitBreaker
  decide c State.closed now =
      (true, if trips c then record c { state = State.open_circuit; opened_at = now } else c)
  decide c State.open_circuit now =
      if leb c.last_isolation (now - c.opened_at)
      then (true, record c { state = State.half_open })
      else (false, c)
  decide c State.half_open now = (false, c)

  unfoldable pub allow_request : CircuitBreaker → ℕ → Bool × CircuitBreaker
  allow_request c now = let rolled = roll_window c now in decide rolled rolled.state now

unfoldable pub on_success : CircuitBreaker → ℕ → CircuitBreaker
on_success c now =
    let rolled = roll_window c now in
    elim rolled.state [
      | State.half_open ↦ record rolled { state = State.closed; buckets = []; last_isolation = 100 }
      | _ ↦ record_outcome rolled false now
    ]

unfoldable pub on_error : CircuitBreaker → ℕ → CircuitBreaker
on_error c now =
    let rolled = roll_window c now in
    elim rolled.state [
      | State.half_open ↦ record rolled {
        state = State.open_circuit;
        opened_at = now;
        last_isolation = min (rolled.last_isolation * 2) k_max_isolation;
      }
      | _ ↦ record_outcome rolled true now
    ]

unfoldable pub is_open : CircuitBreaker → Bool
is_open c = elim c.state [ State.open_circuit ↦ true | _ ↦ false ]

unfoldable pub is_available : CircuitBreaker → ℕ → Bool
is_available c now = elim c.state [
  | State.open_circuit ↦ leb c.last_isolation (now - c.opened_at)
  | _ ↦ true
]
