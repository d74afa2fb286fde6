-- ===== src/Retry.antt =====
-- include/RetryPolicy.h: which calls are retried, how often and after how long.
pub mod Budget
mod Tests
use my_rpc_project.Base.{
  ℕ, ◌+◌, ◌-◌, ◌*◌, ◌/◌, ◌%◌, ◌^◌, min, Bool, true, false, List, [], ◌∷◌, ltb, leb, if◌then◌else◌,
}
use my_rpc_project.Protocol.{Status}

pub record RetryOptions : Type 0 where
  pub max_attempts : ℕ
  pub budget_tokens : ℕ
  pub base_backoff_ms : ℕ
  pub max_backoff_ms : ℕ
  pub hedge_after_ms : ℕ
  pub recovery_min_working : ℕ

-- The defaults.
abbrev pub default_options : RetryOptions
default_options = record {
  max_attempts = 3;
  budget_tokens = 10;
  base_backoff_ms = 50;
  max_backoff_ms = 1000;
  hedge_after_ms = 0;
  recovery_min_working = 1;
}

-- The atomic counter; each exchange succeeds in the end, so an operation is one step.
pub record RetryBudget : Type 0 where
  pub max_tokens : ℕ
  pub tokens : ℕ

-- The constructor and `reset`.
unfoldable pub reset : ℕ → RetryBudget
reset max_tokens = record { max_tokens = max_tokens; tokens = max_tokens }

unfoldable pub try_consume : RetryBudget → Bool × RetryBudget
try_consume b = if ltb 0 b.tokens then (true, record b { tokens = b.tokens - 1 }) else (false, b)

unfoldable pub refund : RetryBudget → RetryBudget
refund b = if ltb b.tokens b.max_tokens then record b { tokens = b.tokens + 1 } else b

unfoldable pub should_retry : Status → Bool → ℕ → ℕ → Bool
should_retry status idempotent attempt max_attempts =
    if leb max_attempts attempt
    then false
    else elim status [ Status.unknown ↦ idempotent | _ ↦ false ]

-- The backoff for what `std::rand()` gives. The shift is over uint64_t.
unfoldable pub jitter_backoff : ℕ → ℕ → ℕ → ℕ → ℕ
jitter_backoff attempt base_ms max_ms rand =
    let exp = base_ms * 2 ^ (if ltb 8 attempt then 8 else attempt) % 2 ^ 64 in
    let cap = if ltb max_ms exp then max_ms else exp in rand % 1000 * cap / 1000 % 2 ^ 32
