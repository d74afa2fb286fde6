-- ===== src/Retry/Budget.antt =====
-- include/RetryPolicy.h: what the budget allows, and the bounds of the backoff.
use my_rpc_project.Base.{
  ℕ, suc, ◌+◌, ◌-◌, ◌*◌, ◌/◌, ◌%◌, ◌^◌, ◌≤◌, ◌<◌, ◌≡◌, refl, List, [], ◌∷◌, ltb, inl, inr,
  Bool-cases, ltb→lt, if◌then◌else◌, arith,
}
use native.Mathlib.Nat.{mul-le-mul_right, mul-le-mul_left, pow-le-pow_right}
use my_rpc_project.Retry.{RetryBudget, reset, try_consume, refund, jitter_backoff}

-- A retry asks for a token, or a call that went well gives one back.
pub data Event : Type 0 where
  consumes refunds : Event

-- The retries that are granted, and the budget.
unfoldable pub run : RetryBudget → List Event → ℕ × RetryBudget
run b [] = (0, b)
run b (consumes ∷ es) =
    let (ok, c) = try_consume b in
    let (granted, last) = run c es in ((if ok then 1 else 0) + granted, last)
run b (refunds ∷ es) = run (refund b) es

unfoldable pub refunded : List Event → ℕ
refunded [] = 0
refunded (consumes ∷ es) = refunded es
refunded (refunds ∷ es) = suc (refunded es)

run-budget :
    (b : RetryBudget) (es : List Event)
    → b.tokens ≤ b.max_tokens
    → let (granted, last) = run b es in
      (granted + last.tokens ≤ b.tokens + refunded es)
      × (last.tokens ≤ b.max_tokens)
      × (last.max_tokens ≡ b.max_tokens)
unfolding run refunded try_consume refund
run-budget b [] h = (omega arith, h, refl)
run-budget b (consumes ∷ es) h = elim (Bool-cases (ltb 0 b.tokens)) [
  | inl some_left ↦
      let (sum, most, same) = run-budget (record b { tokens = b.tokens - 1 }) es (omega arith) in
      rw some_left (omega (arith, sum, ltb→lt 0 b.tokens some_left), most, same)
  | inr none_left ↦
      let (sum, most, same) = run-budget b es h in rw none_left (omega (arith, sum), most, same)
]
run-budget b (refunds ∷ es) h = elim (Bool-cases (ltb b.tokens b.max_tokens)) [
  | inl room ↦
      let (sum, most, same) =
        run-budget (record b { tokens = b.tokens + 1 }) es (omega (arith, ltb→lt _ _ room)) in
      rw (room, run) (omega (arith, sum), most, same)
  | inr full ↦
      let (sum, most, same) = run-budget b es h in rw (full, run) (omega (arith, sum), most, same)
]

-- Over any requests for tokens and refunds of a new budget, there are never more retries than its
-- tokens and the refunds together, and never more tokens than at the start.
pub run-granted :
    (max_tokens : ℕ) (es : List Event)
    → let (granted, last) = run (reset max_tokens) es in
      (granted + last.tokens ≤ max_tokens + refunded es) × (last.tokens ≤ max_tokens)
unfolding reset
run-granted max_tokens es =
    let (sum, most, same) = run-budget (reset max_tokens) es (omega arith) in (sum, most)

part_of : (r c : ℕ) → r % 1000 * c / 1000 % 2 ^ 32 ≤ c
part_of r c =
    let most : r % 1000 * c ≤ 999 * c = mul-le-mul_right c (omega arith) in omega (arith, most)

shift-le : (attempt : ℕ) → 2 ^ (if ltb 8 attempt then 8 else attempt) ≤ 2 ^ attempt
shift-le attempt = elim (Bool-cases (ltb 8 attempt)) [
  | inl many ↦
      let past : 8 ≤ attempt = omega (arith, ltb→lt 8 attempt many) in
      let positive : 0 < 2 = omega arith in rw many (pow-le-pow_right positive past)
  | inr few ↦ rw few (omega arith)
]

-- A backoff is at most the largest one, and at most the base times 2 to the number of attempts.
pub jitter_backoff-le :
    (attempt base_ms max_ms rand : ℕ)
    → (jitter_backoff attempt base_ms max_ms rand ≤ max_ms)
      × (jitter_backoff attempt base_ms max_ms rand ≤ base_ms * 2 ^ attempt)
unfolding jitter_backoff
jitter_backoff-le attempt base_ms max_ms rand =
    let exp = base_ms * 2 ^ (if ltb 8 attempt then 8 else attempt) % 2 ^ 64 in
    let cap = if ltb max_ms exp then max_ms else exp in
    let below : cap ≤ max_ms = ground arith in
    let below_exp : cap ≤ exp = ground arith in
    let grown : base_ms * 2 ^ (if ltb 8 attempt then 8 else attempt) ≤ base_ms * 2 ^ attempt =
      mul-le-mul_left base_ms (shift-le attempt) in
    (omega (arith, part_of rand cap, below), omega (arith, part_of rand cap, below_exp, grown))
