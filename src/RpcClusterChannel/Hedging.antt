-- ===== src/RpcClusterChannel/Hedging.antt =====
-- src/RpcClusterChannel.cpp: a backup request that finds no other instance.
use my_rpc_project.Base.{
  ℕ, zero, suc, ◌+◌, ◌≤◌, ◌<◌, ◌≡◌, ◌≢◌, refl, ap, ◌∙◌, Bool, true, false, not, ◌&&◌, List, [], ◌∷◌,
  none, some, length, get_elem?, ◌==◌, ==_self, inl, inr, ◌⊎◌, Bool-cases, arith,
}
use my_rpc_project.Base.Maps.{find, insert, find-insert}
use my_rpc_project.Protocol.{Status}
use my_rpc_project.CircuitBreaker.{is_open, is_available}
use my_rpc_project.Retry.{RetryOptions, RetryBudget, try_consume, should_retry}
use my_rpc_project.RpcClusterChannel.{Instance, Cluster}
use my_rpc_project.RpcClusterChannel.Attempts.{
  Call, Hedge, Client, Round, breaker_of, modify_call, complete, with_status, finish, set_status,
  set_budget, retry_if, fail, fail_call, states_from, open_from, choose_index, is_usable, recover,
  target, dispatch, arm_hedge, attempt_once, on_hedge,
}
use my_rpc_project.RpcClusterChannel.Events.{hedges, drop_at, step}

module _ {D : Type 0} (r : Round D) (c : Cluster) (exclude : ℕ) where
  -- No instance but the one at the index `exclude` is healthy, of instances from an index on.
  abbrev pub NoOther : ℕ → List Instance → Type 0
  NoOther n is =
      (j : ℕ) (i : Instance)
      → get_elem? is j ≡ some i
      → n + j ≢ exclude
      → r.is_healthy i.channel ≡ false

  length-states_from :
      (n : ℕ) (is : List Instance) → length (states_from r c exclude n is) ≡ length is
  unfolding states_from
  length-states_from n [] = refl
  length-states_from n (i ∷ is) = ap suc (length-states_from (suc n) is)

  unhealthy :
      (n : ℕ) (i : Instance) (up : Bool)
      → (n ≢ exclude → r.is_healthy i.channel ≡ false)
      → (not (n == exclude) && (r.is_healthy i.channel && up)) ≡ false
  unhealthy n i up h = elim (Bool-cases (n == exclude)) [
    | inl this ↦ rw this refl
    | inr other ↦ rw (other, h (λ e. ground arith)) refl
  ]

  is_usable-none :
      (n idx : ℕ) (is : List Instance)
      → NoOther n is
      → is_usable r (states_from r c exclude n is) idx ≡ false
  unfolding is_usable states_from
  is_usable-none n idx [] h = refl
  is_usable-none n zero (i ∷ is) h =
      unhealthy n i (is_available (breaker_of c i) r.now)
        (λ other. h 0 i refl (λ e. other (omega arith)))
  is_usable-none n (suc idx) (i ∷ is) h =
      is_usable-none (suc n) idx is (λ j k e other. h (suc j) k e (λ f. other (omega arith)))

  open_from-le : (n : ℕ) (is : List Instance) → length (open_from r c n is) ≤ length is
  unfolding open_from
  open_from-le n [] = omega arith
  open_from-le n (i ∷ is) = ground (arith, open_from-le (suc n) is)

  open_from-lt :
      (n j : ℕ) (is : List Instance) (i : Instance)
      → get_elem? is j ≡ some i
      → is_open (breaker_of c i) ≡ false
      → length (open_from r c n is) < length is
  unfolding open_from
  open_from-lt n j [] i e shut = absurd (grind arith)
  open_from-lt n zero (k ∷ is) i e shut =
      let same : k ≡ i = cc in
      ground (arith, open_from-le (suc n) is, ap (λ (x : Instance). is_open (breaker_of c x)) same)
  open_from-lt n (suc j) (k ∷ is) i e shut = ground (arith, open_from-lt (suc n) j is i e shut)

  recover-none : (os : List ℕ) (total : ℕ) → length os < total → recover r c os total ≡ none
  unfolding recover
  recover-none [] total h = refl
  recover-none (o ∷ os) total h = ground arith

  target-none :
      (j idx : ℕ) (i : Instance)
      → get_elem? c.instances j ≡ some i
      → is_open (breaker_of c i) ≡ false
      → NoOther 0 c.instances
      → target r c (states_from r c exclude 0 c.instances) idx ≡ none
  unfolding target
  target-none j idx i there shut other = rw (is_usable-none 0 idx c.instances other) (
      recover-none (open_from r c 0 c.instances) (length (states_from r c exclude 0 c.instances)) (
        omega (arith, open_from-lt 0 j c.instances i there shut, length-states_from 0 c.instances)))

-- No retry is granted: the attempts are used up, or the tokens.
abbrev pub IsSpent : RetryOptions → ℕ → ℕ → Type 0
IsSpent options number tokens = (options.max_attempts ≤ number) ⊎ (tokens ≡ 0)

try_consume-zero : (b : RetryBudget) → b.tokens ≡ 0 → try_consume b ≡ (false, b)
unfolding try_consume
try_consume-zero b h = ground arith

retry_if-spent :
    (b : Bool) (s : Client) (c number : ℕ) (options : RetryOptions) (rand : ℕ)
    → (b ≡ false) ⊎ (s.cluster.retry_budget.tokens ≡ 0)
    → retry_if b s c number options rand ≡ finish s c
unfolding retry_if set_budget
retry_if-spent false s c number options rand h = refl
retry_if-spent true s c number options rand (inl never) = absurd (grind arith)
retry_if-spent true s c number options rand (inr spent) =
    rw (try_consume-zero s.cluster.retry_budget spent, retry_if) refl

should_retry-spent :
    (status : Status) (idempotent : Bool) (number max_attempts : ℕ)
    → max_attempts ≤ number
    → should_retry status idempotent number max_attempts ≡ false
unfolding should_retry
should_retry-spent status idempotent number max_attempts h = ground arith

-- A call that is not completed fails for good where no retry is granted.
fail-spent :
    (s : Client) (c number : ℕ) (options : RetryOptions) (rand : ℕ) (x : Call)
    → find c s.calls ≡ some x
    → IsSpent options number s.cluster.retry_budget.tokens
    → fail s c number options rand ≡ finish s c
unfolding fail
fail-spent s c number options rand x there spent =
    rw (there, fail)
      (retry_if-spent (should_retry x.status x.idempotent number options.max_attempts) s c number
        options rand
        (elim spent [
          | inl used ↦
              inl (should_retry-spent x.status x.idempotent number options.max_attempts used)
          | inr empty ↦ inr empty
        ]))

find-modify_call :
    (f : Call → Call) (s : Client) (c : ℕ) (x : Call)
    → find c s.calls ≡ some x
    → modify_call f s c ≡ record s { calls = insert c (f x) s.calls }
unfolding modify_call
find-modify_call f s c x there = rw (there, modify_call) refl

fail_call-spent :
    (s : Client) (c : ℕ) (status : Status) (number rand : ℕ) (x : Call)
    → find c s.calls ≡ some x
    → IsSpent s.cluster.retry_options number s.cluster.retry_budget.tokens
    → let t = fail_call s c status number rand in
      (find c t.calls ≡ some (complete (with_status status x))) × (t.sent ≡ s.sent)
unfolding fail_call set_status finish
fail_call-spent s c status number rand x there spent =
    let y = with_status status x in
    let u : Client = record s { calls = insert c y s.calls } in
    let told : modify_call (with_status status) s c ≡ u =
      find-modify_call (with_status status) s c x there in
    let there_still : find c u.calls ≡ some y = find-insert c c y s.calls ∙ rw (==_self c) refl in
    let last : fail_call s c status number rand
        ≡ record u { calls = insert c (complete y) u.calls } =
      ap (λ v. fail v c number s.cluster.retry_options rand) told
      ∙ fail-spent u c number s.cluster.retry_options rand y there_still spent
      ∙ find-modify_call complete u c y there_still in
    (
      ap (λ (v : Client). find c v.calls) last
          ∙ find-insert c c (complete y) u.calls
          ∙ rw (==_self c) refl,
      ap (λ (v : Client). v.sent) last,
    )

ends :
    {D : Type 0} (r : Round D) (s : Client) (k j : ℕ) (h : Hedge) (x : Call) (i : Instance)
    → get_elem? s.hedges k ≡ some h
    → find h.call s.calls ≡ some x
    → x.completed ≡ false
    → NoOther r s.cluster h.first_index 0 s.cluster.instances
    → get_elem? s.cluster.instances j ≡ some i
    → is_open (breaker_of s.cluster i) ≡ false
    → step s (hedges k r)
      ≡ fail_call (record s { hedges = drop_at k s.hedges }) h.call Status.unknown 1 r.backoff_rand
unfolding step on_hedge attempt_once arm_hedge dispatch
ends r s k j h x i timer there pending other at shut =
    let u : Client = record s { hedges = drop_at k s.hedges } in
    let states = states_from r s.cluster h.first_index 0 s.cluster.instances in
    let idx = choose_index r states x.request_key in
    let fired : step s (hedges k r) ≡ on_hedge r u h = rw (timer, step) refl in
    let backup : on_hedge r u h ≡ attempt_once r u h.call 1 h.first_index false =
      rw (there, on_hedge, pending) refl in
    let missed : target r s.cluster states idx ≡ none =
      target-none r s.cluster h.first_index j idx i at shut other in
    let sent : attempt_once r u h.call 1 h.first_index false
        ≡ dispatch r u h.call 1 (target r s.cluster states idx) =
      rw (there, attempt_once) refl in
    fired ∙ backup ∙ sent ∙ ap (dispatch r u h.call 1) missed

-- A hedge timer that runs out can end its call while the first attempt is still with its channel: where
-- no other instance is healthy, some circuit is not open, and no retry is granted (one attempt at most,
-- or no token is left), the backup finds no instance, and `done` runs with status `unknown`, though no
-- attempt has been answered.
pub hedge_ends_call :
    {D : Type 0} (r : Round D) (s : Client) (k j : ℕ) (h : Hedge) (x : Call) (i : Instance)
    → get_elem? s.hedges k ≡ some h
    → find h.call s.calls ≡ some x
    → x.completed ≡ false
    → NoOther r s.cluster h.first_index 0 s.cluster.instances
    → get_elem? s.cluster.instances j ≡ some i
    → is_open (breaker_of s.cluster i) ≡ false
    → IsSpent s.cluster.retry_options 1 s.cluster.retry_budget.tokens
    → let t = step s (hedges k r) in
      (find h.call t.calls
        ≡ some (record x { status = Status.unknown; completed = true; done = suc x.done }))
      × (t.sent ≡ s.sent)
unfolding complete
hedge_ends_call r s k j h x i timer there pending other at shut spent =
    let u : Client = record s { hedges = drop_at k s.hedges } in
    let (last, same) = fail_call-spent u h.call Status.unknown 1 r.backoff_rand x there spent in
    let ended = ends r s k j h x i timer there pending other at shut in
    (
      ap (λ (t : Client). find h.call t.calls) ended ∙ last ∙ rw pending refl,
      ap (λ (t : Client). t.sent) ended ∙ same,
    )
