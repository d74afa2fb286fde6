-- ===== src/RpcClusterChannel/Attempts.antt =====
-- src/RpcClusterChannel.cpp: calls and their attempts. Each step takes a `Round`, what the channels, the
-- balancer, the clock and `std::rand` answer while it runs. What is deferred is kept in lists: attempts
-- that a channel has, retries whose thread sleeps, and hedge timers; any of them may be next.
use my_rpc_project.Base.{
  ℕ, suc, ◌+◌, ◌-◌, ◌%◌, ◌^◌, Bool, true, false, not, ◌&&◌, List, [], ◌∷◌, ◌++◌, Option, none, some,
  length, get_elem?, get_or, set, ltb, ◌==◌, if◌then◌else◌,
}
use my_rpc_project.Base.Maps.{Map, find, insert}
use my_rpc_project.Protocol.{Status}
use my_rpc_project.CircuitBreaker.{
  CircuitBreaker, allow_request, on_success, on_error, is_open, is_available,
}
use my_rpc_project.Retry.{
  RetryOptions, RetryBudget, try_consume, refund, should_retry, jitter_backoff,
}
use my_rpc_project.LoadBalancer.{InstanceState}
use my_rpc_project.RpcClusterChannel.{Instance, Cluster, default_breaker}

-- A call: what its controller says, whether the completion flag is set, and how often `done` has run.
pub record Call : Type 0 where
  pub idempotent : Bool
  pub request_key : ℕ
  pub status : Status
  pub completed : Bool
  pub done : ℕ

-- An attempt that a channel has: its call, its number, and the options when it began.
pub record Attempt : Type 0 where
  pub call : ℕ
  pub number : ℕ
  pub channel : ℕ
  pub options : RetryOptions

pub record Sleeping : Type 0 where
  pub call : ℕ
  pub number : ℕ
  pub backoff_ms : ℕ

pub record Hedge : Type 0 where
  pub call : ℕ
  pub first_index : ℕ

-- `requests` records what has been handed to channels; `retries` is `retryCount()`.
pub record Client : Type 0 where
  pub cluster : Cluster
  pub calls : Map Call
  pub next_call : ℕ
  pub sent : List Attempt
  pub sleeping : List Sleeping
  pub hedges : List Hedge
  pub retries : ℕ
  pub requests : List Attempt

-- The channels' answers go by the channel's number. `admits` is the comparison of a random number
-- with `recoveryMinWorking / total`, in floating point.
pub record Round (D : Type 0) : Type 0 where
  pub now : ℕ
  pub is_healthy : ℕ → Bool
  pub inflight_count : ℕ → ℕ
  pub latency_ema_ms : ℕ → D
  pub full_weight : D
  pub pick : Option (List (InstanceState D) → ℕ → ℕ)
  pub over_threshold : ℕ → ℕ → Bool
  pub admits : ℕ → ℕ → Bool
  pub rand : ℕ
  pub backoff_rand : ℕ

-- `static_cast<std::size_t>(-1)`.
abbrev pub no_index : ℕ
no_index = 2 ^ 64 - 1

unfoldable pub breaker_of : Cluster → Instance → CircuitBreaker
breaker_of c i = get_or c.breakers i.channel default_breaker

unfoldable pub set_breaker : Client → ℕ → CircuitBreaker → Client
set_breaker s channel b = record s {
  cluster = record s.cluster { breakers = set s.cluster.breakers channel b };
}

unfoldable pub modify_call : (Call → Call) → Client → ℕ → Client
modify_call f s c = elim (find c s.calls) [
  | none ↦ s
  | some x ↦ record s { calls = insert c (f x) s.calls }
]

-- The completion callback: `completed` is exchanged, and the first one runs `done`.
unfoldable pub complete : Call → Call
complete x = if x.completed then x else record x { completed = true; done = suc x.done }

unfoldable pub finish : Client → ℕ → Client
finish s c = modify_call complete s c

abbrev pub with_status : Status → Call → Call
with_status status x = record x { status = status }

unfoldable pub set_status : Client → ℕ → Status → Client
set_status s c status = modify_call (with_status status) s c

-- A retry is put to sleep.
unfoldable pub sleep : Client → ℕ → ℕ → ℕ → Client
sleep s c number backoff_ms = record s {
  sleeping = s.sleeping ++ (record { call = c; number = number; backoff_ms = backoff_ms } ∷ []);
  retries = (s.retries + 1) % 2 ^ 32;
}

unfoldable pub set_budget : Client → RetryBudget → Client
set_budget s b = record s { cluster = record s.cluster { retry_budget = b } }

-- `maybeRetry`, on success and on failure.
unfoldable pub succeed : Client → ℕ → Client
unfolding set_budget
succeed s c = finish (set_budget s (refund s.cluster.retry_budget)) c

unfoldable pub retry_if : Bool → Client → ℕ → ℕ → RetryOptions → ℕ → Client
unfolding set_budget
retry_if false s c number options rand = finish s c
retry_if true s c number options rand =
    let (granted, b) = try_consume s.cluster.retry_budget in
    let t = set_budget s b in
    if granted
    then sleep t c (number + 1)
        (jitter_backoff (number - 1) options.base_backoff_ms options.max_backoff_ms rand)
    else finish t c

unfoldable pub fail : Client → ℕ → ℕ → RetryOptions → ℕ → Client
fail s c number options rand = elim (find c s.calls) [
  | none ↦ s
  | some x ↦
      retry_if (should_retry x.status x.idempotent number options.max_attempts) s c number options
        rand
]

-- `failCall`.
unfoldable pub fail_call : Client → ℕ → Status → ℕ → ℕ → Client
fail_call s c status number rand =
    fail (set_status s c status) c number s.cluster.retry_options rand

module _ {D : Type 0} (r : Round D) where
  -- What the balancer is told of the instances, from an index on.
  unfoldable pub states_from : Cluster → ℕ → ℕ → List Instance → List (InstanceState D)
  states_from c exclude n [] = []
  states_from c exclude n (i ∷ is) =
      record {
        healthy =
            not (n == exclude) && (r.is_healthy i.channel && is_available (breaker_of c i) r.now);
        inflight = r.inflight_count i.channel;
        latency_ema_ms = r.latency_ema_ms i.channel;
        weight = r.full_weight;
      }
      ∷ states_from c exclude (suc n) is

  -- The indices of the instances whose circuit is open.
  unfoldable pub open_from : Cluster → ℕ → List Instance → List ℕ
  open_from c n [] = []
  open_from c n (i ∷ is) =
      if is_open (breaker_of c i) then n ∷ open_from c (suc n) is else open_from c (suc n) is

  -- The first healthy instance, or else the given index.
  unfoldable pub first_healthy : ℕ → ℕ → List (InstanceState D) → ℕ
  first_healthy default n [] = default
  first_healthy default n (s ∷ ss) = if s.healthy then n else first_healthy default (suc n) ss

  unfoldable pub choose_index : List (InstanceState D) → ℕ → ℕ
  choose_index [] key = 0
  choose_index (s ∷ ss) key = elim r.pick [
    | none ↦ first_healthy 0 0 (s ∷ ss)
    | some pick ↦ pick (s ∷ ss) key
  ]

  -- `idx < channels.size() && states[idx].healthy`.
  unfoldable pub is_usable : List (InstanceState D) → ℕ → Bool
  is_usable states idx = elim (get_elem? states idx) [ none ↦ false | some s ↦ s.healthy ]

  -- Recovery rate limiting: where all circuits are open, one of them may be tried.
  unfoldable pub recover : Cluster → List ℕ → ℕ → Option ℕ
  recover c [] total = none
  recover c (o ∷ os) total =
      if ltb 0 c.retry_options.recovery_min_working
        && (length (o ∷ os) == total && r.admits c.retry_options.recovery_min_working total)
      then get_elem? (o ∷ os) (r.rand % length (o ∷ os))
      else none

  -- The instance that the attempt goes to.
  unfoldable pub target : Cluster → List (InstanceState D) → ℕ → Option ℕ
  target c states idx =
      let recovered = recover c (open_from c 0 c.instances) (length states) in
      if is_usable states idx then some idx else recovered

  -- The call is handed to a channel, if its breaker lets it through.
  unfoldable pub send_to : Client → ℕ → ℕ → Instance → Client
  unfolding set_breaker
  send_to s c number i =
      let (allowed, b) = allow_request r.over_threshold (breaker_of s.cluster i) r.now in
      let t = set_breaker s i.channel b in
      let attempt : Attempt = record {
        call = c;
        number = number;
        channel = i.channel;
        options = s.cluster.retry_options;
      } in
      if allowed
      then record t { sent = t.sent ++ (attempt ∷ []); requests = t.requests ++ (attempt ∷ []) }
      else fail_call t c Status.concurrency_limited number r.backoff_rand

  unfoldable pub dispatch : Client → ℕ → ℕ → Option ℕ → Client
  dispatch s c number none = fail_call s c Status.unknown number r.backoff_rand
  dispatch s c number (some idx) = elim (get_elem? s.cluster.instances idx) [
    | none ↦ fail_call s c Status.unknown number r.backoff_rand
    | some i ↦ send_to s c number i
  ]

  -- The hedge timer of a first attempt.
  unfoldable pub arm_hedge : Client → ℕ → Call → ℕ → ℕ → Bool → ℕ → Client
  arm_hedge s c x number idx hedge total =
      if (hedge && ltb 0 s.cluster.retry_options.hedge_after_ms)
        && ((number == 1 && x.idempotent) && ltb idx total)
      then record s { hedges = s.hedges ++ (record { call = c; first_index = idx } ∷ []) }
      else s

  unfoldable pub attempt_once : Client → ℕ → ℕ → ℕ → Bool → Client
  attempt_once s c number exclude hedge = elim (find c s.calls) [
    | none ↦ s
    | some x ↦
        let states = states_from s.cluster exclude 0 s.cluster.instances in
        let idx = choose_index states x.request_key in
        dispatch (arm_hedge s c x number idx hedge (length states)) c number
          (target s.cluster states idx)
  ]

  unfoldable pub call_async : Client → Bool → ℕ → Client
  call_async s idempotent request_key =
      let call : Call = record {
        idempotent = idempotent;
        request_key = request_key;
        status = Status.ok;
        completed = false;
        done = 0;
      } in
      attempt_once
        (record s { calls = insert s.next_call call s.calls; next_call = suc s.next_call })
        s.next_call 1 no_index true

  -- A channel ends an attempt: it sets the status, and then `wrappedDone` runs.
  unfoldable pub on_answer : Client → Attempt → Status → Client
  unfolding set_breaker
  on_answer s a status =
      let t = set_status s a.call status in
      let b = get_or s.cluster.breakers a.channel default_breaker in
      elim status [
        | Status.ok ↦ succeed (set_breaker t a.channel (on_success b r.now)) a.call
        | Status.unknown ↦ fail t a.call a.number a.options r.backoff_rand
        | _ ↦
            fail (set_breaker t a.channel (on_error b r.now)) a.call a.number a.options
              r.backoff_rand
      ]

  -- A hedge timer runs out.
  unfoldable pub on_hedge : Client → Hedge → Client
  on_hedge s h = elim (find h.call s.calls) [
    | none ↦ s
    | some x ↦ if x.completed then s else attempt_once s h.call 1 h.first_index false
  ]
