-- ===== src/RpcClusterChannel/Completion.antt =====
-- src/RpcClusterChannel.cpp: how often a call's callback runs.
use my_rpc_project.Base.{
  ℕ, suc, ◌+◌, ◌-◌, ◌≤◌, ◌≡◌, refl, sym, ap, subst, ◌∙◌, Bool, true, false, List, [], ◌∷◌, ◌++◌,
  Option, none, some, length, get_elem?, ◌==◌, if◌then◌else◌, if_elim, inl, inr, Bool-cases,
  Option-cases, arith,
}
use my_rpc_project.Base.Maps.{find, insert, find-insert}
use my_rpc_project.Protocol.{Status}
use my_rpc_project.CircuitBreaker.{allow_request}
use my_rpc_project.Retry.{RetryOptions, try_consume, should_retry, jitter_backoff}
use my_rpc_project.RpcClusterChannel.{Instance}
use my_rpc_project.RpcClusterChannel.Attempts.{
  no_index, Call, Attempt, Sleeping, Hedge, Client, Round, breaker_of, set_breaker, set_status,
  set_budget, succeed, retry_if, fail, fail_call, states_from, choose_index, target, send_to,
  dispatch, arm_hedge, attempt_once, call_async, on_answer, on_hedge,
}
use my_rpc_project.RpcClusterChannel.Events.{
  Event, calls, answers, wakes, hedges, adds, removes, refreshes, configures, drop_at, new_client,
  step, run,
}
use my_rpc_project.RpcClusterChannel.Ledger.{
  sent_of, sleeping_of, open_of, IsCounted, KeptBut, IsKept, sent_of-append, sent_of-drop_at,
  sleeping_of-drop_at, set_status-KeptBut, finish-IsKept, sleep-IsKept, IsKept-KeptBut, none-IsKept,
}

retry_if-IsKept :
    (b : Bool) (s : Client) (c number : ℕ) (options : RetryOptions) (rand : ℕ)
    → KeptBut c s
    → IsKept (retry_if b s c number options rand)
unfolding retry_if
retry_if-IsKept false s c number options rand kept = finish-IsKept s c kept
retry_if-IsKept true s c number options rand kept =
    let (granted, b) = try_consume s.cluster.retry_budget in
    let t = set_budget s b in
    if_elim IsKept granted
      (sleep-IsKept t c (number + 1)
        (jitter_backoff (number - 1) options.base_backoff_ms options.max_backoff_ms rand) kept)
      (finish-IsKept t c kept)

fail-IsKept :
    (s : Client) (c number : ℕ) (options : RetryOptions) (rand : ℕ)
    → KeptBut c s
    → IsKept (fail s c number options rand)
unfolding fail
fail-IsKept s c number options rand kept = elim (Option-cases (find c s.calls)) [
  | inl gone ↦ rw (gone, fail) (none-IsKept s c gone kept)
  | inr (x, there) ↦
      rw (there, fail)
        (retry_if-IsKept (should_retry x.status x.idempotent number options.max_attempts) s c number
          options rand kept)
]

fail_call-IsKept :
    (s : Client) (c : ℕ) (status : Status) (number rand : ℕ)
    → KeptBut c s
    → IsKept (fail_call s c status number rand)
unfolding fail_call
fail_call-IsKept s c status number rand kept =
    fail-IsKept (set_status s c status) c number s.cluster.retry_options rand
      (set_status-KeptBut s c c status kept)

-- A new attempt of the call takes the exception away.
sent-IsKept :
    (s t : Client) (a : Attempt)
    → t.calls ≡ s.calls
    → t.sleeping ≡ s.sleeping
    → t.sent ≡ s.sent ++ (a ∷ [])
    → KeptBut a.call s
    → IsKept t
unfolding sent_of
sent-IsKept s t a e f g kept d x there =
    let (counted, settled) = kept d x (subst (λ m. find d m ≡ some x) e there) in
    let more : sent_of d t.sent ≡ sent_of d s.sent + sent_of d (a ∷ []) =
      ap (sent_of d) g ∙ sent_of-append d s.sent (a ∷ []) in
    let same : sleeping_of d t.sleeping ≡ sleeping_of d s.sleeping = ap (sleeping_of d) f in
    (
      counted,
      elim settled [
        | inl over ↦ inl over
        | inr (inl at) ↦ inr (ground arith)
        | inr (inr owed) ↦ inr (ground arith)
      ],
    )

module _ {D : Type 0} (r : Round D) where
  send_to-IsKept :
      (s : Client) (c number : ℕ) (i : Instance) → KeptBut c s → IsKept (send_to r s c number i)
  unfolding send_to
  send_to-IsKept s c number i kept =
      let (allowed, b) = allow_request r.over_threshold (breaker_of s.cluster i) r.now in
      let t = set_breaker s i.channel b in
      let attempt : Attempt = record {
        call = c;
        number = number;
        channel = i.channel;
        options = s.cluster.retry_options;
      } in
      if_elim IsKept allowed
        (sent-IsKept t
          (record t { sent = t.sent ++ (attempt ∷ []); requests = t.requests ++ (attempt ∷ []) })
          attempt refl refl refl kept)
        (fail_call-IsKept t c Status.concurrency_limited number r.backoff_rand kept)

  dispatch-IsKept :
      (s : Client) (c number : ℕ) (idx : Option ℕ)
      → KeptBut c s
      → IsKept (dispatch r s c number idx)
  unfolding dispatch
  dispatch-IsKept s c number none kept =
      fail_call-IsKept s c Status.unknown number r.backoff_rand kept
  dispatch-IsKept s c number (some idx) kept =
      elim (Option-cases (get_elem? s.cluster.instances idx)) [
        | inl out ↦
            rw (out, dispatch) (fail_call-IsKept s c Status.unknown number r.backoff_rand kept)
        | inr (i, there) ↦ rw (there, dispatch) (send_to-IsKept s c number i kept)
      ]

  attempt_once-IsKept :
      (s : Client) (c number exclude : ℕ) (hedge : Bool)
      → KeptBut c s
      → IsKept (attempt_once r s c number exclude hedge)
  unfolding attempt_once arm_hedge
  attempt_once-IsKept s c number exclude hedge kept = elim (Option-cases (find c s.calls)) [
    | inl gone ↦ rw (gone, attempt_once) (none-IsKept s c gone kept)
    | inr (x, there) ↦
        let states = states_from r s.cluster exclude 0 s.cluster.instances in
        let idx = choose_index r states x.request_key in
        rw (there, attempt_once)
          (dispatch-IsKept (arm_hedge r s c x number idx hedge (length states)) c number
            (target r s.cluster states idx) (if_elim (KeptBut c) _ kept kept))
  ]

  call_async-IsKept :
      (s : Client) (idempotent : Bool) (request_key : ℕ)
      → IsKept s
      → IsKept (call_async r s idempotent request_key)
  unfolding call_async
  call_async-IsKept s idempotent request_key kept =
      let call : Call = record {
        idempotent = idempotent;
        request_key = request_key;
        status = Status.ok;
        completed = false;
        done = 0;
      } in
      attempt_once-IsKept
        (record s { calls = insert s.next_call call s.calls; next_call = suc s.next_call })
        s.next_call 1 no_index true
        (λ d x e.
          let g : (if s.next_call == d then some call else find d s.calls) ≡ some x =
            sym (find-insert s.next_call d call s.calls) ∙ e in
          elim (Bool-cases (s.next_call == d)) [
            | inl this ↦
                let same : call ≡ x = let h : some call ≡ some x = rw this at g in cc in
                (subst IsCounted same refl, inr (inl (ground arith)))
            | inr other ↦
                let h : find d s.calls ≡ some x = rw other at g in
                IsKept-KeptBut s s.next_call kept d x h
          ])

  on_answer-IsKept :
      (s : Client) (a : Attempt) (status : Status)
      → KeptBut a.call s
      → IsKept (on_answer r s a status)
  unfolding on_answer succeed
  on_answer-IsKept s a status kept = go status
    where
      after : (st : Status) → KeptBut a.call (set_status s a.call st)
      after st = set_status-KeptBut s a.call a.call st kept

      go : (st : Status) → IsKept (on_answer r s a st)
      go Status.ok = finish-IsKept _ a.call (after Status.ok)
      go Status.unknown =
          fail-IsKept (set_status s a.call Status.unknown) a.call a.number a.options r.backoff_rand
            (after Status.unknown)
      go st = fail-IsKept _ a.call a.number a.options r.backoff_rand (after st)

  on_hedge-IsKept : (s : Client) (h : Hedge) → IsKept s → IsKept (on_hedge r s h)
  unfolding on_hedge
  on_hedge-IsKept s h kept = elim (Option-cases (find h.call s.calls)) [
    | inl gone ↦ rw (gone, on_hedge) kept
    | inr (x, there) ↦
        rw (there, on_hedge)
          (if_elim IsKept x.completed kept
            (attempt_once-IsKept s h.call 1 h.first_index false (IsKept-KeptBut s h.call kept)))
  ]

-- What is taken off the lists leaves its call as the exception.
answered-KeptBut :
    (s : Client) (k : ℕ) (a : Attempt)
    → get_elem? s.sent k ≡ some a
    → IsKept s
    → KeptBut a.call (record s { sent = drop_at k s.sent })
answered-KeptBut s k a e kept d x there =
    let less = sent_of-drop_at d k s.sent a e in
    let (counted, settled) = kept d x there in
    (
      counted,
      elim settled [
        | inl over ↦ inl over
        | inr owed ↦ elim (Bool-cases (a.call == d)) [
          | inl this ↦ inr (inl (ground arith))
          | inr other ↦ inr (inr (ground arith))
        ]
      ],
    )

woken-KeptBut :
    (s : Client) (k : ℕ) (a : Sleeping)
    → get_elem? s.sleeping k ≡ some a
    → IsKept s
    → KeptBut a.call (record s { sleeping = drop_at k s.sleeping })
woken-KeptBut s k a e kept d x there =
    let less = sleeping_of-drop_at d k s.sleeping a e in
    let (counted, settled) = kept d x there in
    (
      counted,
      elim settled [
        | inl over ↦ inl over
        | inr owed ↦ elim (Bool-cases (a.call == d)) [
          | inl this ↦ inr (inl (ground arith))
          | inr other ↦ inr (inr (ground arith))
        ]
      ],
    )

module _ {D : Type 0} where
  step-IsKept : (s : Client) (e : Event D) → IsKept s → IsKept (step s e)
  unfolding step
  step-IsKept s (calls idempotent request_key r) kept =
      call_async-IsKept r s idempotent request_key kept
  step-IsKept s (answers k status r) kept = elim (Option-cases (get_elem? s.sent k)) [
    | inl gone ↦ rw (gone, step) kept
    | inr (a, there) ↦
        rw (there, step)
          (on_answer-IsKept r (record s { sent = drop_at k s.sent }) a status
            (answered-KeptBut s k a there kept))
  ]
  step-IsKept s (wakes k r) kept = elim (Option-cases (get_elem? s.sleeping k)) [
    | inl gone ↦ rw (gone, step) kept
    | inr (w, there) ↦
        rw (there, step)
          (attempt_once-IsKept r (record s { sleeping = drop_at k s.sleeping }) w.call w.number
            no_index false (woken-KeptBut s k w there kept))
  ]
  step-IsKept s (hedges k r) kept = elim (Option-cases (get_elem? s.hedges k)) [
    | inl gone ↦ rw (gone, step) kept
    | inr (h, there) ↦
        rw (there, step) (on_hedge-IsKept r (record s { hedges = drop_at k s.hedges }) h kept)
  ]
  step-IsKept s (adds host port) kept = kept
  step-IsKept s (removes host port) kept = kept
  step-IsKept s (refreshes infos) kept = kept
  step-IsKept s (configures options) kept = kept

  pub run-IsKept : (s : Client) (es : List (Event D)) → IsKept s → IsKept (run s es)
  unfolding run
  run-IsKept s [] kept = kept
  run-IsKept s (e ∷ es) kept = run-IsKept (step s e) es (step-IsKept s e kept)

  -- Over any events of a new client, whatever channels, balancer, breakers and timers do, and however
  -- instances and options change: the callback of a call runs at most once, and it has run once when no
  -- channel has an attempt of the call and no retry of it sleeps.
  pub run-completes :
      (es : List (Event D)) (c : ℕ) (x : Call)
      → find c (run new_client es).calls ≡ some x
      → (x.done ≤ 1) × (open_of (run new_client es) c ≡ 0 → x.done ≡ 1)
  run-completes es c x there =
      let nothing : IsKept new_client = λ d y e. absurd (unfold find in grind arith) in
      let (counted, settled) = run-IsKept new_client es nothing c x there in
      (
        ground arith,
        λ over. elim settled [
          | inl flag ↦ counted ∙ rw flag refl
          | inr owed ↦ absurd (omega arith)
        ],
      )
