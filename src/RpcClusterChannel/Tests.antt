-- ===== src/RpcClusterChannel/Tests.antt =====
-- Runs of a client of src/RpcClusterChannel.cpp.
use my_rpc_project.Base.{
  ℕ, zero, suc, length, ◌+◌, inl, ◌++◌, ◌≢◌, ◌*◌, ◌≤◌, ◌≡◌, refl, true, false, List, [], ◌∷◌, none,
  some, get_elem?, arith,
}
use my_rpc_project.Base.Maps.{find, insert}
use my_rpc_project.Protocol.{Status}
use my_rpc_project.CircuitBreaker.{
  is_available, allow_request, count_last, decide, drop_old, is_open, last_is_old, on_error,
  on_success, record_outcome, roll_window, tally, trips,
}
use my_rpc_project.Retry.{
  RetryOptions, default_options, jitter_backoff, refund, reset, should_retry, try_consume,
}
use my_rpc_project.LocalRegistry.{InstanceInfo, LocalRegistry, lookup}
use my_rpc_project.RpcClusterChannel.{
  add_instance, find_instance, instance_for, set_retry_options, is_at, same_text, Instance,
  new_cluster, default_breaker, discover,
}
use my_rpc_project.RpcClusterChannel.Attempts.{
  complete, fail, fail_call, finish, modify_call, on_answer, on_hedge, open_from, recover, retry_if,
  send_to, set_breaker, set_budget, set_status, sleep, succeed, target, dispatch, arm_hedge,
  attempt_once, call_async, breaker_of, states_from, choose_index, first_healthy, is_usable, Call,
  Client, Round,
}
use my_rpc_project.RpcClusterChannel.Events.{
  Event, calls, answers, wakes, hedges, adds, configures, step, run, new_client,
}
use my_rpc_project.RpcClusterChannel.Ledger.{open_of}
use my_rpc_project.RpcClusterChannel.Completion.{run-completes}
use my_rpc_project.RpcClusterChannel.Requests.{requests_of, run-requests}
use my_rpc_project.RpcClusterChannel.Hedging.{hedge_ends_call}
use my_rpc_project.RpcClusterChannel.Membership.{Follows, Extends, AreGone, discover-Follows}

-- All channels are well.
abbrev fine : Round ℕ
fine = record {
  now = 100;
  is_healthy = λ c. true;
  inflight_count = λ c. 0;
  latency_ema_ms = λ c. 0;
  full_weight = 1;
  pick = none;
  over_threshold = λ errors total. false;
  admits = λ working total. false;
  rand = 0;
  backoff_rand = 500;
}

abbrev two_attempts : RetryOptions
two_attempts = record default_options { max_attempts = 2; hedge_after_ms = 20 }

-- A call whose first attempt and backup are lost; the retry of the first is answered.
abbrev events : List (Event ℕ)
events =
    configures two_attempts
    ∷ adds (1 ∷ []) 80
    ∷ adds (2 ∷ []) 80
    ∷ calls true 7 fine
    ∷ hedges 0 fine
    ∷ answers 0 Status.unknown fine
    ∷ wakes 0 fine
    ∷ answers 1 Status.ok fine
    ∷ []

abbrev answered : Call
answered = record {
  idempotent = true;
  request_key = 7;
  status = Status.ok;
  completed = true;
  done = 1;
}

run-events : find 0 (run new_client events).calls ≡ some answered
unfolding run step find insert complete fail fail_call finish modify_call on_answer on_hedge
    open_from recover retry_if send_to set_breaker set_budget set_status sleep succeed target
    dispatch arm_hedge attempt_once call_async breaker_of states_from choose_index first_healthy
    is_usable add_instance find_instance instance_for set_retry_options is_at same_text is_available
    allow_request count_last decide drop_old is_open last_is_old on_error on_success record_outcome
    roll_window tally trips jitter_backoff refund reset should_retry try_consume
run-events = refl

run-completes_example :
    (answered.done ≤ 1) × (open_of (run new_client events) 0 ≡ 0 → answered.done ≡ 1)
run-completes_example = run-completes events 0 answered run-events

run-requests_example : requests_of 0 (run new_client events).requests ≤ 2 * 3
run-requests_example =
    run-requests 3 events 0 (omega arith)
      (omega arith, (tt, (tt, (tt, (tt, (tt, (tt, (tt, tt))))))))

abbrev waiting : Call
waiting = record {
  idempotent = true;
  request_key = 7;
  status = Status.ok;
  completed = false;
  done = 0;
}

-- One instance, whose channel has the first attempt of a call; one attempt is allowed.
abbrev lonely : Client
lonely = record new_client {
  cluster = record new_cluster {
    instances = record { host = 1 ∷ []; port = 80; channel = 0 } ∷ [];
    breakers = default_breaker ∷ [];
    retry_options = record default_options { max_attempts = 1; hedge_after_ms = 20 };
  };
  calls = (0, waiting) ∷ [];
  sent = record { call = 0; number = 1; channel = 0; options = default_options } ∷ [];
  hedges = record { call = 0; first_index = 0 } ∷ [];
}

hedge_ends_call_example :
    let t = step lonely (hedges 0 fine) in
    (find 0 t.calls ≡ some (record waiting { status = Status.unknown; completed = true; done = 1 }))
    × (t.sent ≡ lonely.sent)
hedge_ends_call_example =
    hedge_ends_call fine lonely 0 0 (record { call = 0; first_index = 0 }) waiting
      (record { host = 1 ∷ []; port = 80; channel = 0 }) refl (unfold find in refl) refl alone refl
      (unfold is_open breaker_of in refl) (inl (omega arith))
  where
    alone :
        (j : ℕ) (i : Instance)
        → get_elem? lonely.cluster.instances j ≡ some i
        → 0 + j ≢ 0
        → fine.is_healthy i.channel ≡ false
    alone zero i e other = absurd (other refl)
    alone (suc j) i e other = absurd (grind arith)

-- A registry with one instance, and a cluster with another one.
abbrev info : InstanceInfo
info = record { service = 4; host = 2 ∷ []; port = 80; instance_id = 1 }

abbrev registry : LocalRegistry
registry = record {
  services =
      (
        4,
        record {
          instances = (1, record { info = info; lease_deadline = 90; lease_ms = 50 }) ∷ [];
          watchers = [];
          version = 1;
        },
      )
      ∷ [];
  notified = [];
}

discover-Follows_example :
    let found = (lookup registry 4 60).0 in
    let d = (discover registry lonely.cluster 4 9 60).1 in
    Follows lonely.cluster.instances
      (length lonely.cluster.breakers)
      (length d.breakers)
      found
      d.instances
    × Extends lonely.cluster.breakers d.breakers
    × (gone : List ℕ) × (d.stopped ≡ lonely.cluster.stopped ++ gone)
    × AreGone found lonely.cluster.instances gone
discover-Follows_example = discover-Follows registry lonely.cluster 4 9 60
