-- ===== src/RpcServer/Counts.antt =====
-- src/RpcServer.cpp and include/ConcurrencyLimiter.h: slots are taken and given back.
use my_rpc_project.Base.{
  ℕ, zero, suc, ◌+◌, ◌^◌, ◌≤◌, ◌<◌, ◌≡◌, refl, sym, subst, ◌⊎◌, inl, inr, Bool, true, List, [], ◌∷◌,
  ◌++◌, Option, none, some, length, length-append, if_elim, Bool-cases, Option-cases, ◌==◌, ◌||◌,
  arith,
}
use my_rpc_project.Protocol.{Status, RpcHeader}
use my_rpc_project.Framer.{Message}
use my_rpc_project.Serializer.{Value}
use my_rpc_project.Serializer.Reader.{Read, exhausted, malformed, gives}
use my_rpc_project.RpcServer.{
  RpcServer, Router, ConcurrencyLimiter, Delivery, RequestContext, idle_server, try_acquire,
  release, admit, request_of, release_slot, send_message, send_response, on_message, start_request,
  handle_request, on_done, begin_stop, find_method, set_max_concurrency,
}
use my_rpc_project.RpcServer.Events.{
  Event, receives, executes, finishes, begins_stop, take_at, put_back, execute, finish, step, run,
}

take_at-length :
    {A : Type 0} (i : ℕ) (xs : List A) (x : A) (rest : List A)
    → take_at i xs ≡ some (x, rest)
    → length xs ≡ length rest + 1
unfolding take_at
take_at-length i [] x rest e = cc
take_at-length zero (y ∷ xs) x rest e = ground arith
take_at-length (suc i) (y ∷ xs) x rest e =
    go (take_at i xs) (λ z zs found. take_at-length i xs z zs found) refl e
  where
    go :
        (o : Option (_ × List _))
        → ((z : _) (zs : List _) → take_at i xs ≡ some (z, zs) → length xs ≡ length zs + 1)
        → take_at i xs ≡ o
        → put_back y o ≡ some (x, rest)
        → suc (length xs) ≡ length rest + 1
    go none ih found same = cc
    go (some (z, zs)) ih found same = ground (arith, ih z zs found)

module _ (limit : ℕ) where
  -- There is a limiter with this limit, which counts `n` requests and allows them; 0 is no limit.
  Bounded : Option ConcurrencyLimiter → ℕ → Type 0
  Bounded none n = ⊥
  Bounded (some l) n =
      (l.max ≡ limit) × ((limit ≡ 0) ⊎ ((l.current ≡ n) × (n ≤ limit) × (limit < 2 ^ 64)))

  -- `n` slots are taken.
  record Holding (n : ℕ) (s : RpcServer) : Type 0 where
    inflight_is : s.inflight ≡ n
    bounded : Bounded s.limiter n

  acquired :
      (l : Option ConcurrencyLimiter) (n : ℕ)
      → Bounded l n
      → (admit l).0 ≡ true
      → Bounded (admit l).1 (n + 1)
  unfolding Bounded admit try_acquire
  acquired none n b e = absurd b
  acquired (some l) n b e = ground arith

  released :
      (l : ConcurrencyLimiter) (n : ℕ) → Bounded (some l) (n + 1) → Bounded (some (release l)) n
  unfolding Bounded release
  released l n b = ground arith

  no_limiter : (n : ℕ) → Bounded none n → ⊥
  unfolding Bounded
  no_limiter n b = b

  release_slot-Holding : (n : ℕ) (s : RpcServer) → Holding (n + 1) s → Holding n (release_slot s)
  unfolding release_slot
  release_slot-Holding n s h = record {
    inflight_is = omega (arith, h.inflight_is);
    bounded = elim (Option-cases s.limiter) [
      | inl e ↦ absurd (no_limiter (n + 1) (subst (λ o. Bounded o (n + 1)) e h.bounded))
      | inr (l, e) ↦ rw e (released l n (subst (λ o. Bounded o (n + 1)) e h.bounded))
    ];
  }

  -- The requests whose handlers have not finished are the ones that are counted.
  record Counted (s : RpcServer) : Type 0 where
    held : Holding (length s.running) s

  sent_more : (s : RpcServer) (conn : ℕ) (m : Message) → Counted s → Counted (send_message s conn m)
  sent_more s conn m c = record {
    held = record { inflight_is = c.held.inflight_is; bounded = c.held.bounded };
  }

  send_response-Counted :
      (s : RpcServer) (conn : ℕ) (h : RpcHeader) (trace_id : ℕ) (status : Status)
      → Counted s
      → Counted (send_response s conn h trace_id status)
  unfolding send_response
  send_response-Counted s conn h trace_id status c =
      if_elim Counted (h.msg_type == 2) c (sent_more s conn _ c)

  give_back : (s : RpcServer) → Holding (length s.running + 1) s → Counted (release_slot s)
  unfolding release_slot
  give_back s h = record { held = release_slot-Holding (length s.running) s h }

  joined :
      (s : RpcServer) (ctx : RequestContext)
      → Holding (length s.running + 1) s
      → Counted (record s { running = s.running ++ (ctx ∷ []) })
  joined s ctx h = record {
    held =
        subst (λ n. Holding n (record s { running = s.running ++ (ctx ∷ []) }))
          (sym (length-append s.running (ctx ∷ [])))
          (record { inflight_is = h.inflight_is; bounded = h.bounded });
  }

  start_request-Counted :
      (s : RpcServer) (d : Delivery) (trace_id now : ℕ)
      → Holding (length s.running + 1) s
      → Counted (start_request s d trace_id now)
  unfolding start_request
  start_request-Counted s d trace_id now h =
      go (request_of d.message.body) (find_method s.router d.message.header.method_id) refl refl
    where
      go :
          (r : Read Value) (f : Option ℕ)
          → request_of d.message.body ≡ r
          → find_method s.router d.message.header.method_id ≡ f
          → Counted (start_request s d trace_id now)
      go exhausted f e p =
          rw (e, start_request)
            (send_response-Counted (release_slot s) d.conn d.message.header trace_id
              Status.serialization_error (give_back s h))
      go malformed f e p =
          rw (e, start_request)
            (send_response-Counted (release_slot s) d.conn d.message.header trace_id
              Status.serialization_error (give_back s h))
      go (gives v) none e p =
          rw (e, p, start_request)
            (send_response-Counted (release_slot s) d.conn d.message.header trace_id
              Status.method_not_found (give_back s h))
      go (gives v) (some handler) e p =
          rw (e, p, start_request)
            (joined s
              (record {
                conn = d.conn;
                header = d.message.header;
                trace_id = trace_id;
                start = now;
                handler = handler;
                request = v;
              })
              h)

  handle_request-Counted :
      (s : RpcServer) (d : Delivery) (fresh now : ℕ)
      → Counted s
      → Counted (handle_request s d fresh now)
  unfolding handle_request
  handle_request-Counted s d fresh now c =
      if_elim Counted s.stopping (send_response-Counted s d.conn d.message.header _ _ c)
        (elim (Bool-cases (admit s.limiter).0) [
          | inl ok ↦ rw ok (
              start_request-Counted
                (record s { limiter = (admit s.limiter).1; inflight = s.inflight + 1 }) d _ now
                (record {
                  inflight_is = omega (arith, c.held.inflight_is);
                  bounded = acquired s.limiter (length s.running) c.held.bounded ok;
                }))
          | inr full ↦ rw full (send_response-Counted s d.conn d.message.header _ _ c)
        ])

  on_message-Counted :
      (s : RpcServer) (conn : ℕ) (m : Message) → Counted s → Counted (on_message s conn m)
  unfolding on_message
  on_message-Counted s conn m c = if_elim Counted (m.header.msg_type == 3) (sent_more s conn _ c) (
      if_elim Counted (m.header.msg_type == 0 || m.header.msg_type == 2)
        (if_elim Counted s.stopping (send_response-Counted s conn m.header 0 Status.shutting_down c)
          (record { held = record { inflight_is = c.held.inflight_is; bounded = c.held.bounded } }))
        c)

  on_done-Counted :
      (s : RpcServer) (ctx : RequestContext) (status : Status) (response : Value) (now : ℕ)
      (alive : Bool)
      → Holding (length s.running + 1) s
      → Counted (on_done s ctx status response now alive)
  unfolding on_done
  on_done-Counted s ctx status response now alive h =
      let c = give_back s h in
      if_elim Counted (ctx.header.msg_type == 2) c
        (if_elim Counted alive (sent_more (release_slot s) ctx.conn _ c) c)

  finish-Counted :
      (s : RpcServer) (o : Option (RequestContext × List RequestContext)) (i : ℕ) (status : Status)
      (response : Value) (now : ℕ) (alive : Bool)
      → take_at i s.running ≡ o
      → Counted s
      → Counted (finish s o status response now alive)
  unfolding finish
  finish-Counted s none i status response now alive e c = c
  finish-Counted s (some (ctx, rest)) i status response now alive e c =
      on_done-Counted (record s { running = rest }) ctx status response now alive
        (subst (λ n. Holding n (record s { running = rest }))
          (take_at-length i s.running ctx rest e)
          (record { inflight_is = c.held.inflight_is; bounded = c.held.bounded }))

  execute-Counted :
      (s : RpcServer) (o : Option (Delivery × List Delivery)) (fresh now : ℕ)
      → Counted s
      → Counted (execute s o fresh now)
  unfolding execute
  execute-Counted s none fresh now c = c
  execute-Counted s (some (d, rest)) fresh now c =
      handle_request-Counted (record s { tasks = rest }) d fresh now
        (record { held = record { inflight_is = c.held.inflight_is; bounded = c.held.bounded } })

  run-Counted : (s : RpcServer) (es : List Event) → Counted s → Counted (run s es)
  unfolding run step begin_stop
  run-Counted s [] c = c
  run-Counted s (receives conn m ∷ es) c =
      run-Counted (on_message s conn m) es (on_message-Counted s conn m c)
  run-Counted s (executes i fresh now ∷ es) c =
      run-Counted (execute s (take_at i s.tasks) fresh now) es
        (execute-Counted s (take_at i s.tasks) fresh now c)
  run-Counted s (finishes i status response now alive ∷ es) c =
      run-Counted (finish s (take_at i s.running) status response now alive) es
        (finish-Counted s (take_at i s.running) i status response now alive refl c)
  run-Counted s (begins_stop ∷ es) c =
      run-Counted (begin_stop s) es
        (record { held = record { inflight_is = c.held.inflight_is; bounded = c.held.bounded } })

-- A server with methods and a limit, before the first message.
unfoldable pub configured : Router → ℕ → RpcServer
configured router n = set_max_concurrency (record idle_server { router = router }) n

-- Over any events of a server with the limit `n`, the handlers that run and have not finished are
-- counted by `inflight_`, and there are at most `n` of them, unless `n` is 0.
pub run-limited :
    (router : Router) (n : ℕ) (es : List Event)
    → n < 2 ^ 64
    → let s = run (configured router n) es in
      (s.inflight ≡ length s.running) × ((n ≡ 0) ⊎ (length s.running ≤ n))
unfolding Bounded configured set_max_concurrency
run-limited router n es h =
    let start : Counted n (configured router n) = record {
      held = record { inflight_is = refl; bounded = (refl, inr (refl, omega arith, h)) };
    } in
    let c = run-Counted n (configured router n) es start in
    (
      c.held.inflight_is,
      within (run (configured router n) es).limiter (length (run (configured router n) es).running)
          c.held.bounded,
    )
  where
    within : (o : Option ConcurrencyLimiter) (k : ℕ) → Bounded n o k → (n ≡ 0) ⊎ (k ≤ n)
    within none k b = absurd b
    within (some l) k (same, inl e) = inl e
    within (some l) k (same, inr (e, fits, small)) = inr fits
