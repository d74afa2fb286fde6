-- ===== src/RpcServer/Answers.antt =====
-- src/RpcServer.cpp: every request that expects an answer gets one.
use my_rpc_project.Base.{
  ℕ, zero, suc, ◌+◌, ◌≡◌, refl, ◌∙◌, inl, inr, Bool, true, false, List, [], ◌∷◌, ◌++◌, All, Option,
  none, some, sum_of, sum_of-snoc, if_elim, Bool-cases, ◌==◌, ◌||◌, if◌then◌else◌, arith,
}
use my_rpc_project.Protocol.{Status, RpcHeader}
use my_rpc_project.Framer.{Message}
use my_rpc_project.Serializer.{Value}
use my_rpc_project.Serializer.Reader.{Read, exhausted, malformed, gives}
use my_rpc_project.RpcServer.{
  RpcServer, Router, Delivery, RequestContext, admit, request_of, release_slot, send_message,
  send_response, on_message, start_request, handle_request, on_done, begin_stop, find_method,
  set_max_concurrency,
}
use my_rpc_project.RpcServer.Events.{
  Event, receives, executes, finishes, begins_stop, take_at, put_back, execute, finish, step, run,
}
use my_rpc_project.RpcServer.Counts.{configured}

-- 1 where the id is `c`.
abbrev pub is_id : ℕ → RpcHeader → ℕ
is_id c h = if h.request_id == c then 1 else 0

-- Whether a request of id `c` with this header is to be answered, and whether this is an answer.
abbrev pub owes : ℕ → RpcHeader → ℕ
owes c h = if h.msg_type == 2 then 0 else is_id c h

abbrev pub answers : ℕ → Delivery → ℕ
answers c d = if d.message.header.msg_type == 1 then is_id c d.message.header else 0

abbrev pub owed_task : ℕ → Delivery → ℕ
owed_task c d = owes c d.message.header

abbrev pub owed_running : ℕ → RequestContext → ℕ
owed_running c ctx = owes c ctx.header

-- The requests of id `c` that wait, that run and that are answered.
pub accounted : ℕ → RpcServer → ℕ
accounted c s =
    sum_of (owed_task c) s.tasks + sum_of (owed_running c) s.running + sum_of (answers c) s.sent

-- The two-way requests of id `c` that an event brings, and that a run of events brings.
abbrev pub requested : ℕ → Event → ℕ
requested c (receives conn m) = if m.header.msg_type == 0 then is_id c m.header else 0
requested c _ = 0

-- The connection is there when the handler is done.
abbrev pub IsAlive : Event → Type 0
IsAlive (finishes i status response now alive) = alive ≡ true
IsAlive _ = Unit

send_response-accounted :
    (c : ℕ) (s : RpcServer) (conn : ℕ) (h : RpcHeader) (trace_id : ℕ) (status : Status)
    → accounted c (send_response s conn h trace_id status) ≡ accounted c s + owes c h
unfolding send_response accounted sum_of
send_response-accounted c s conn h trace_id status = elim (Bool-cases (h.msg_type == 2)) [
  | inl oneway ↦ rw oneway (omega arith)
  | inr two_way ↦ rw two_way (omega (arith, sum_of-snoc (answers c) s.sent _))
]

release_slot-accounted : (c : ℕ) (s : RpcServer) → accounted c (release_slot s) ≡ accounted c s
unfolding release_slot accounted
release_slot-accounted c s = refl

refuse :
    (c : ℕ) (s : RpcServer) (d : Delivery) (trace_id : ℕ) (status : Status)
    → accounted c (send_response (release_slot s) d.conn d.message.header trace_id status)
      ≡ accounted c s + owed_task c d
refuse c s d trace_id status = omega (
  arith,
  send_response-accounted c (release_slot s) d.conn d.message.header trace_id status,
  release_slot-accounted c s,
)

start_request-accounted :
    (c : ℕ) (s : RpcServer) (d : Delivery) (trace_id now : ℕ)
    → accounted c (start_request s d trace_id now) ≡ accounted c s + owed_task c d
unfolding start_request accounted sum_of
start_request-accounted c s d trace_id now =
    go (request_of d.message.body) (find_method s.router d.message.header.method_id) refl refl
  where
    go :
        (r : Read Value) (f : Option ℕ)
        → request_of d.message.body ≡ r
        → find_method s.router d.message.header.method_id ≡ f
        → accounted c (start_request s d trace_id now) ≡ accounted c s + owed_task c d
    go exhausted f e p = rw (e, start_request) (refuse c s d trace_id Status.serialization_error)
    go malformed f e p = rw (e, start_request) (refuse c s d trace_id Status.serialization_error)
    go (gives v) none e p = rw (e, p, start_request) (refuse c s d trace_id Status.method_not_found)
    go (gives v) (some handler) e p =
        rw (e, p, start_request)
          (omega (
            arith,
            sum_of-snoc (owed_running c) s.running (record {
              conn = d.conn;
              header = d.message.header;
              trace_id = trace_id;
              start = now;
              handler = handler;
              request = v;
            }),
          ))

handle_request-accounted :
    (c : ℕ) (s : RpcServer) (d : Delivery) (fresh now : ℕ)
    → accounted c (handle_request s d fresh now) ≡ accounted c s + owed_task c d
unfolding handle_request
handle_request-accounted c s d fresh now =
    let P : RpcServer → Type 0 = λ t. accounted c t ≡ accounted c s + owed_task c d in
    let trace_id = if d.message.header.trace_id == 0 then fresh else d.message.header.trace_id in
    if_elim P s.stopping
      (send_response-accounted c s d.conn d.message.header trace_id Status.shutting_down)
      (if_elim P (admit s.limiter).0
        (start_request-accounted c
            (record s { limiter = (admit s.limiter).1; inflight = s.inflight + 1 }) d trace_id now
          ∙ unfold accounted in refl)
        (send_response-accounted c s d.conn d.message.header trace_id Status.concurrency_limited))

ack-accounted :
    (c : ℕ) (s : RpcServer) (conn : ℕ) (h : RpcHeader)
    → accounted c (send_message s conn (record { header = record h { msg_type = 4 }; body = [] }))
      ≡ accounted c s
unfolding accounted
ack-accounted c s conn h = omega (arith, sum_of-snoc (answers c) s.sent _)

task-accounted :
    (c : ℕ) (s : RpcServer) (d : Delivery)
    → accounted c (record s { tasks = s.tasks ++ (d ∷ []) }) ≡ accounted c s + owed_task c d
unfolding accounted
task-accounted c s d = omega (arith, sum_of-snoc (owed_task c) s.tasks d)

on_message-accounted :
    (c : ℕ) (s : RpcServer) (conn : ℕ) (m : Message)
    → accounted c (on_message s conn m)
      ≡ accounted c s + (if m.header.msg_type == 0 then is_id c m.header else 0)
unfolding on_message
on_message-accounted c s conn m = elim (Bool-cases (m.header.msg_type == 3)) [
  | inl beat ↦ rw beat (ground (arith, ack-accounted c s conn m.header))
  | inr other ↦ elim (Bool-cases (m.header.msg_type == 0 || m.header.msg_type == 2)) [
    | inr unknown ↦ rw (other, unknown) (ground arith)
    | inl call ↦
        rw (other, call)
          (if_elim
            (λ t.
              accounted c t
              ≡ accounted c s + (if m.header.msg_type == 0 then is_id c m.header else 0))
            s.stopping
            (send_response-accounted c s conn m.header 0 Status.shutting_down ∙ ground arith)
            (task-accounted c s (record { conn = conn; message = m }) ∙ ground arith))
  ]
]

on_done-accounted :
    (c : ℕ) (s : RpcServer) (ctx : RequestContext) (status : Status) (response : Value) (now : ℕ)
    → accounted c (on_done s ctx status response now true) ≡ accounted c s + owed_running c ctx
unfolding on_done accounted release_slot
on_done-accounted c s ctx status response now = elim (Bool-cases (ctx.header.msg_type == 2)) [
  | inl oneway ↦ rw oneway (omega arith)
  | inr two_way ↦ rw two_way (omega (arith, sum_of-snoc (answers c) s.sent _))
]

take_at-sum :
    {A : Type 0} (f : A → ℕ) (i : ℕ) (xs : List A) (x : A) (rest : List A)
    → take_at i xs ≡ some (x, rest)
    → sum_of f xs ≡ f x + sum_of f rest
unfolding take_at sum_of
take_at-sum f i [] x rest e = cc
take_at-sum f zero (y ∷ xs) x rest e = ground arith
take_at-sum f (suc i) (y ∷ xs) x rest e =
    go (take_at i xs) (λ z zs found. take_at-sum f i xs z zs found) refl e
  where
    go :
        (o : Option (_ × List _))
        → ((z : _) (zs : List _) → take_at i xs ≡ some (z, zs) → sum_of f xs ≡ f z + sum_of f zs)
        → take_at i xs ≡ o
        → put_back y o ≡ some (x, rest)
        → f y + sum_of f xs ≡ f x + sum_of f rest
    go none ih found same = cc
    go (some (z, zs)) ih found same = ground (arith, ih z zs found)

finish-accounted :
    (c : ℕ) (s : RpcServer) (o : Option (RequestContext × List RequestContext)) (i : ℕ)
    (status : Status) (response : Value) (now : ℕ) (alive : Bool)
    → take_at i s.running ≡ o
    → alive ≡ true
    → accounted c (finish s o status response now alive) ≡ accounted c s
unfolding finish
finish-accounted c s none i status response now alive e a = refl
finish-accounted c s (some (ctx, rest)) i status response now false e a = ground arith
finish-accounted c s (some (ctx, rest)) i status response now true e a =
    on_done-accounted c (record s { running = rest }) ctx status response now
    ∙ unfold accounted in omega (arith, take_at-sum (owed_running c) i s.running ctx rest e)

execute-accounted :
    (c : ℕ) (s : RpcServer) (o : Option (Delivery × List Delivery)) (i fresh now : ℕ)
    → take_at i s.tasks ≡ o
    → accounted c (execute s o fresh now) ≡ accounted c s
unfolding execute
execute-accounted c s none i fresh now e = refl
execute-accounted c s (some (d, rest)) i fresh now e =
    handle_request-accounted c (record s { tasks = rest }) d fresh now
    ∙ unfold accounted in omega (arith, take_at-sum (owed_task c) i s.tasks d rest e)

stopped-accounted :
    (c : ℕ) (s : RpcServer) → accounted c (record s { stopping = true }) ≡ accounted c s
unfolding accounted
stopped-accounted c s = refl

run-accounted :
    (c : ℕ) (s : RpcServer) (es : List Event)
    → All IsAlive es
    → accounted c (run s es) ≡ accounted c s + sum_of (requested c) es
unfolding run step begin_stop sum_of
run-accounted c s [] a = omega arith
run-accounted c s (receives conn m ∷ es) a =
    omega (arith, run-accounted c (on_message s conn m) es a.1, on_message-accounted c s conn m)
run-accounted c s (executes i fresh now ∷ es) a = omega (
  arith,
  run-accounted c (execute s (take_at i s.tasks) fresh now) es a.1,
  execute-accounted c s (take_at i s.tasks) i fresh now refl,
)
run-accounted c s (finishes i status response now alive ∷ es) a = omega (
  arith,
  run-accounted c (finish s (take_at i s.running) status response now alive) es a.1,
  finish-accounted c s (take_at i s.running) i status response now alive refl a.0,
)
run-accounted c s (begins_stop ∷ es) a =
    omega (arith, run-accounted c (record s { stopping = true }) es a.1, stopped-accounted c s)

-- Over any events of a server in which no connection is gone when a handler is done, tasks run in any
-- order and a shutdown at any time: each two-way request is answered, or its task waits, or its
-- handler has not finished. Counted by request id, no request is answered twice and none is lost.
pub run-answered :
    (router : Router) (n c : ℕ) (es : List Event)
    → All IsAlive es
    → let s = run (configured router n) es in
      sum_of (owed_task c) s.tasks + sum_of (owed_running c) s.running + sum_of (answers c) s.sent
      ≡ sum_of (requested c) es
unfolding accounted
run-answered router n c es a =
    omega (arith, run-accounted c (configured router n) es a, accounted_none)
  where
    accounted_none : accounted c (configured router n) ≡ 0
    accounted_none = unfold accounted configured set_max_concurrency sum_of in refl
