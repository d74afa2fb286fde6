-- ===== src/RpcServer.antt =====
-- include/RpcServer.h and src/RpcServer.cpp, with include/Router.h and include/ConcurrencyLimiter.h.
-- A connection and a handler are numbers. A handler that has been called stays in `running` until it
-- calls its `done`. Metrics, spans and the log are left out.
pub mod Events
pub mod Counts
pub mod Answers
mod Tests
use my_rpc_project.Base.{
  ℕ, zero, suc, ◌+◌, ◌-◌, ◌%◌, ◌^◌, Bool, true, false, not, ◌&&◌, ◌||◌, List, [], ◌∷◌, ◌++◌, Option,
  none, some, length, ltb, leb, ◌==◌, if◌then◌else◌,
}
use my_rpc_project.Protocol.{
  RpcHeader, Status, status_code, method_id_of, k_msg_request, k_msg_response, k_msg_oneway,
  k_msg_heartbeat, k_msg_heartbeat_ack,
}
use my_rpc_project.Framer.{Message}
use my_rpc_project.Serializer.{Value, null, encode}
use my_rpc_project.Serializer.Reader.{Read, exhausted, malformed, gives, decode}

-- `unordered_map`s are functions.
pub record Router : Type 0 where
  pub handlers : ℕ → Option ℕ
  pub names : ℕ → Option (List ℕ)

-- `service + "." + method`.
abbrev pub method_key : List ℕ → List ℕ → List ℕ
method_key service method = service ++ (46 ∷ method)

unfoldable pub register_method : Router → List ℕ → List ℕ → ℕ → Router
register_method r service method handler =
    let key = method_key service method in
    let id = method_id_of key in
    record {
      handlers = λ i. if i == id then some handler else r.handlers i;
      names = λ i. if i == id then some key else r.names i;
    }

-- `find`.
unfoldable pub find_method : Router → ℕ → Option ℕ
find_method r id = r.handlers id

unfoldable pub method_name : Router → ℕ → List ℕ
method_name r id = elim (r.names id) [ none ↦ [] | some name ↦ name ]

-- The semaphore; each exchange succeeds in the end, so an operation is one step.
pub record ConcurrencyLimiter : Type 0 where
  pub max : ℕ
  pub current : ℕ

unfoldable pub try_acquire : ConcurrencyLimiter → Bool × ConcurrencyLimiter
try_acquire l =
    if l.max == 0
    then (true, l)
    else if ltb l.current l.max
    then (true, record l { current = l.current + 1 })
    else (false, l)

-- `fetch_sub` on a size_t.
unfoldable pub release : ConcurrencyLimiter → ConcurrencyLimiter
release l = record l { current = (l.current + 2 ^ 64 - 1) % 2 ^ 64 }

-- A `RequestContext`, with the connection and the handler.
pub record RequestContext : Type 0 where
  pub conn : ℕ
  pub header : RpcHeader
  pub trace_id : ℕ
  pub start : ℕ
  pub handler : ℕ
  pub request : Value

-- A message on its connection: received by a task, or sent.
pub record Delivery : Type 0 where
  pub conn : ℕ
  pub message : Message

pub record RpcServer : Type 0 where
  pub router : Router
  pub limiter : Option ConcurrencyLimiter
  pub stopping : Bool
  pub inflight : ℕ
  pub tasks : List Delivery
  pub running : List RequestContext
  pub sent : List Delivery

-- A server with no method, as its constructor leaves it.
abbrev pub idle_server : RpcServer
idle_server = record {
  router = record { handlers = λ i. none; names = λ i. none };
  limiter = none;
  stopping = false;
  inflight = 0;
  tasks = [];
  running = [];
  sent = [];
}

-- `setMaxConcurrency`.
unfoldable pub set_max_concurrency : RpcServer → ℕ → RpcServer
set_max_concurrency s n = record s { limiter = some (record { max = n; current = 0 }) }

unfoldable pub release_slot : RpcServer → RpcServer
release_slot s = record s {
  limiter = elim s.limiter [ none ↦ none | some l ↦ some (release l) ];
  inflight = s.inflight - 1;
}

-- `conn->sendMessage`.
abbrev pub send_message : RpcServer → ℕ → Message → RpcServer
send_message s conn m = record s { sent = s.sent ++ (record { conn = conn; message = m } ∷ []) }

-- The header of an answer.
abbrev pub answer_header : RpcHeader → ℕ → Status → RpcHeader
answer_header h trace_id status = record h {
  trace_id = trace_id;
  msg_type = k_msg_response;
  status = status_code status;
}

unfoldable pub send_response : RpcServer → ℕ → RpcHeader → ℕ → Status → RpcServer
send_response s conn h trace_id status =
    if h.msg_type == k_msg_oneway
    then s
    else send_message s conn (record { header = answer_header h trace_id status; body = [] })

unfoldable pub on_message : RpcServer → ℕ → Message → RpcServer
unfolding send_response
on_message s conn req =
    if req.header.msg_type == k_msg_heartbeat
    then send_message s conn
        (record { header = record req.header { msg_type = k_msg_heartbeat_ack }; body = [] })
    else if req.header.msg_type == k_msg_request || req.header.msg_type == k_msg_oneway
    then (if s.stopping
        then send_response s conn req.header 0 Status.shutting_down
        else record s { tasks = s.tasks ++ (record { conn = conn; message = req } ∷ []) })
    else s

-- The limiter's answer to a new request, if there is a limiter.
unfoldable pub admit : Option ConcurrencyLimiter → Bool × Option ConcurrencyLimiter
unfolding try_acquire
admit none = (true, none)
admit (some l) = let (ok, m) = try_acquire l in (ok, some m)

-- The request, out of a body that may be empty.
unfoldable pub request_of : List ℕ → Read Value
request_of [] = gives Value.null
request_of (b ∷ bs) = decode (b ∷ bs)

-- `handleRequest` once a slot has been taken.
unfoldable pub start_request : RpcServer → Delivery → ℕ → ℕ → RpcServer
unfolding send_response release_slot request_of
start_request s d trace_id now = elim (request_of d.message.body) [
  | gives request ↦ elim (find_method s.router d.message.header.method_id) [
    | none ↦ send_response (release_slot s) d.conn d.message.header trace_id Status.method_not_found
    | some handler ↦ record s {
      running =
          s.running
          ++ (record {
            conn = d.conn;
            header = d.message.header;
            trace_id = trace_id;
            start = now;
            handler = handler;
            request = request;
          }
              ∷ []);
    }
  ]
  | _ ↦ send_response (release_slot s) d.conn d.message.header trace_id Status.serialization_error
]

-- `fresh` is the id that `generateTraceId()` gives.
unfoldable pub handle_request : RpcServer → Delivery → ℕ → ℕ → RpcServer
unfolding send_response
handle_request s d fresh now =
    let h = d.message.header in
    let trace_id = if h.trace_id == 0 then fresh else h.trace_id in
    if s.stopping
    then send_response s d.conn h trace_id Status.shutting_down
    else let (ok, limiter) = admit s.limiter in
      if ok
      then start_request (record s { limiter = limiter; inflight = s.inflight + 1 }) d trace_id now
      else send_response s d.conn h trace_id Status.concurrency_limited

-- The status that is answered when a handler is done.
abbrev pub final_status : RpcHeader → ℕ → Status → Status
final_status h latency_ms status =
    if ltb 0 h.timeout_ms && leb h.timeout_ms latency_ms then Status.deadline_exceeded else status

-- The `done` of a handler, on a connection that lives or not.
unfoldable pub on_done : RpcServer → RequestContext → Status → Value → ℕ → Bool → RpcServer
unfolding release_slot
on_done s ctx status response now alive =
    let final = final_status ctx.header (now - ctx.start) status in
    let t = release_slot s in
    if ctx.header.msg_type == k_msg_oneway
    then t
    else if alive
    then send_message t ctx.conn (record {
      header = answer_header ctx.header ctx.trace_id final;
      body = if status_code final == 0 then encode response else [];
    })
    else t

-- The first phase of `stopGracefully`.
unfoldable pub begin_stop : RpcServer → RpcServer
begin_stop s = record s { stopping = true }
