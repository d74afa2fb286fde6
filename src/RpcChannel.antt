-- ===== src/RpcChannel.antt =====
-- include/RpcChannel.h and src/RpcChannel.cpp: calls multiplexed over one connection by request id.
-- A call is a number that stands for its controller, response and callback; `done` records the
-- callbacks that have run. Times are in milliseconds. System calls are arguments that say what the
-- kernel answered.
pub mod Connection
pub mod Events
pub mod Table
pub mod Calls
pub mod Runs
pub mod ExactlyOnce
pub mod Reuse
pub mod Output
mod Tests
use my_rpc_project.Base.{
  ℕ, suc, ◌+◌, ◌-◌, ◌%◌, ◌^◌, Bool, true, false, not, ◌&&◌, List, [], ◌∷◌, ◌++◌, map, Option, none,
  some, length, set, drop, get_elem?, ltb, leb, ◌==◌, if◌then◌else◌,
}
use my_rpc_project.Buffer.{Buffer}
use my_rpc_project.Buffer
use my_rpc_project.Protocol.{
  RpcHeader, empty_header, Status, status_code, k_msg_request, k_msg_heartbeat,
}
use my_rpc_project.Framer.{Message, encode}

-- `enum class State`.
pub data State : Type 0 where
  idle connecting ready closed : State

abbrev pub is_closed : State → Bool
is_closed State.closed = true
is_closed _ = false

abbrev pub is_ready : State → Bool
is_ready State.ready = true
is_ready _ = false

abbrev pub is_connecting : State → Bool
is_connecting State.connecting = true
is_connecting _ = false

-- A `PendingCall`, with its controller's timeout.
pub record PendingCall : Type 0 where
  pub id : ℕ
  pub call : ℕ
  pub timeout_ms : ℕ
  pub start : ℕ

-- A `done` callback: the status that the controller had, and the body that was decoded into the
-- response, `[]` if none was.
pub record Completion : Type 0 where
  pub call : ℕ
  pub status : ℕ
  pub body : List ℕ

-- A timer of the loop that will run `onCallTimeout(id)`.
pub record Deadline : Type 0 where
  pub due : ℕ
  pub id : ℕ

-- `pending` and `free_slots` are `pending_` and `freeSlots_`. `sent` is what the socket has taken.
-- The latency average is a fold of `latencies`, the times that it has seen, oldest first.
pub record RpcChannel : Type 0 where
  pub state : State
  pub pending : List (Option PendingCall)
  pub free_slots : List ℕ
  pub output_queue : List ℕ
  pub sent : List ℕ
  pub done : List Completion
  pub deadlines : List Deadline
  pub latencies : List ℕ
  pub socket_open : Bool
  pub has_channel : Bool
  pub heartbeat_interval_ms : ℕ
  pub last_received_at : ℕ
  pub unanswered_heartbeats : ℕ
  pub reconnect_enabled : Bool
  pub reconnect_timer : Bool

-- A channel as its constructor leaves it.
abbrev pub fresh : RpcChannel
fresh = record {
  state = State.idle;
  pending = [];
  free_slots = [];
  output_queue = [];
  sent = [];
  done = [];
  deadlines = [];
  latencies = [];
  socket_open = false;
  has_channel = false;
  heartbeat_interval_ms = 0;
  last_received_at = 0;
  unanswered_heartbeats = 0;
  reconnect_enabled = true;
  reconnect_timer = false;
}

-- `isHealthy()`.
unfoldable pub is_healthy : RpcChannel → Bool
is_healthy ch = not (is_closed ch.state)

-- The calls in the table, by slot.
pub active : List (Option PendingCall) → List ℕ
active [] = []
active (none ∷ slots) = active slots
active (some pc ∷ slots) = pc.call ∷ active slots

-- `inflightCount()`.
unfoldable pub inflight_count : RpcChannel → ℕ
unfolding active
inflight_count ch = length (active ch.pending)

pub complete : RpcChannel → ℕ → ℕ → List ℕ → RpcChannel
complete ch call status body = record ch {
  done = ch.done ++ (record { call = call; status = status; body = body } ∷ []);
}

-- The callbacks of all the calls of a table that is given up.
pub fail_all : List ℕ → List Completion
unfolding status_code
fail_all = map λ call. record { call = call; status = status_code Status.unknown; body = [] }

-- `const size_t slot = id - 1`, over uint32_t.
abbrev pub slot_of : ℕ → ℕ
slot_of id = (id + 2 ^ 32 - 1) % 2 ^ 32

-- The entry for `id`, if its slot is in the table, in use and of that id.
pub find_pending : List (Option PendingCall) → ℕ → Option PendingCall
find_pending pending id = elim (get_elem? pending (slot_of id)) [
  | none ↦ none
  | some entry ↦ elim entry [ none ↦ none | some pc ↦ if pc.id == id then some pc else none ]
]

-- The slot is emptied and queued for reuse.
pub release_slot : RpcChannel → ℕ → RpcChannel
release_slot ch id = record ch {
  pending = set ch.pending (slot_of id) none;
  free_slots = ch.free_slots ++ (slot_of id ∷ []);
}

pub fail_pending : RpcChannel → ℕ → Status → RpcChannel
unfolding find_pending release_slot complete status_code
fail_pending ch id status = elim (find_pending ch.pending id) [
  | none ↦ ch
  | some pc ↦ complete (release_slot ch id) pc.call (status_code status) []
]

pub on_call_timeout : RpcChannel → ℕ → RpcChannel
unfolding fail_pending
on_call_timeout ch id = fail_pending ch id Status.deadline_exceeded

pub cancel_call : RpcChannel → ℕ → Status → RpcChannel
unfolding fail_pending
cancel_call ch id status = fail_pending ch id status

-- What a response does to the latency average.
pub observe_latency : RpcChannel → ℕ → ℕ → RpcChannel
observe_latency ch status elapsed =
    if status == 0 then record ch { latencies = ch.latencies ++ (elapsed ∷ []) } else ch

pub dispatch_response : RpcChannel → Message → ℕ → RpcChannel
unfolding find_pending release_slot complete observe_latency
dispatch_response ch resp now =
    let id = resp.header.request_id in
    let status = resp.header.status in
    elim (find_pending ch.pending id) [
      | none ↦ ch
      | some pc ↦
          complete (observe_latency (release_slot ch id) status (now - pc.start)) pc.call status
            (if status == 0 then resp.body else [])
    ]

-- The slot for a new call, and the table and queue without it.
pub take_slot : List (Option PendingCall) → List ℕ → ℕ × List (Option PendingCall) × List ℕ
take_slot pending [] = (length pending, pending ++ (none ∷ []), [])
take_slot pending (slot ∷ free) = (slot, pending, free)

-- The part of `asyncCall` under the lock. The tasks that it posts to the loop are `arm_deadline`
-- and `send_in_loop`.
pub async_call : RpcChannel → ℕ → ℕ → ℕ → ℕ × RpcChannel
unfolding take_slot complete status_code
async_call ch call timeout_ms now =
    if is_closed ch.state
    then (0, complete ch call (status_code Status.unknown) [])
    else let (slot, pending, free) = take_slot ch.pending ch.free_slots in
      let id = (slot + 1) % 2 ^ 32 in
      let pc : PendingCall = record {
        id = id;
        call = call;
        timeout_ms = timeout_ms;
        start = now;
      } in
      (id, record ch { pending = set pending slot (some pc); free_slots = free })

-- The first task: the controller's timeout is read through the table, and a timer is set.
pub arm_deadline : RpcChannel → ℕ → ℕ → RpcChannel
unfolding find_pending
arm_deadline ch id now = elim (find_pending ch.pending id) [
  | none ↦ ch
  | some pc ↦
      if ltb 0 pc.timeout_ms
      then record ch {
        deadlines = ch.deadlines ++ (record { due = now + pc.timeout_ms; id = id } ∷ []);
      }
      else ch
]
