-- ===== src/RpcChannel/Events.antt =====
-- src/RpcChannel.cpp, what the loop and the callers make of a channel: reads, and runs of events.
use my_rpc_project.Base.{ℕ, List, [], ◌∷◌, Option, none, some}
use my_rpc_project.Buffer.{Buffer}
use my_rpc_project.Buffer
use my_rpc_project.Protocol.{Status}
use my_rpc_project.Framer.{Message, decode}
use my_rpc_project.RpcChannel.{
  RpcChannel, on_call_timeout, cancel_call, dispatch_response, async_call, arm_deadline,
}
use my_rpc_project.RpcChannel.Connection.{
  Written, Connect, handle_close, stop, send_in_loop, on_heartbeat_tick, start,
  handle_connect_write, on_connect_timeout, on_reconnect,
}

-- What `::read` answers: bytes, the end of the stream, EINTR, EAGAIN or another error.
pub data Read : Type 0 where
  got : List ℕ → Read
  end_of_stream interrupted would_block failed : Read

-- The callback of `decode`, for each message.
unfoldable pub dispatch_all : RpcChannel → List Message → ℕ → RpcChannel
dispatch_all ch [] now = ch
dispatch_all ch (m ∷ ms) now = dispatch_all (dispatch_response ch m now) ms now

-- The loop of `handleRead()`. `none`: `decode` did not end.
unfoldable pub read_loop : RpcChannel → Buffer → List Read → ℕ → Option (RpcChannel × Buffer)
unfolding dispatch_all
read_loop ch input [] now = some (ch, input)
read_loop ch input (got bytes ∷ reads) now = elim (decode (Buffer.append input bytes)) [
  | none ↦ none
  | some (ms, rest) ↦ read_loop (dispatch_all ch ms now) rest reads now
]
read_loop ch input (interrupted ∷ reads) now = read_loop ch input reads now
read_loop ch input (would_block ∷ reads) now = some (ch, input)
read_loop ch input (end_of_stream ∷ reads) now = some (handle_close ch, input)
read_loop ch input (failed ∷ reads) now = some (handle_close ch, input)

unfoldable pub handle_read : RpcChannel → Buffer → List Read → ℕ → Option (RpcChannel × Buffer)
unfolding read_loop
handle_read ch input reads now =
    read_loop (record ch { last_received_at = now; unanswered_heartbeats = 0 }) input reads now

-- What happens to a channel, on whichever thread.
pub data Event : Type 0 where
  calls : (call timeout_ms now : ℕ) → Event
  arms : (id now : ℕ) → Event
  sends : (id method_id timeout_ms : ℕ) → List ℕ → (trace_id : ℕ) → Written → Event
  times_out : (id : ℕ) → Event
  cancels : (id : ℕ) → Status → Event
  responds : Message → (now : ℕ) → Event
  ticks : (now : ℕ) → Written → Event
  closes stops connect_times_out : Event
  starts : Connect → (now : ℕ) → Written → Event
  becomes_writable : (so_error now : ℕ) → Written → Event
  reconnects : Connect → (now : ℕ) → Written → Event

unfoldable pub step : RpcChannel → Event → Option RpcChannel
step ch (calls call timeout_ms now) = some (async_call ch call timeout_ms now).1
step ch (arms id now) = some (arm_deadline ch id now)
step ch (sends id method_id timeout_ms body trace_id w) =
    some (send_in_loop ch id method_id timeout_ms body trace_id w)
step ch (times_out id) = some (on_call_timeout ch id)
step ch (cancels id status) = some (cancel_call ch id status)
step ch (responds m now) = some (dispatch_response ch m now)
step ch (ticks now w) = some (on_heartbeat_tick ch now w)
step ch closes = some (handle_close ch)
step ch stops = some (stop ch)
step ch connect_times_out = some (on_connect_timeout ch)
step ch (starts r now w) = start ch r now w
step ch (becomes_writable so_error now w) = handle_connect_write ch so_error now w
step ch (reconnects r now w) = on_reconnect ch r now w

unfoldable pub run : RpcChannel → List Event → Option RpcChannel
unfolding step
run ch [] = some ch
run ch (e ∷ es) = elim (step ch e) [ none ↦ none | some c ↦ run c es ]
