-- ===== src/RpcChannel/Connection.antt =====
-- src/RpcChannel.cpp, the connection: connect, write, heartbeat, close, reconnect.
use my_rpc_project.Base.{
  ℕ, ◌+◌, ◌-◌, true, false, not, ◌&&◌, ◌||◌, List, [], ◌++◌, Option, none, some, length, take, drop,
  ltb, leb, ◌==◌, if◌then◌else◌,
}
use my_rpc_project.Protocol.{RpcHeader, empty_header, Status, k_msg_request, k_msg_heartbeat}
use my_rpc_project.Framer.{encode}
use my_rpc_project.RpcChannel.{
  RpcChannel, State, is_closed, is_ready, is_connecting, active, fail_all, fail_pending,
}

-- The table is given up: every call in it finishes with `unknown`.
unfoldable pub doom : RpcChannel → RpcChannel
unfolding fail_all active
doom ch = record ch {
  pending = [];
  free_slots = [];
  done = ch.done ++ fail_all (active ch.pending);
}

unfoldable pub close_socket : RpcChannel → RpcChannel
close_socket ch = record ch { socket_open = false; has_channel = false }

-- `scheduleReconnect()`: a timer that is set already is cancelled and set anew.
unfoldable pub schedule_reconnect : RpcChannel → RpcChannel
schedule_reconnect ch = record ch { reconnect_timer = true }

unfoldable pub handle_close : RpcChannel → RpcChannel
unfolding doom close_socket schedule_reconnect
handle_close ch =
    if is_closed ch.state
    then ch
    else let c = doom (close_socket (record ch { state = State.closed })) in
      if ch.reconnect_enabled then schedule_reconnect c else c

-- The task that `stop()` runs on the loop. (The destructor does the same to the table.)
unfoldable pub stop : RpcChannel → RpcChannel
unfolding doom close_socket
stop ch = doom (
    close_socket
      (record ch { state = State.closed; reconnect_enabled = false; reconnect_timer = false }))

-- What `::write` answers: bytes taken, EAGAIN or EWOULDBLOCK, or another error.
pub data Written : Type 0 where
  wrote : ℕ → Written
  again : Written
  failed : Written

-- `flushOutput()` with something to send. The queue is moved out before the write.
unfoldable pub flush_now : RpcChannel → Written → RpcChannel
unfolding handle_close
flush_now ch (wrote n) = record ch {
  sent = ch.sent ++ take n ch.output_queue;
  output_queue = if ltb 0 n && ltb n (length ch.output_queue) then drop n ch.output_queue else [];
}
flush_now ch again = record ch { output_queue = [] }
flush_now ch failed = handle_close (record ch { output_queue = [] })

unfoldable pub flush_output : RpcChannel → Written → RpcChannel
flush_output ch w =
    if not (is_ready ch.state) || length ch.output_queue == 0 then ch else flush_now ch w

-- `writeFrame` with nothing queued before the frame.
unfoldable pub write_now : RpcChannel → List ℕ → Written → RpcChannel
unfolding handle_close
write_now ch frame (wrote n) = record ch {
  sent = ch.sent ++ take n frame;
  output_queue = if ltb n (length frame) then drop n frame else [];
}
write_now ch frame again = record ch { output_queue = frame }
write_now ch frame failed = handle_close ch

unfoldable pub write_frame : RpcChannel → RpcHeader → List ℕ → Written → RpcChannel
write_frame ch header body w =
    let frame = encode (record { header = header; body = body }) in
    let queued = record ch { output_queue = ch.output_queue ++ frame } in
    if not (is_ready ch.state)
    then queued
    else if not (length ch.output_queue == 0)
    then flush_output queued w
    else write_now ch frame w

-- The second task of `asyncCall`.
unfoldable pub send_in_loop : RpcChannel → ℕ → ℕ → ℕ → List ℕ → ℕ → Written → RpcChannel
send_in_loop ch id method_id timeout_ms body trace_id w =
    if is_closed ch.state
    then fail_pending ch id Status.unknown
    else write_frame ch
        (record empty_header {
          msg_type = k_msg_request;
          request_id = id;
          method_id = method_id;
          timeout_ms = timeout_ms;
          trace_id = trace_id;
        })
        body w

unfoldable pub on_heartbeat_tick : RpcChannel → ℕ → Written → RpcChannel
on_heartbeat_tick ch now w =
    if not (is_ready ch.state)
    then ch
    else if ltb (now - ch.last_received_at) ch.heartbeat_interval_ms
    then ch
    else if leb 2 ch.unanswered_heartbeats
    then handle_close ch
    else write_frame (record ch { unanswered_heartbeats = ch.unanswered_heartbeats + 1 })
        (record empty_header { msg_type = k_msg_heartbeat; request_id = 0 }) [] w

-- `none`: `channel_` is null and is dereferenced.
unfoldable pub on_connected : RpcChannel → ℕ → Written → Option RpcChannel
on_connected ch now w =
    if ch.has_channel
    then some (
        flush_output
          (record ch { state = State.ready; last_received_at = now; unanswered_heartbeats = 0 }) w)
    else none

-- How `socket`, `inet_pton` and `connect` end in `doConnect()`.
pub data Connect : Type 0 where
  socket_failed bad_address refused in_progress connected_at_once : Connect

unfoldable pub do_connect : RpcChannel → Connect → ℕ → Written → Option RpcChannel
do_connect ch r now w =
    let trying = record ch { state = State.connecting } in
    let opened = record trying { socket_open = true } in
    elim r [
      | socket_failed ↦ some (handle_close (record trying { socket_open = false }))
      | bad_address ↦ some (handle_close opened)
      | refused ↦ some (handle_close opened)
      | in_progress ↦ some (record opened { has_channel = true })
      | connected_at_once ↦ on_connected opened now w
    ]

-- The task of `start()`.
unfoldable pub start : RpcChannel → Connect → ℕ → Written → Option RpcChannel
start ch r now w = elim ch.state [ State.idle ↦ do_connect ch r now w | _ ↦ some ch ]

-- The socket is writable: `so_error` is what `getsockopt` gives.
unfoldable pub handle_connect_write : RpcChannel → ℕ → ℕ → Written → Option RpcChannel
handle_connect_write ch so_error now w =
    if not (is_connecting ch.state)
    then some ch
    else if so_error == 0
    then on_connected ch now w
    else some (handle_close ch)

-- The connect timer runs out.
unfoldable pub on_connect_timeout : RpcChannel → RpcChannel
unfolding handle_close
on_connect_timeout ch = if is_connecting ch.state then handle_close ch else ch

-- The reconnect timer runs out.
unfoldable pub on_reconnect : RpcChannel → Connect → ℕ → Written → Option RpcChannel
on_reconnect ch r now w =
    let fired = record ch { reconnect_timer = false } in
    if ch.reconnect_enabled && is_closed ch.state then do_connect fired r now w else some fired
