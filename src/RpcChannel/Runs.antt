-- ===== src/RpcChannel/Runs.antt =====
-- src/RpcChannel.cpp: the ledger of calls through the connection's events.
use my_rpc_project.Base.{
  ℕ, ◌+◌, ◌-◌, ◌≡◌, false, not, ◌&&◌, List, [], ◌++◌, Option, none, some, length, ◌==◌, inl, inr,
  Option-cases, if_elim, Bool-cases, ltb, leb,
}
use my_rpc_project.Protocol.{Status, RpcHeader, empty_header, k_msg_heartbeat}
use my_rpc_project.Framer.{encode}
use my_rpc_project.RpcChannel.{
  RpcChannel, State, is_closed, is_ready, is_connecting, find_pending, arm_deadline,
}
use my_rpc_project.RpcChannel.Connection.{
  Written, wrote, again, failed, Connect, socket_failed, bad_address, refused, in_progress,
  connected_at_once, flush_now, flush_output, write_frame, send_in_loop, write_now,
  on_heartbeat_tick, on_connected, do_connect, start, handle_connect_write, on_connect_timeout,
  on_reconnect,
}
use my_rpc_project.RpcChannel.Calls.{Keeps, fail_pending-Keeps, handle_close-Keeps}

module _ {issued : ℕ → ℕ} {n : ℕ} where
  pub flush_now-Keeps :
      (ch : RpcChannel) (w : Written) → Keeps issued n ch → Keeps issued n (flush_now ch w)
  unfolding flush_now
  flush_now-Keeps ch (wrote m) k = record { book = k.book }
  flush_now-Keeps ch again k = record { book = k.book }
  flush_now-Keeps ch failed k =
      handle_close-Keeps (record ch { output_queue = [] }) (record { book = k.book })

  pub flush_output-Keeps :
      (ch : RpcChannel) (w : Written) → Keeps issued n ch → Keeps issued n (flush_output ch w)
  unfolding flush_output
  flush_output-Keeps ch w k = if_elim (Keeps issued n) _ k (flush_now-Keeps ch w k)

  pub write_now-Keeps :
      (ch : RpcChannel) (frame : List ℕ) (w : Written)
      → Keeps issued n ch
      → Keeps issued n (write_now ch frame w)
  unfolding write_now
  write_now-Keeps ch frame (wrote m) k = record { book = k.book }
  write_now-Keeps ch frame again k = record { book = k.book }
  write_now-Keeps ch frame failed k = handle_close-Keeps ch k

  pub write_frame-Keeps :
      (ch : RpcChannel) (header : RpcHeader) (body : List ℕ) (w : Written)
      → Keeps issued n ch
      → Keeps issued n (write_frame ch header body w)
  unfolding write_frame
  write_frame-Keeps ch header body w k =
      let frame = encode (record { header = header; body = body }) in
      elim (Bool-cases (is_ready ch.state)) [
        | inr early ↦ rw (early, write_frame) (record { book = k.book })
        | inl ready ↦ elim (Bool-cases (length ch.output_queue == 0)) [
          | inl empty ↦ rw (ready, empty, write_frame) (write_now-Keeps ch frame w k)
          | inr more ↦
              rw (ready, more, write_frame)
                (flush_output-Keeps (record ch { output_queue = ch.output_queue ++ frame }) w
                  (record { book = k.book }))
        ]
      ]

  pub send_in_loop-Keeps :
      (ch : RpcChannel) (id method_id timeout_ms : ℕ) (body : List ℕ) (trace_id : ℕ) (w : Written)
      → Keeps issued n ch
      → Keeps issued n (send_in_loop ch id method_id timeout_ms body trace_id w)
  unfolding send_in_loop
  send_in_loop-Keeps ch id method_id timeout_ms body trace_id w k =
      elim (Bool-cases (is_closed ch.state)) [
        | inl e ↦ rw (e, send_in_loop) (fail_pending-Keeps ch id Status.unknown k)
        | inr e ↦ rw (e, send_in_loop) (write_frame-Keeps ch _ body w k)
      ]

  pub on_heartbeat_tick-Keeps :
      (ch : RpcChannel) (now : ℕ) (w : Written)
      → Keeps issued n ch
      → Keeps issued n (on_heartbeat_tick ch now w)
  unfolding on_heartbeat_tick
  on_heartbeat_tick-Keeps ch now w k = if_elim (Keeps issued n) (not (is_ready ch.state)) k (
      if_elim (Keeps issued n) (ltb (now - ch.last_received_at) ch.heartbeat_interval_ms) k (
        if_elim (Keeps issued n) (leb 2 ch.unanswered_heartbeats) (handle_close-Keeps ch k) (
          write_frame-Keeps (record ch { unanswered_heartbeats = ch.unanswered_heartbeats + 1 })
            (record empty_header { msg_type = k_msg_heartbeat; request_id = 0 }) [] w
            (record { book = k.book }))))

  pub arm_deadline-Keeps :
      (ch : RpcChannel) (id now : ℕ) → Keeps issued n ch → Keeps issued n (arm_deadline ch id now)
  unfolding arm_deadline
  arm_deadline-Keeps ch id now k = elim (Option-cases (find_pending ch.pending id)) [
    | inl e ↦ rw (e, arm_deadline) k
    | inr (pc, e) ↦
        rw (e, arm_deadline)
          (if_elim (Keeps issued n) (ltb 0 pc.timeout_ms) (record { book = k.book }) k)
  ]

-- Of a result that may be a fault.
abbrev pub After {ℓ} : (RpcChannel → Type ℓ) → Option RpcChannel → Type ℓ
After P none = Unit
After P (some ch) = P ch

module _ {issued : ℕ → ℕ} {n : ℕ} where
  pub on_connected-Keeps :
      (ch : RpcChannel) (now : ℕ) (w : Written)
      → Keeps issued n ch
      → After (Keeps issued n) (on_connected ch now w)
  unfolding on_connected
  on_connected-Keeps ch now w k =
      if_elim (After (Keeps issued n)) ch.has_channel
        (flush_output-Keeps
          (record ch { state = State.ready; last_received_at = now; unanswered_heartbeats = 0 }) w
          (record { book = k.book }))
        tt

  pub do_connect-Keeps :
      (ch : RpcChannel) (r : Connect) (now : ℕ) (w : Written)
      → Keeps issued n ch
      → After (Keeps issued n) (do_connect ch r now w)
  unfolding do_connect
  do_connect-Keeps ch socket_failed now w k = handle_close-Keeps _ (record { book = k.book })
  do_connect-Keeps ch bad_address now w k = handle_close-Keeps _ (record { book = k.book })
  do_connect-Keeps ch refused now w k = handle_close-Keeps _ (record { book = k.book })
  do_connect-Keeps ch in_progress now w k = record { book = k.book }
  do_connect-Keeps ch connected_at_once now w k =
      on_connected-Keeps _ now w (record { book = k.book })

  pub start-Keeps :
      (ch : RpcChannel) (s : State) (r : Connect) (now : ℕ) (w : Written)
      → ch.state ≡ s
      → Keeps issued n ch
      → After (Keeps issued n) (start ch r now w)
  unfolding start
  start-Keeps ch State.idle r now w e k = rw (e, start) (do_connect-Keeps ch r now w k)
  start-Keeps ch State.connecting r now w e k = rw (e, start) k
  start-Keeps ch State.ready r now w e k = rw (e, start) k
  start-Keeps ch State.closed r now w e k = rw (e, start) k

  pub handle_connect_write-Keeps :
      (ch : RpcChannel) (so_error now : ℕ) (w : Written)
      → Keeps issued n ch
      → After (Keeps issued n) (handle_connect_write ch so_error now w)
  unfolding handle_connect_write
  handle_connect_write-Keeps ch so_error now w k =
      if_elim (After (Keeps issued n)) (not (is_connecting ch.state)) k (
        if_elim (After (Keeps issued n)) (so_error == 0) (on_connected-Keeps ch now w k)
          (handle_close-Keeps ch k))

  pub on_connect_timeout-Keeps :
      (ch : RpcChannel) → Keeps issued n ch → Keeps issued n (on_connect_timeout ch)
  unfolding on_connect_timeout
  on_connect_timeout-Keeps ch k =
      if_elim (Keeps issued n) (is_connecting ch.state) (handle_close-Keeps ch k) k

  pub on_reconnect-Keeps :
      (ch : RpcChannel) (r : Connect) (now : ℕ) (w : Written)
      → Keeps issued n ch
      → After (Keeps issued n) (on_reconnect ch r now w)
  unfolding on_reconnect
  on_reconnect-Keeps ch r now w k =
      if_elim (After (Keeps issued n)) (ch.reconnect_enabled && is_closed ch.state)
        (do_connect-Keeps (record ch { reconnect_timer = false }) r now w
          (record { book = k.book }))
        (record { book = k.book })
