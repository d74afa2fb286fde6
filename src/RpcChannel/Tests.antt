-- ===== src/RpcChannel/Tests.antt =====
-- Runs of the channel of src/RpcChannel.cpp on concrete calls.
use my_rpc_project.Base.{ℕ, ◌+◌, ◌≡◌, refl, true, List, [], ◌∷◌, ◌++◌, none, some, count, arith}
use my_rpc_project.Protocol.{empty_header}
use my_rpc_project.Framer.{Message}
use my_rpc_project.RpcChannel.{
  RpcChannel, State, fresh, active, find_pending, on_call_timeout, dispatch_response, async_call,
  arm_deadline,
}
use my_rpc_project.RpcChannel.Connection.{
  again, write_frame, stop, start, do_connect, handle_connect_write, on_connected, flush_output,
}
use my_rpc_project.RpcChannel.Events.{
  Event, calls, arms, times_out, responds, starts, becomes_writable, run,
}
use my_rpc_project.RpcChannel.Connection.{in_progress}
use my_rpc_project.RpcChannel.Calls.{finished}
use my_rpc_project.RpcChannel.ExactlyOnce.{issued_of, issued_calls, run-exactly_once}
use my_rpc_project.RpcChannel.Output.{outgoing, write_frame-again}
use my_rpc_project.RpcChannel.Reuse.{late_end, stale_deadline, late_response}

abbrev answer : ℕ → List ℕ → Message
answer id body = record {
  header = record empty_header { msg_type = 1; request_id = id };
  body = body;
}

-- Three calls: one is answered, one runs into its deadline, one is left; a second answer to the first
-- finds its slot empty.
abbrev events : List Event
events =
    starts in_progress 0 again
    ∷ calls 11 50 1
    ∷ calls 12 20 2
    ∷ arms 2 2
    ∷ calls 13 0 3
    ∷ becomes_writable 0 4 again
    ∷ responds (answer 1 (5 ∷ [])) 5
    ∷ times_out 2
    ∷ responds (answer 1 (6 ∷ [])) 6
    ∷ []

abbrev one_left : RpcChannel
one_left = record fresh {
  state = State.ready;
  pending = none ∷ none ∷ some (record { id = 3; call = 13; timeout_ms = 0; start = 3 }) ∷ [];
  free_slots = 0 ∷ 1 ∷ [];
  done =
      record { call = 11; status = 0; body = 5 ∷ [] }
      ∷ record { call = 12; status = 5; body = [] }
      ∷ [];
  deadlines = record { due = 22; id = 2 } ∷ [];
  latencies = 4 ∷ [];
  socket_open = true;
  has_channel = true;
  last_received_at = 4;
}

run-events : run fresh events ≡ some one_left
unfolding run start do_connect handle_connect_write async_call arm_deadline on_connected
    dispatch_response on_call_timeout flush_output
run-events = refl

run-exactly_once_example :
    (count 11 (active one_left.pending) + finished 11 one_left.done ≡ issued_of 11 events)
    × (finished 11 (stop one_left).done ≡ issued_of 11 events)
run-exactly_once_example =
    run-exactly_once events one_left (unfold issued_calls in omega arith) run-events 11

-- A ready channel with one call in its only slot, and a byte that waits to be sent.
abbrev busy : RpcChannel
busy = record fresh {
  state = State.ready;
  pending = some (record { id = 1; call = 11; timeout_ms = 50; start = 1 }) ∷ [];
  output_queue = 42 ∷ [];
}

busy_call :
    find_pending busy.pending 1 ≡ some (record { id = 1; call = 11; timeout_ms = 50; start = 1 })
unfolding find_pending
busy_call = refl

stale_deadline_example :
    let c = dispatch_response busy (answer 1 (5 ∷ [])) 5 in
    let (id, d) = async_call c 12 1000 6 in
    (id ≡ 1)
    × (d.deadlines ≡ busy.deadlines)
    × ((on_call_timeout d id).done ≡ c.done ++ (late_end 12 ∷ []))
stale_deadline_example =
    stale_deadline busy (record { id = 1; call = 11; timeout_ms = 50; start = 1 })
      (answer 1 (5 ∷ [])) 12 1000 5 6 busy_call refl refl (omega arith) (omega arith)

late_response_example :
    let c = on_call_timeout busy 1 in
    let d = (async_call c 12 1000 52).1 in
    (c.done ≡ busy.done ++ (late_end 11 ∷ []))
    × ((dispatch_response d (answer 1 (5 ∷ [])) 53).done
        ≡ c.done ++ (record { call = 12; status = 0; body = 5 ∷ [] } ∷ []))
late_response_example =
    late_response busy (record { id = 1; call = 11; timeout_ms = 50; start = 1 })
      (answer 1 (5 ∷ [])) 12 1000 52 53 busy_call refl refl (omega arith) (omega arith)

write_frame-again_example :
    outgoing (write_frame busy (answer 1 []).header (5 ∷ []) again) ≡ busy.sent
write_frame-again_example = write_frame-again busy (answer 1 []).header (5 ∷ []) refl refl
