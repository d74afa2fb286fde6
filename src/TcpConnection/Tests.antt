-- ===== src/TcpConnection/Tests.antt =====
-- Runs of the connection of src/TcpConnection.cpp on concrete messages.
use my_rpc_project.Base.{◌≡◌, refl, true, false, List, [], ◌∷◌, ◌++◌, arith}
use my_rpc_project.Buffer
use my_rpc_project.Buffer.{Buffer}
use my_rpc_project.TcpConnection.{
  TcpConnection, State, wrote, write_again, write_interrupted, shutdown, send_in_loop, send_now,
  handle_write, drained, handle_close,
}
use my_rpc_project.TcpConnection.Output.{
  outgoing, Event, sends, becomes_writable, shuts_down, closes, run, messages, run-outgoing,
}

abbrev no_bytes : Buffer
no_bytes = record { storage = []; read_index = 0; write_index = 0 }

abbrev open_connection : TcpConnection
open_connection = record {
  state = State.connected;
  input = no_bytes;
  output = no_bytes;
  sent = [];
  received = [];
  reading = true;
  writing = false;
  shut = false;
  closes = 0;
  last_active_at = 0;
  high_water_mark = 3;
  slow_consumer_timeout = 5000;
  high_water_active = false;
  evictions = [];
}

-- The first message is written in part; the second waits, passes the mark and is flushed; the third
-- comes too late.
abbrev events : List Event
events =
    sends (1 ∷ 2 ∷ 3 ∷ []) (wrote 1) 10
    ∷ sends (4 ∷ 5 ∷ []) write_again 20
    ∷ shuts_down
    ∷ becomes_writable (wrote 3 ∷ write_interrupted ∷ wrote 1 ∷ []) 30
    ∷ closes
    ∷ sends (6 ∷ []) (wrote 1) 40
    ∷ []

run-events-evictions : (run open_connection events).evictions ≡ 5020 ∷ []
unfolding run send_in_loop handle_close handle_write Buffer.readable_bytes shutdown send_now
    Buffer.append Buffer.retrieve drained Buffer.peek
run-events-evictions = refl

run-events-sent : (run open_connection events).sent ≡ 1 ∷ 2 ∷ 3 ∷ 4 ∷ 5 ∷ []
unfolding run send_in_loop handle_close handle_write Buffer.readable_bytes shutdown send_now
    Buffer.append Buffer.retrieve drained Buffer.peek
run-events-sent = refl

run-outgoing_example :
    outgoing (run open_connection events)
    ≡ outgoing open_connection ++ messages open_connection events
run-outgoing_example =
    run-outgoing open_connection events (record { ordered = omega arith; inside = omega arith })
      (omega arith, (tt, (tt, (tt, (tt, (omega arith, tt))))))
