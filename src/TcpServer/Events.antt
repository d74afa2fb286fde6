-- ===== src/TcpServer/Events.antt =====
-- src/TcpServer.cpp: what happens to a server, in any order.
use my_rpc_project.Base.{ℕ, Bool, List, [], ◌∷◌, Option, none, some, get_elem?}
use my_rpc_project.Acceptor.{Accepted}
use my_rpc_project.TcpServer.{
  TcpServer, Connection, start, accept_connections, handle_close, call_next, check_idle_connections,
  submit_task, stop_accepting,
}

-- `closes k` is a close of the connection at place `k` of `made`.
pub data Event : Type 0 where
  starts : (listened : Bool) → Event
  accepts : (answers : List Accepted) → Event
  closes : (k : ℕ) → Event
  calls : Event
  checks_idle : (idle : ℕ → Bool) → Event
  stops_accepting : Event
  submits : (task : ℕ) → Event

unfoldable pub close_made : TcpServer → Option Connection → TcpServer
close_made s none = s
close_made s (some c) = handle_close s c

unfoldable pub step : TcpServer → Event → Option TcpServer
step s (starts listened) = some (start listened s).1
step s (accepts answers) = some (accept_connections answers s)
step s (closes k) = some (close_made s (get_elem? s.made k))
step s calls = some (call_next s)
step s (checks_idle idle) = check_idle_connections idle s
step s stops_accepting = some (stop_accepting s)
step s (submits task) = some (submit_task s task)

-- From a server, unless there is none any more.
unfoldable pub run : Option TcpServer → List Event → Option TcpServer
run none es = none
run (some s) [] = some s
run (some s) (e ∷ es) = run (step s e) es
