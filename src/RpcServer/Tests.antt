-- ===== src/RpcServer/Tests.antt =====
-- Runs of the server of src/RpcServer.cpp on concrete messages.
use my_rpc_project.Base.{ℕ, ◌+◌, ◌≤◌, ◌≡◌, refl, ◌⊎◌, true, List, [], ◌∷◌, length, sum_of, arith}
use my_rpc_project.Protocol.{empty_header, Status, method_id_of}
use my_rpc_project.Framer.{Message}
use my_rpc_project.Serializer.{Value}
use my_rpc_project.RpcServer.{Router, idle_server, register_method}
use my_rpc_project.RpcServer.Events.{Event, receives, executes, finishes, begins_stop, run}
use my_rpc_project.RpcServer.Counts.{configured, run-limited}
use my_rpc_project.RpcServer.Answers.{owed_task, owed_running, answers, requested, run-answered}

-- One method, "a.b", with handler 7.
abbrev one_method : Router
one_method = register_method idle_server.router (97 ∷ []) (98 ∷ []) 7

abbrev request : ℕ → Message
request id = record {
  header = record empty_header { request_id = id; method_id = method_id_of (97 ∷ 46 ∷ 98 ∷ []) };
  body = [];
}

-- Two requests, of which one is refused at the limit, and a third during the shutdown.
abbrev events : List Event
events =
    receives 1 (request 5)
    ∷ receives 2 (request 6)
    ∷ executes 1 77 10
    ∷ executes 0 78 11
    ∷ begins_stop
    ∷ finishes 0 Status.ok Value.null 20 true
    ∷ receives 1 (request 7)
    ∷ []

run-limited_example :
    let s = run (configured one_method 1) events in
    (s.inflight ≡ length s.running) × ((◌≡◌ {A = ℕ} 1 0) ⊎ (length s.running ≤ 1))
run-limited_example = run-limited one_method 1 events (omega arith)

run-answered_example :
    let s = run (configured one_method 1) events in
    sum_of (owed_task 6) s.tasks + sum_of (owed_running 6) s.running + sum_of (answers 6) s.sent
    ≡ sum_of (requested 6) events
run-answered_example =
    run-answered one_method 1 6 events (tt, (tt, (tt, (tt, (tt, (refl, (tt, tt)))))))
