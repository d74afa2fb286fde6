-- ===== src/TcpServer/Tests.antt =====
-- Runs of the server of src/TcpServer.cpp with two loops, and with the base loop alone.
use my_rpc_project.Base.{
  ℕ, ◌<◌, ◌≡◌, refl, true, false, not, ◌&&◌, List, [], ◌∷◌, none, some, length, get_elem?, All, ◌*◌,
  ◌==◌, arith,
}
use my_rpc_project.ThreadPool.{new_loops, get_next_loop, is_alive, among}
use my_rpc_project.ThreadPool
use my_rpc_project.Acceptor.{gives, interrupted, again, handle_read, listen}
use my_rpc_project.Acceptor
use my_rpc_project.TcpServer.{
  TcpServer, Connection, removes, Dispatch, new_server, start, starting, stop, stop_in_loop,
  accept_connections, new_connection, dispatch, set_connections, erase, holds, force_close_all,
  handle_close, remove_connection, check_idle_connections, call_from, call_next,
}
use my_rpc_project.TcpServer.Events.{
  Event, starts, accepts, closes, calls, checks_idle, submits, run, close_made,
}
use my_rpc_project.TcpServer.Serving.{IsServing, IsOnce, close_made-IsServing, new_server-IsServing}
use my_rpc_project.TcpServer.Accepting.{accept_connections-IsServing}
use my_rpc_project.TcpServer.Phases.{start-IsServing}
use my_rpc_project.TcpServer.Idle.{forced, check_idle_connections-IsServing}
use my_rpc_project.TcpServer.Dangling.{any_idle, IsOpenOnBase, check_idle_connections-dangles}
use my_rpc_project.TcpServer.Runs.{run_is_serving}
use my_rpc_project.TcpServer.Shutdown.{stop-closes, given_late}

abbrev events : List Event
events =
    starts true
    ∷ accepts (gives 7 ∷ interrupted ∷ gives 8 ∷ gives 9 ∷ again ∷ [])
    ∷ closes 1
    ∷ checks_idle (λ id. id == 1)
    ∷ calls
    ∷ submits 5
    ∷ []

run_is_serving_example :
    (t : TcpServer) × (run (some (new_server 2)) events ≡ some t)
    × (t.active_connections ≡ length t.connections)
    × IsOnce t.connections
    × All (λ (d : Dispatch). d.alive ≡ true) t.dispatched
run_is_serving_example = run_is_serving 2 events (omega arith)

-- Three connections are accepted; the second one closes.
abbrev accepting : ℕ → TcpServer
accepting n = accept_connections (gives 7 ∷ gives 8 ∷ gives 9 ∷ []) (start true (new_server n)).1

abbrev second : Connection
second = record {
  id = 2;
  loop = 2;
  sockfd = 8;
  high_water_mark = 4 * 1024 * 1024;
  slow_consumer_timeout = 5000;
}

abbrev one_closed : TcpServer
one_closed = close_made (accepting 2) (get_elem? (accepting 2).made 1)

one_closed-IsServing : IsServing 2 one_closed
one_closed-IsServing =
    let positive : 0 < 2 = omega arith in
    close_made-IsServing 2 (accepting 2) (get_elem? (accepting 2).made 1) 1 refl (
      accept_connections-IsServing 2 (gives 7 ∷ gives 8 ∷ gives 9 ∷ [])
        (start true (new_server 2)).1 positive
        (start-IsServing 2 true (new_server 2) positive (new_server-IsServing 2)))

one_closed_started : one_closed.started ≡ true
unfolding close_made handle_close remove_connection accept_connections handle_read new_connection
    get_next_loop dispatch set_connections erase start starting listen ThreadPool.start new_loops
one_closed_started = refl

one_closed_pending : one_closed.pending ≡ removes second ∷ []
unfolding close_made handle_close remove_connection accept_connections handle_read new_connection
    get_next_loop dispatch set_connections erase start starting listen ThreadPool.start new_loops
one_closed_pending = refl

check_idle_connections-IsServing_example :
    (t : TcpServer) × (check_idle_connections (λ id. id == 3) one_closed ≡ some t)
    × IsServing 2 t
    × ((j : ℕ) → holds j t.connections ≡ (holds j one_closed.connections && not (j == 3)))
    × (t.dispatched ≡ forced (λ id. id == 3) one_closed.connections one_closed.dispatched)
check_idle_connections-IsServing_example =
    check_idle_connections-IsServing 2 (λ id. id == 3) one_closed one_closed-IsServing

stop-closes_example :
    let t = stop one_closed in
    (t.connections ≡ [])
    × (t.thread_pool.loops ≡ [])
    × (t.acceptor.listening ≡ false)
    × (t.dispatched ≡ forced (λ id. true) one_closed.connections one_closed.dispatched)
    × (t.pending ≡ one_closed.pending)
    × ((call_next t).dispatched ≡ given_late one_closed.pending t.dispatched)
stop-closes_example = stop-closes 2 one_closed one_closed-IsServing one_closed_started

-- All on the base loop, and the first one is idle.
on_base :
    (accepting 0).stopping ≡ false
    × IsOnce (accepting 0).connections
    × All (IsOpenOnBase (accepting 0)) (accepting 0).connections
    × (any_idle (λ id. id == 1) (accepting 0).connections ≡ true)
unfolding accept_connections handle_read new_connection get_next_loop dispatch set_connections erase
    start starting listen ThreadPool.start IsOnce IsOpenOnBase any_idle holds among
on_base =
    (refl, (refl, (refl, (refl, tt))), ((refl, refl), ((refl, refl), ((refl, refl), tt))), refl)

check_idle_connections-dangles_example : check_idle_connections (λ id. id == 1) (accepting 0) ≡ none
check_idle_connections-dangles_example =
    check_idle_connections-dangles (λ id. id == 1) (accepting 0) on_base.0 on_base.1 on_base.2
      on_base.3

-- A server that has been stopped and started again keeps a connection that is closed.
abbrev restarted : TcpServer
restarted = accept_connections (gives 7 ∷ []) (start true (stop (start true (new_server 2)).1)).1

restart_keeps_closed :
    length (call_next (close_made restarted (get_elem? restarted.made 0))).connections ≡ 1
unfolding close_made handle_close remove_connection accept_connections handle_read new_connection
    get_next_loop dispatch set_connections erase start starting listen ThreadPool.start new_loops
    stop stop_in_loop force_close_all ThreadPool.stop Acceptor.stop call_next call_from
restart_keeps_closed = refl
