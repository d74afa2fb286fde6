-- ===== src/TcpServer/Runs.antt =====
-- src/TcpServer.cpp: runs of a server with loops of its own.
use my_rpc_project.Base.{
  ℕ, ◌<◌, ◌≡◌, refl, ap, ◌∙◌, true, List, [], ◌∷◌, some, get_elem?, length, All,
}
use my_rpc_project.TcpServer.{
  TcpServer, Dispatch, new_server, accept_connections, call_from, call_next, start, stop_accepting,
  submit_task,
}
use my_rpc_project.TcpServer.Events.{
  Event, close_made, starts, accepts, closes, calls, checks_idle, stops_accepting, submits, step,
  run,
}
use my_rpc_project.TcpServer.Serving.{
  IsServing, IsOnce, call_from-IsServing, submit_task-IsServing, close_made-IsServing,
  new_server-IsServing,
}
use my_rpc_project.TcpServer.Accepting.{accept_connections-IsServing}
use my_rpc_project.TcpServer.Phases.{start-IsServing, stop_accepting-IsServing}
use my_rpc_project.TcpServer.Idle.{check_idle_connections-IsServing}

step-IsServing :
    (n : ℕ) (s : TcpServer) (e : Event)
    → 0 < n
    → IsServing n s
    → (t : TcpServer) × (step s e ≡ some t) × IsServing n t
unfolding step call_next
step-IsServing n s (starts listened) h v =
    ((start listened s).1, refl, start-IsServing n listened s h v)
step-IsServing n s (accepts answers) h v =
    (accept_connections answers s, refl, accept_connections-IsServing n answers s h v)
step-IsServing n s (closes k) h v = (
  close_made s (get_elem? s.made k),
  refl,
  close_made-IsServing n s (get_elem? s.made k) k refl v,
)
step-IsServing n s calls h v =
    (call_from s s.pending, refl, call_from-IsServing n s s.pending v.queued v)
step-IsServing n s (checks_idle idle) h v =
    let (t, e, r, left, told) = check_idle_connections-IsServing n idle s v in (t, e, r)
step-IsServing n s stops_accepting h v = (stop_accepting s, refl, stop_accepting-IsServing n s v)
step-IsServing n s (submits task) h v = (submit_task s task, refl, submit_task-IsServing n task s v)

run-IsServing :
    (n : ℕ) (s : TcpServer) (es : List Event)
    → 0 < n
    → IsServing n s
    → (t : TcpServer) × (run (some s) es ≡ some t) × IsServing n t
unfolding run
run-IsServing n s [] h v = (s, refl, v)
run-IsServing n s (e ∷ es) h v =
    let (t, one, w) = step-IsServing n s e h v in
    let (u, more, x) = run-IsServing n t es h w in (u, ap (λ o. run o es) one ∙ more, x)

-- On a new server with at least one thread, after any events but a stop, in any order: the run returns;
-- the gauge is the number of connections in the map, each name is there once, and every functor was
-- given to a loop that was alive.
pub run_is_serving :
    (n : ℕ) (es : List Event)
    → 0 < n
    → (t : TcpServer) × (run (some (new_server n)) es ≡ some t)
      × (t.active_connections ≡ length t.connections)
      × IsOnce t.connections
      × All (λ (d : Dispatch). d.alive ≡ true) t.dispatched
run_is_serving n es h =
    let (t, e, v) = run-IsServing n (new_server n) es h (new_server-IsServing n) in
    (t, e, v.gauge, v.once, v.alive)
