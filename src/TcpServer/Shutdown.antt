-- ===== src/TcpServer/Shutdown.antt =====
-- src/TcpServer.cpp: what `stop` closes, and what it leaves behind.
use my_rpc_project.Base.{
  ℕ, ◌≡◌, refl, ap, ◌∙◌, Bool, true, false, List, [], ◌∷◌, All, ◌==◌, ◌||◌, if◌then◌else◌, arith,
}
use my_rpc_project.ThreadPool.{ThreadPool, is_alive, among}
use my_rpc_project.ThreadPool
use my_rpc_project.Acceptor.{Acceptor}
use my_rpc_project.Acceptor
use my_rpc_project.TcpServer.{
  TcpServer, Connection, Functor, removes, runs, force_closes, destroys, Dispatch, dispatch,
  set_connections, force_close_all, remove_connection_in_loop, stop, stop_in_loop, call, call_from,
  call_next,
}
use my_rpc_project.TcpServer.Serving.{IsOfPool, IsServing, IsQueued}
use my_rpc_project.TcpServer.Phases.{pool_started}
use my_rpc_project.TcpServer.Idle.{forced, force_close_tells}

force_close_all_tells :
    (s : TcpServer) (cs : List Connection)
    → All (λ (c : Connection). IsOfPool s.thread_pool c.loop) cs
    → force_close_all s cs ≡ record s { dispatched = forced (λ id. true) cs s.dispatched }
unfolding force_close_all forced dispatch is_alive
force_close_all_tells s [] a = refl
force_close_all_tells s (c ∷ cs) a =
    let told = dispatch s c.loop (force_closes c.id) in
    let closing : Bool → Dispatch =
      λ b. record { alive = b; loop = c.loop; job = force_closes c.id } in
    ap (λ t. force_close_all t cs) (force_close_tells s c a.0.apart)
    ∙ force_close_all_tells told cs a.1
    ∙ ap (λ b. record s { dispatched = forced (λ id. true) cs (closing b ∷ s.dispatched) })
        (ground (arith, a.0.inside))

-- `stop` when every connection lives on a loop of the pool.
stop_lem :
    (n : ℕ) (s : TcpServer)
    → IsServing n s
    → s.started ≡ true
    → stop s ≡ record s {
      acceptor = Acceptor.stop s.acceptor;
      thread_pool = record s.thread_pool { started = false; next = 0; loops = [] };
      connections = [];
      started = false;
      idle_check = false;
      stopping = true;
      dispatched = forced (λ id. true) s.connections s.dispatched;
    }
unfolding stop stop_in_loop ThreadPool.stop
stop_lem n s v e =
    let stopped = record s {
      started = false;
      stopping = true;
      idle_check = false;
      acceptor = Acceptor.stop s.acceptor;
    } in
    let finish : Bool → TcpServer → TcpServer = λ b t.
      if b then record t { connections = []; thread_pool = ThreadPool.stop t.thread_pool } else s in
    let close : Bool → TcpServer = λ b. record stopped {
      connections = [];
      thread_pool =
          if b
          then record s.thread_pool { started = false; next = 0; loops = [] }
          else s.thread_pool;
      dispatched = forced (λ id. true) s.connections s.dispatched;
    } in
    ap (λ b. finish b (force_close_all stopped s.connections)) e
    ∙ ap (finish true) (force_close_all_tells stopped s.connections v.listed)
    ∙ ap close (pool_started n s v e)

stop-acceptor : (a : Acceptor) → (Acceptor.stop a).listening ≡ false
unfolding Acceptor.stop
stop-acceptor a = ground arith

-- What the next call gives to a loop that is gone.
unfoldable pub given_late : List Functor → List Dispatch → List Dispatch
given_late [] ds = ds
given_late (removes c ∷ fs) ds = record { alive = false; loop = c.loop; job = destroys c.id } ∷ ds
given_late (runs task ∷ fs) ds = ds

call_from_late :
    (t : TcpServer) (p : ThreadPool) (fs : List Functor)
    → All (IsQueued p) fs
    → t.thread_pool.loops ≡ []
    → (call_from t fs).dispatched ≡ given_late fs t.dispatched
unfolding call_from call remove_connection_in_loop dispatch set_connections is_alive among
    given_late
call_from_late t p [] a none_left = refl
call_from_late t p (runs task ∷ fs) a none_left = refl
call_from_late t p (removes c ∷ fs) a none_left =
    let given : Bool → List Dispatch =
      λ b. record { alive = b; loop = c.loop; job = destroys c.id } ∷ t.dispatched in
    ap (λ loops. given ((c.loop == 0) || among c.loop loops)) none_left
    ∙ ap (λ b. given (b || false)) a.0.apart

-- `stop` of a server with loops of its own that has been started: no connection and no loop is left,
-- the acceptor does not listen, every connection has been told to close on its loop, in the order of
-- the map, while the loops were alive, and nothing is added to what the base loop has to call. Where it
-- has the removal of a closed connection to call, though, that call gives a functor to a loop that has
-- been destroyed.
pub stop-closes :
    (n : ℕ) (s : TcpServer)
    → IsServing n s
    → s.started ≡ true
    → let t = stop s in
      (t.connections ≡ [])
      × (t.thread_pool.loops ≡ [])
      × (t.acceptor.listening ≡ false)
      × (t.dispatched ≡ forced (λ id. true) s.connections s.dispatched)
      × (t.pending ≡ s.pending)
      × ((call_next t).dispatched ≡ given_late s.pending t.dispatched)
stop-closes n s v e =
    let same = stop_lem n s v e in
    let left = ap (λ (t : TcpServer). t.pending) same in
    let loops = ap (λ (t : TcpServer). t.thread_pool.loops) same in
    (
      ap (λ (t : TcpServer). t.connections) same,
      loops,
      ap (λ (t : TcpServer). t.acceptor.listening) same ∙ stop-acceptor s.acceptor,
      ap (λ (t : TcpServer). t.dispatched) same,
      left,
      unfold call_next in
          ap (λ fs. (call_from (stop s) fs).dispatched) left
          ∙ call_from_late (stop s) s.thread_pool s.pending v.queued loops,
    )
