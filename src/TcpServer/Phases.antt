-- ===== src/TcpServer/Phases.antt =====
-- src/TcpServer.cpp and src/ThreadPool.cpp: starting, and to stop accepting.
use my_rpc_project.Base.{
  ℕ, ◌+◌, ◌<◌, ◌≡◌, refl, sym, subst, Bool, true, false, inl, inr, Bool-cases, ◌==◌, if◌then◌else◌,
  arith,
}
use my_rpc_project.ThreadPool.{ThreadPool, new_loops, among, is_alive, get_next_loop}
use my_rpc_project.ThreadPool
use my_rpc_project.Acceptor.{
  Acceptor, Accepted, gives, interrupted, again, fails, handle_read, listen,
}
use my_rpc_project.Acceptor
use my_rpc_project.TcpServer.{TcpServer, Connection, removes, runs, start, starting, stop_accepting}
use my_rpc_project.TcpServer.Serving.{IsOfPool, IsQueued, IsPhase, before, after, IsServing}
use my_rpc_project.TcpServer.Accepting.{All-map}

-- Another acceptor and pool.
IsPhase-IsServing :
    (n : ℕ) (s : TcpServer) (idle_check started : Bool) (a : Acceptor) (p : ThreadPool)
    → IsPhase n started a p
    → ((loop : ℕ) → IsOfPool s.thread_pool loop → IsOfPool p loop)
    → IsServing n s
    → IsServing n
        (record s { started = started; thread_pool = p; acceptor = a; idle_check = idle_check })
IsPhase-IsServing n s idle_check started a p phase moved v = record {
  phase = phase;
  going = v.going;
  gauge = v.gauge;
  once = v.once;
  listed = All-map (λ (c : Connection). moved c.loop) s.connections v.listed;
  known = All-map (λ (c : Connection). moved c.loop) s.made v.known;
  queued =
      All-map
        (λ f. elim f as (λ f. IsQueued s.thread_pool f → IsQueued p f) [
          | removes c ↦ moved c.loop
          | runs task ↦ λ i. i
        ])
        s.pending v.queued;
  alive = v.alive;
}

empty_pool : (n loop : ℕ) → ¬ IsOfPool (ThreadPool.new_pool n) loop
unfolding among
empty_pool n loop i = grind (arith, i.inside)

start-IsPhase :
    (n : ℕ) (b : Bool) (a a_next : Acceptor) (p : ThreadPool)
    → 0 < n
    → b ≡ false
    → IsPhase n b a p
    → IsPhase n true a_next (ThreadPool.start p)
      × ((loop : ℕ) → IsOfPool p loop → IsOfPool (ThreadPool.start p) loop)
unfolding ThreadPool.start
start-IsPhase n b a a_next p h e (after _ next made) = absurd (grind arith)
start-IsPhase n b a a_next p h e before =
    let started : ThreadPool = record {
      num_threads = n;
      started = true;
      next = 0;
      loops = new_loops n 0;
      loops_made = 0 + n;
    } in
    let some_threads : (n == 0) ≡ false = ground arith in
    (
      subst
          (λ b.
            IsPhase n true a_next
              (if b then record (ThreadPool.new_pool n) { started = true } else started))
          (sym some_threads) (after a_next 0 (0 + n)),
      λ loop i. absurd (empty_pool n loop i),
    )

pub start-IsServing :
    (n : ℕ) (listened : Bool) (s : TcpServer)
    → 0 < n
    → IsServing n s
    → IsServing n (start listened s).1
unfolding start
start-IsServing n listened s h v = elim (Bool-cases s.started) [
  | inl e ↦ subst (λ b. IsServing n (if b then (true, s) else starting listened s).1) (sym e) v
  | inr e ↦
      subst (λ b. IsServing n (if b then (true, s) else starting listened s).1) (sym e)
        (let (phase, moved) =
            start-IsPhase n s.started s.acceptor (listen listened s.acceptor).1 s.thread_pool h e
              v.phase in
          unfold starting in
          IsPhase-IsServing n s (if (listen listened s.acceptor).0 then true else s.idle_check) true
            (listen listened s.acceptor).1 (ThreadPool.start s.thread_pool) phase moved v)
]

stop-IsPhase :
    (n : ℕ) (b : Bool) (a : Acceptor) (p : ThreadPool)
    → IsPhase n b a p
    → IsPhase n b (Acceptor.stop a) p
unfolding Acceptor.stop
stop-IsPhase n b a p before = before
stop-IsPhase n b a p (after _ next made) = after (Acceptor.stop a) next made

pub stop_accepting-IsServing :
    (n : ℕ) (s : TcpServer) → IsServing n s → IsServing n (stop_accepting s)
unfolding stop_accepting
stop_accepting-IsServing n s v =
    IsPhase-IsServing n s s.idle_check s.started (Acceptor.stop s.acceptor) s.thread_pool
      (stop-IsPhase n s.started s.acceptor s.thread_pool v.phase) (λ loop i. i) v

pub pool_started :
    (n : ℕ) (s : TcpServer) → IsServing n s → s.started ≡ true → s.thread_pool.started ≡ true
pool_started n s v e = go s.started s.acceptor s.thread_pool v.phase e
  where
    go : (b : Bool) (a : Acceptor) (p : ThreadPool) → IsPhase n b a p → b ≡ true → p.started ≡ true
    go b a p before e = absurd (grind arith)
    go b a p (after _ next made) e = refl
