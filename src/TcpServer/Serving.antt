-- ===== src/TcpServer/Serving.antt =====
-- src/TcpServer.cpp with loops of its own: the map, the gauge and what is given to the loops.
use my_rpc_project.Base.{
  ℕ, zero, suc, ◌≡◌, refl, sym, ap₂, subst, Bool, true, false, List, [], ◌∷◌, ◌++◌, length,
  get_elem?, Option, none, some, All, inl, inr, Bool-cases, ◌==◌, if◌then◌else◌, arith,
}
use my_rpc_project.ThreadPool.{ThreadPool, new_loops, among, is_alive, get_next_loop}
use my_rpc_project.ThreadPool
use my_rpc_project.Acceptor.{
  Acceptor, Accepted, gives, interrupted, again, fails, handle_read, listen,
}
use my_rpc_project.Acceptor
use my_rpc_project.TcpServer.{
  TcpServer, Connection, Functor, removes, runs, Job, destroys, Dispatch, dispatch, erase, holds,
  set_connections, remove_connection_in_loop, remove_connection, handle_close, call, call_from,
  submit_task, new_server,
}
use my_rpc_project.TcpServer.Events.{close_made}

-- A loop of the pool, and not the base loop.
pub record IsOfPool (p : ThreadPool) (loop : ℕ) : Type 0 where
  pub apart : (loop == 0) ≡ false
  pub inside : among loop p.loops ≡ true

-- Each name once.
unfoldable pub IsOnce : List Connection → Type 0
IsOnce [] = Unit
IsOnce (c ∷ cs) = (holds c.id cs ≡ false) × IsOnce cs

abbrev pub IsQueued : ThreadPool → Functor → Type 0
IsQueued p (removes c) = IsOfPool p c.loop
IsQueued p (runs task) = Unit

-- Before and after `start`.
pub data IsPhase (n : ℕ) : Bool → Acceptor → ThreadPool → Type 0 where
  before : IsPhase n false Acceptor.bound (ThreadPool.new_pool n)
  after :
      (a : Acceptor) (next loops_made : ℕ)
      → IsPhase n true a (record {
        num_threads = n;
        started = true;
        next = next;
        loops = new_loops n 0;
        loops_made = loops_made;
      })

pub record IsServing (n : ℕ) (s : TcpServer) : Type 0 where
  pub phase : IsPhase n s.started s.acceptor s.thread_pool
  pub going : s.stopping ≡ false
  pub gauge : s.active_connections ≡ length s.connections
  pub once : IsOnce s.connections
  pub listed : All (λ (c : Connection). IsOfPool s.thread_pool c.loop) s.connections
  pub known : All (λ (c : Connection). IsOfPool s.thread_pool c.loop) s.made
  pub queued : All (IsQueued s.thread_pool) s.pending
  pub alive : All (λ (d : Dispatch). d.alive ≡ true) s.dispatched

holds-erase : (i j : ℕ) (cs : List Connection) → holds j cs ≡ false → holds j (erase i cs) ≡ false
unfolding holds erase
holds-erase i j [] h = refl
holds-erase i j (c ∷ cs) h = ground (arith, holds-erase i j cs)

pub holds-erase_same : (i : ℕ) (cs : List Connection) → IsOnce cs → holds i (erase i cs) ≡ false
unfolding holds erase IsOnce
holds-erase_same i [] o = refl
holds-erase_same i (c ∷ cs) o = ground (arith, o.0, holds-erase_same i cs o.1)

pub erase-IsOnce : (i : ℕ) (cs : List Connection) → IsOnce cs → IsOnce (erase i cs)
unfolding erase IsOnce
erase-IsOnce i [] o = tt
erase-IsOnce i (c ∷ cs) o = elim (Bool-cases (c.id == i)) [
  | inl same ↦ rw same o.1
  | inr other ↦ rw other (holds-erase i c.id cs o.0, erase-IsOnce i cs o.1)
]

pub All-erase :
    (P : Connection → Type 0) (i : ℕ) (cs : List Connection) → All P cs → All P (erase i cs)
unfolding erase
All-erase P i [] a = tt
All-erase P i (c ∷ cs) a = elim (Bool-cases (c.id == i)) [
  | inl same ↦ rw same a.1
  | inr other ↦ rw other (a.0, All-erase P i cs a.1)
]

pub dispatch-IsServing :
    (n : ℕ) (s : TcpServer) (loop : ℕ) (job : Job)
    → IsOfPool s.thread_pool loop
    → IsServing n s
    → IsServing n (dispatch s loop job)
unfolding dispatch is_alive
dispatch-IsServing n s loop job p v = record {
  phase = v.phase;
  going = v.going;
  gauge = v.gauge;
  once = v.once;
  listed = v.listed;
  known = v.known;
  queued = v.queued;
  alive = (ground (arith, p.inside), v.alive);
}

pub set_connections-IsServing :
    (n : ℕ) (s : TcpServer) (cs : List Connection)
    → IsOnce cs
    → All (λ (c : Connection). IsOfPool s.thread_pool c.loop) cs
    → IsServing n s
    → IsServing n (set_connections s cs)
unfolding set_connections
set_connections-IsServing n s cs o a v = record {
  phase = v.phase;
  going = v.going;
  gauge = refl;
  once = o;
  listed = a;
  known = v.known;
  queued = v.queued;
  alive = v.alive;
}

pub erase-IsServing :
    (n : ℕ) (s : TcpServer) (id : ℕ)
    → IsServing n s
    → IsServing n (set_connections s (erase id s.connections))
erase-IsServing n s id v =
    set_connections-IsServing n s (erase id s.connections) (erase-IsOnce id s.connections v.once)
      (All-erase (λ c. IsOfPool s.thread_pool c.loop) id s.connections v.listed) v

remove_connection_in_loop-IsServing :
    (n : ℕ) (s : TcpServer) (c : Connection)
    → IsOfPool s.thread_pool c.loop
    → IsServing n s
    → IsServing n (remove_connection_in_loop s c)
unfolding remove_connection_in_loop set_connections
remove_connection_in_loop-IsServing n s c p v =
    dispatch-IsServing n (set_connections s (erase c.id s.connections)) c.loop (destroys c.id) p
      (erase-IsServing n s c.id v)

All-snoc {ℓ} :
    {A : Type ℓ} (P : A → Type 0) (xs : List A) (x : A) → All P xs → P x → All P (xs ++ (x ∷ []))
All-snoc P [] x a h = (h, tt)
All-snoc P (y ∷ ys) x a h = (a.0, All-snoc P ys x a.1 h)

pub handle_close_queues :
    (s : TcpServer) (c : Connection)
    → s.stopping ≡ false
    → (c.loop == 0) ≡ false
    → handle_close s c
      ≡ record s { closed = c.id ∷ s.closed; pending = s.pending ++ (removes c ∷ []) }
unfolding handle_close remove_connection
handle_close_queues s c going apart =
    let marked = record s { closed = c.id ∷ s.closed } in
    let queued = record marked { pending = s.pending ++ (removes c ∷ []) } in
    ap₂ (λ a b. if a then marked else if b then remove_connection_in_loop marked c else queued)
      going apart

handle_close-IsServing :
    (n : ℕ) (s : TcpServer) (c : Connection)
    → IsOfPool s.thread_pool c.loop
    → IsServing n s
    → IsServing n (handle_close s c)
handle_close-IsServing n s c p v =
    subst (IsServing n) (sym (handle_close_queues s c v.going p.apart)) record {
      phase = v.phase;
      going = v.going;
      gauge = v.gauge;
      once = v.once;
      listed = v.listed;
      known = v.known;
      queued = All-snoc (IsQueued s.thread_pool) s.pending (removes c) v.queued p;
      alive = v.alive;
    }

call-IsServing :
    (n : ℕ) (s : TcpServer) (f : Functor)
    → IsQueued s.thread_pool f
    → IsServing n s
    → IsServing n (call s f)
unfolding call
call-IsServing n s (removes c) p v = remove_connection_in_loop-IsServing n s c p v
call-IsServing n s (runs task) p v = v

pub call_from-IsServing :
    (n : ℕ) (s : TcpServer) (fs : List Functor)
    → All (IsQueued s.thread_pool) fs
    → IsServing n s
    → IsServing n (call_from s fs)
unfolding call_from
call_from-IsServing n s [] a v = v
call_from-IsServing n s (f ∷ fs) a v =
    call-IsServing n (record s { pending = fs }) f a.0
      record {
        phase = v.phase;
        going = v.going;
        gauge = v.gauge;
        once = v.once;
        listed = v.listed;
        known = v.known;
        queued = a.1;
        alive = v.alive;
      }

pub submit_task-IsServing :
    (n task : ℕ) (s : TcpServer) → IsServing n s → IsServing n (submit_task s task)
unfolding submit_task
submit_task-IsServing n task s v = record {
  phase = v.phase;
  going = v.going;
  gauge = v.gauge;
  once = v.once;
  listed = v.listed;
  known = v.known;
  queued = All-snoc (IsQueued s.thread_pool) s.pending (runs task) v.queued tt;
  alive = v.alive;
}

All-get_elem? {ℓ} :
    {A : Type ℓ} (P : A → Type 0) (xs : List A) (k : ℕ) (x : A)
    → All P xs
    → get_elem? xs k ≡ some x
    → P x
All-get_elem? P [] k x a e = absurd (grind arith)
All-get_elem? P (y ∷ ys) zero x a e = let same : y ≡ x = cc in subst P same a.0
All-get_elem? P (y ∷ ys) (suc k) x a e = All-get_elem? P ys k x a.1 e

pub close_made-IsServing :
    (n : ℕ) (s : TcpServer) (o : Option Connection) (k : ℕ)
    → get_elem? s.made k ≡ o
    → IsServing n s
    → IsServing n (close_made s o)
unfolding close_made
close_made-IsServing n s none k e v = v
close_made-IsServing n s (some c) k e v =
    handle_close-IsServing n s c
      (All-get_elem? (λ c. IsOfPool s.thread_pool c.loop) s.made k c v.known e) v

pub new_server-IsServing : (n : ℕ) → IsServing n (new_server n)
unfolding IsOnce
new_server-IsServing n = record {
  phase = before;
  going = refl;
  gauge = refl;
  once = tt;
  listed = tt;
  known = tt;
  queued = tt;
  alive = tt;
}
