-- ===== src/TcpServer/Accepting.antt =====
-- src/TcpServer.cpp and src/ThreadPool.cpp: new connections, and the loops they get.
use my_rpc_project.Base.{
  ℕ, zero, suc, ◌+◌, ◌%◌, ◌^◌, ◌<◌, ◌≡◌, refl, sym, ap, ap₂, subst, ◌∙◌, Bool, true, false, List,
  [], ◌∷◌, length, get_or, All, inl, inr, Bool-cases, ◌==◌, if◌then◌else◌, arith,
}
use my_rpc_project.ThreadPool.{ThreadPool, new_loops, among, get_next_loop}
use my_rpc_project.Acceptor.{Acceptor, Accepted, gives, interrupted, again, fails, handle_read}
use my_rpc_project.TcpServer.{
  TcpServer, Connection, removes, runs, establishes, dispatch, erase, set_connections,
  new_connection, accept_connections,
}
use my_rpc_project.TcpServer.Serving.{
  IsOfPool, IsOnce, IsQueued, IsPhase, before, after, IsServing, holds-erase_same, erase-IsOnce,
  All-erase, dispatch-IsServing, set_connections-IsServing,
}

among-get_or : (xs : List ℕ) (i : ℕ) → i < length xs → among (get_or xs i 0) xs ≡ true
unfolding among
among-get_or [] i h = absurd (omega arith)
among-get_or (x ∷ xs) zero h = ground arith
among-get_or (x ∷ xs) (suc i) h = ground (arith, among-get_or xs i (omega arith))

among-new_loops : (n made : ℕ) → among 0 (new_loops n made) ≡ false
unfolding among new_loops
among-new_loops zero made = refl
among-new_loops (suc n) made = ground (arith, among-new_loops n (suc made))

pub length-new_loops : (n made : ℕ) → length (new_loops n made) ≡ n
unfolding new_loops
length-new_loops zero made = refl
length-new_loops (suc n) made = ap suc (length-new_loops n (suc made))

apart_from :
    (loop : ℕ) (loops : List ℕ)
    → among loop loops ≡ true
    → among 0 loops ≡ false
    → (loop == 0) ≡ false
unfolding among
apart_from loop [] i o = absurd (grind arith)
apart_from loop (l ∷ ls) i o = ground (arith, apart_from loop ls)

get_next_loop_lem :
    (p : ThreadPool)
    → (p.num_threads == 0) ≡ false
    → (length p.loops == 0) ≡ false
    → get_next_loop p
      ≡ (get_or p.loops (p.next % length p.loops) 0, record p { next = (p.next + 1) % 2 ^ 64 })
unfolding get_next_loop
get_next_loop_lem p some_threads some_loops =
    let picked : ℕ × ThreadPool =
      (get_or p.loops (p.next % length p.loops) 0, record p { next = (p.next + 1) % 2 ^ 64 }) in
    ap₂ (λ a b. if a then (0, p) else if b then (0, p) else picked) some_threads some_loops

get_next_loop-IsOfPool :
    (n : ℕ) (b : Bool) (a : Acceptor) (p : ThreadPool)
    → 0 < n
    → a.reading ≡ true
    → IsPhase n b a p
    → IsOfPool p (get_next_loop p).0
      × IsPhase n b a (get_next_loop p).1
      × ((get_next_loop p).1.loops ≡ p.loops)
get_next_loop-IsOfPool n b a p h r before = absurd (grind arith)
get_next_loop-IsOfPool zero b a p h r (after _ next made) = absurd (omega arith)
get_next_loop-IsOfPool (suc n) b a p h r (after _ next made) =
    let loops = new_loops (suc n) 0 in
    let sized : length loops ≡ suc n = length-new_loops (suc n) 0 in
    let within : next % length loops < length loops = omega arith in
    let inside = among-get_or loops (next % length loops) within in
    let p : ThreadPool = record {
      num_threads = suc n;
      started = true;
      next = next;
      loops = loops;
      loops_made = made;
    } in
    subst
      (λ (r : ℕ × ThreadPool). IsOfPool p r.0 × IsPhase (suc n) true a r.1 × (r.1.loops ≡ p.loops))
      (sym (get_next_loop_lem p (ground arith) (ground arith)))
      (
        record {
          apart =
              apart_from (get_or loops (next % length loops) 0) loops inside
                (among-new_loops (suc n) 0);
          inside = inside;
        },
        after a ((next + 1) % 2 ^ 64) made,
        refl,
      )

pub All-map {ℓ} :
    {A : Type ℓ} {P Q : A → Type 0} (f : (x : A) → P x → Q x) (xs : List A) → All P xs → All Q xs
All-map f [] a = tt
All-map f (x ∷ xs) a = (f x a.0, All-map f xs a.1)

-- Another pool with the same loops, and one connection more.
taken-IsServing :
    (n id : ℕ) (s : TcpServer) (p : ThreadPool) (c : Connection)
    → IsPhase n s.started s.acceptor p
    → p.loops ≡ s.thread_pool.loops
    → IsOfPool s.thread_pool c.loop
    → IsServing n s
    → IsServing n (record s { thread_pool = p; next_conn_id = id; made = c ∷ s.made })
taken-IsServing n id s p c phase same i v =
    let moved : (loop : ℕ) → IsOfPool s.thread_pool loop → IsOfPool p loop =
      λ loop i. record { apart = i.apart; inside = ap (among loop) same ∙ i.inside } in
    record {
      phase = phase;
      going = v.going;
      gauge = v.gauge;
      once = v.once;
      listed = All-map (λ (c : Connection). moved c.loop) s.connections v.listed;
      known = (moved c.loop i, All-map (λ (c : Connection). moved c.loop) s.made v.known);
      queued =
          All-map
            (λ f. elim f as (λ f. IsQueued s.thread_pool f → IsQueued p f) [
              | removes c ↦ moved c.loop
              | runs task ↦ λ i. i
            ])
            s.pending v.queued;
      alive = v.alive;
    }

new_connection-IsServing :
    (n sockfd : ℕ) (s : TcpServer)
    → 0 < n
    → s.acceptor.reading ≡ true
    → IsServing n s
    → IsServing n (new_connection sockfd s)
unfolding new_connection set_connections IsOnce
new_connection-IsServing n sockfd s h r v =
    let (pooled, phase, same) =
      get_next_loop-IsOfPool n s.started s.acceptor s.thread_pool h r v.phase in
    let (io_loop, pool) = get_next_loop s.thread_pool in
    let conn : Connection = record {
      id = s.next_conn_id;
      loop = io_loop;
      sockfd = sockfd;
      high_water_mark = s.high_water_mark;
      slow_consumer_timeout = s.slow_consumer_timeout;
    } in
    let id = (s.next_conn_id + 1) % 2 ^ 64 in
    let taken = record s { thread_pool = pool; next_conn_id = id; made = conn ∷ s.made } in
    let t = taken-IsServing n id s pool conn phase same pooled v in
    let i : IsOfPool pool io_loop = t.known.0 in
    let cs = erase conn.id s.connections in
    dispatch-IsServing n (set_connections taken (conn ∷ cs)) io_loop (establishes conn.id) i (
      set_connections-IsServing n taken (conn ∷ cs)
        (holds-erase_same conn.id s.connections v.once, erase-IsOnce conn.id s.connections v.once)
        (i, All-erase (λ c. IsOfPool pool c.loop) conn.id s.connections t.listed) t)

new_connection-same : (sockfd : ℕ) (s : TcpServer) → (new_connection sockfd s).acceptor ≡ s.acceptor
unfolding new_connection dispatch set_connections
new_connection-same sockfd s = refl

handle_read-IsServing :
    (n : ℕ) (answers : List Accepted) (s : TcpServer)
    → 0 < n
    → s.acceptor.reading ≡ true
    → IsServing n s
    → IsServing n (handle_read new_connection answers s)
unfolding handle_read
handle_read-IsServing n [] s h r v = v
handle_read-IsServing n (gives connfd ∷ more) s h r v =
    handle_read-IsServing n more (new_connection connfd s) h
      (ap (λ (a : Acceptor). a.reading) (new_connection-same connfd s) ∙ r)
      (new_connection-IsServing n connfd s h r v)
handle_read-IsServing n (interrupted ∷ more) s h r v = handle_read-IsServing n more s h r v
handle_read-IsServing n (again ∷ more) s h r v = v
handle_read-IsServing n (fails ∷ more) s h r v = v

pub accept_connections-IsServing :
    (n : ℕ) (answers : List Accepted) (s : TcpServer)
    → 0 < n
    → IsServing n s
    → IsServing n (accept_connections answers s)
unfolding accept_connections
accept_connections-IsServing n answers s h v = elim (Bool-cases s.acceptor.reading) [
  | inl r ↦
      subst (λ b. IsServing n (if b then handle_read new_connection answers s else s)) (sym r)
        (handle_read-IsServing n answers s h r v)
  | inr r ↦
      subst (λ b. IsServing n (if b then handle_read new_connection answers s else s)) (sym r) v
]
