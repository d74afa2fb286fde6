-- ===== src/TcpServer.antt =====
-- include/TcpServer.h and src/TcpServer.cpp. A connection is its number, its name is "conn-" with that
-- number. `connections` stands for the map by name. The functors of the base loop are `pending`; what
-- is given to a loop is in `dispatched`, the last one first, with whether the loop was alive. The state
-- of a TcpConnection is here whether it is closed.
pub mod Events
pub mod Serving
pub mod Accepting
pub mod Phases
pub mod Idle
pub mod Dangling
pub mod Runs
pub mod Shutdown
mod Tests
use my_rpc_project.Base.{
  ℕ, zero, suc, ◌+◌, ◌*◌, ◌%◌, ◌^◌, Bool, true, false, List, [], ◌∷◌, ◌++◌, Option, none, some,
  length, ◌==◌, if◌then◌else◌,
}
use my_rpc_project.ThreadPool.{ThreadPool, get_next_loop, is_alive, among}
use my_rpc_project.ThreadPool
use my_rpc_project.Acceptor.{Acceptor, Accepted, handle_read, listen}
use my_rpc_project.Acceptor

pub record Connection : Type 0 where
  pub id : ℕ
  pub loop : ℕ
  pub sockfd : ℕ
  pub high_water_mark : ℕ
  pub slow_consumer_timeout : ℕ

pub data Functor : Type 0 where
  removes : (conn : Connection) → Functor
  runs : (task : ℕ) → Functor

pub data Job : Type 0 where
  establishes : (id : ℕ) → Job
  force_closes : (id : ℕ) → Job
  destroys : (id : ℕ) → Job

pub record Dispatch : Type 0 where
  pub alive : Bool
  pub loop : ℕ
  pub job : Job

pub record TcpServer : Type 0 where
  pub acceptor : Acceptor
  pub thread_pool : ThreadPool
  pub connections : List Connection
  pub started : Bool
  pub next_conn_id : ℕ
  pub idle_check : Bool
  pub stopping : Bool
  pub high_water_mark : ℕ
  pub slow_consumer_timeout : ℕ
  pub active_connections : ℕ
  pub made : List Connection
  pub closed : List ℕ
  pub pending : List Functor
  pub dispatched : List Dispatch

abbrev pub new_server : ℕ → TcpServer
new_server thread_num = record {
  acceptor = Acceptor.bound;
  thread_pool = ThreadPool.new_pool thread_num;
  connections = [];
  started = false;
  next_conn_id = 1;
  idle_check = false;
  stopping = false;
  high_water_mark = 4 * 1024 * 1024;
  slow_consumer_timeout = 5000;
  active_connections = 0;
  made = [];
  closed = [];
  pending = [];
  dispatched = [];
}

unfoldable pub dispatch : TcpServer → ℕ → Job → TcpServer
dispatch s loop job = record s {
  dispatched =
      record { alive = is_alive s.thread_pool loop; loop = loop; job = job } ∷ s.dispatched;
}

-- `connections_.erase(name)`.
unfoldable pub erase : ℕ → List Connection → List Connection
erase id [] = []
erase id (c ∷ cs) = if c.id == id then cs else c ∷ erase id cs

unfoldable pub holds : ℕ → List Connection → Bool
holds id [] = false
holds id (c ∷ cs) = if c.id == id then true else holds id cs

unfoldable pub set_connections : TcpServer → List Connection → TcpServer
set_connections s cs = record s { connections = cs; active_connections = length cs }

-- Whether it returns, and the server. `listened` is what `listen` says.
unfoldable pub starting : Bool → TcpServer → Bool × TcpServer
starting listened s =
    let (returned, acceptor) = listen listened s.acceptor in
    (
      returned,
      record s {
        started = true;
        thread_pool = ThreadPool.start s.thread_pool;
        acceptor = acceptor;
        idle_check = if returned then true else s.idle_check;
      },
    )

unfoldable pub start : Bool → TcpServer → Bool × TcpServer
start listened s = if s.started then (true, s) else starting listened s

unfoldable pub remove_connection_in_loop : TcpServer → Connection → TcpServer
remove_connection_in_loop s c =
    dispatch (set_connections s (erase c.id s.connections)) c.loop (destroys c.id)

-- Called on the loop of the connection, where `runInLoop` calls at once if that is the base loop.
unfoldable pub remove_connection : TcpServer → Connection → TcpServer
remove_connection s c =
    if s.stopping
    then s
    else if c.loop == 0
    then remove_connection_in_loop s c
    else record s { pending = s.pending ++ (removes c ∷ []) }

-- The close callback of a connection, from `TcpConnection::handleClose`.
unfoldable pub handle_close : TcpServer → Connection → TcpServer
handle_close s c = remove_connection (record s { closed = c.id ∷ s.closed }) c

unfoldable pub force_close_in_loop : TcpServer → Connection → TcpServer
force_close_in_loop s c = if among c.id s.closed then s else handle_close s c

-- `TcpConnection::forceClose`, called on the base loop.
unfoldable pub force_close : TcpServer → Connection → TcpServer
force_close s c =
    let told = dispatch s c.loop (force_closes c.id) in
    if c.loop == 0 then force_close_in_loop told c else told

unfoldable pub new_connection : ℕ → TcpServer → TcpServer
new_connection sockfd s =
    let (io_loop, pool) = get_next_loop s.thread_pool in
    let conn : Connection = record {
      id = s.next_conn_id;
      loop = io_loop;
      sockfd = sockfd;
      high_water_mark = s.high_water_mark;
      slow_consumer_timeout = s.slow_consumer_timeout;
    } in
    let taken = record s {
      thread_pool = pool;
      next_conn_id = (s.next_conn_id + 1) % 2 ^ 64;
      made = conn ∷ s.made;
    } in
    dispatch (set_connections taken (conn ∷ erase conn.id s.connections)) io_loop
      (establishes conn.id)

-- A round of the base loop in which the listening socket is readable.
unfoldable pub accept_connections : List Accepted → TcpServer → TcpServer
accept_connections answers s =
    if s.acceptor.reading then handle_read new_connection answers s else s

-- The entries that are left to visit; none is a use of an iterator to an erased entry.
unfoldable pub check_from : (ℕ → Bool) → TcpServer → List Connection → Option TcpServer
check_from idle s [] = some s
check_from idle s (c ∷ cs) =
    let told = force_close s c in
    let next = check_from idle (set_connections told (erase c.id told.connections)) cs in
    let rest = check_from idle s cs in
    if idle c.id then if holds c.id told.connections then next else none else rest

-- `idle` says which connections are idle.
unfoldable pub check_idle_connections : (ℕ → Bool) → TcpServer → Option TcpServer
check_idle_connections idle s = check_from idle s s.connections

unfoldable pub force_close_all : TcpServer → List Connection → TcpServer
force_close_all s [] = s
force_close_all s (c ∷ cs) = force_close_all (force_close s c) cs

unfoldable pub stop_in_loop : TcpServer → TcpServer
stop_in_loop s =
    let stopped = record s {
      stopping = true;
      idle_check = false;
      acceptor = Acceptor.stop s.acceptor;
    } in
    record (force_close_all stopped s.connections) { connections = [] }

-- `stop`, from the base loop or from a thread that waits for it.
unfoldable pub stop : TcpServer → TcpServer
stop s =
    let closing = stop_in_loop (record s { started = false }) in
    if s.started then record closing { thread_pool = ThreadPool.stop closing.thread_pool } else s

unfoldable pub stop_accepting : TcpServer → TcpServer
stop_accepting s = record s { acceptor = Acceptor.stop s.acceptor }

unfoldable pub set_write_high_water_mark : TcpServer → ℕ → TcpServer
set_write_high_water_mark s bytes = record s { high_water_mark = bytes }

unfoldable pub set_slow_consumer_timeout : TcpServer → ℕ → TcpServer
set_slow_consumer_timeout s timeout = record s { slow_consumer_timeout = timeout }

unfoldable pub submit_task : TcpServer → ℕ → TcpServer
submit_task s task = record s { pending = s.pending ++ (runs task ∷ []) }

unfoldable pub pending_task_size : TcpServer → ℕ
pending_task_size s = length s.pending

-- The base loop calls a functor.
unfoldable pub call : TcpServer → Functor → TcpServer
call s (removes c) = remove_connection_in_loop s c
call s (runs task) = s

unfoldable pub call_from : TcpServer → List Functor → TcpServer
call_from s [] = s
call_from s (f ∷ fs) = call (record s { pending = fs }) f

unfoldable pub call_next : TcpServer → TcpServer
call_next s = call_from s s.pending
