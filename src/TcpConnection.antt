-- ===== src/TcpConnection.antt =====
-- include/TcpConnection.h and src/TcpConnection.cpp, as built for Linux.
-- System calls are arguments that say what the kernel answered, times are in milliseconds, and the
-- callbacks for messages and for the close are recorded by what they are given and how often they run.
pub mod Output
mod Tests
use my_rpc_project.Base.{
  ℕ, suc, ◌+◌, ◌-◌, Bool, true, false, not, ◌&&◌, ◌||◌, List, [], ◌∷◌, ◌++◌, Option, none, some,
  length, take, drop, ltb, leb, ◌==◌, if◌then◌else◌,
}
use my_rpc_project.Buffer.{Buffer}
use my_rpc_project.Buffer
use my_rpc_project.Framer.{Message}
use my_rpc_project.Framer

-- `enum class State`.
pub data State : Type 0 where
  connecting connected disconnecting disconnected : State

abbrev pub is_connected : State → Bool
is_connected State.connected = true
is_connected _ = false

abbrev pub is_disconnecting : State → Bool
is_disconnecting State.disconnecting = true
is_disconnecting _ = false

abbrev pub is_disconnected : State → Bool
is_disconnected State.disconnected = true
is_disconnected _ = false

-- `sent` is what the socket has taken; `evictions` the times at which a timer will look for a slow
-- consumer; `shut` tells whether `::shutdown` was called.
pub record TcpConnection : Type 0 where
  pub state : State
  pub input : Buffer
  pub output : Buffer
  pub sent : List ℕ
  pub received : List Message
  pub reading : Bool
  pub writing : Bool
  pub shut : Bool
  pub closes : ℕ
  pub last_active_at : ℕ
  pub high_water_mark : ℕ
  pub slow_consumer_timeout : ℕ
  pub high_water_active : Bool
  pub evictions : List ℕ

-- What `::write` and `::read` answer. (A write of some bytes never takes none.)
pub data Written : Type 0 where
  wrote : ℕ → Written
  write_interrupted write_again write_failed : Written

pub data Read : Type 0 where
  got : List ℕ → Read
  end_of_stream interrupted would_block failed : Read

unfoldable pub is_idle_for : TcpConnection → ℕ → ℕ → Bool
is_idle_for c timeout now = leb timeout (now - c.last_active_at)

abbrev pub touch_activity : TcpConnection → ℕ → TcpConnection
touch_activity c now = record c { last_active_at = now }

unfoldable pub connect_established : TcpConnection → ℕ → TcpConnection
connect_established c now = record c {
  state = State.connected;
  last_active_at = now;
  reading = true;
}

unfoldable pub connect_destroyed : TcpConnection → TcpConnection
connect_destroyed c =
    if is_connected c.state || is_disconnecting c.state
    then record c { state = State.disconnected; reading = false; writing = false }
    else c

-- `disableAll()` and the close callback.
unfoldable pub handle_close : TcpConnection → TcpConnection
handle_close c = record c {
  state = State.disconnected;
  reading = false;
  writing = false;
  closes = suc c.closes;
}

unfoldable pub force_close_in_loop : TcpConnection → TcpConnection
force_close_in_loop c =
    if is_connected c.state || is_disconnecting c.state then handle_close c else c

unfoldable pub shutdown_in_loop : TcpConnection → TcpConnection
shutdown_in_loop c =
    if ltb 0 (Buffer.readable_bytes c.output) || c.writing then c else record c { shut = true }

-- `shutdown()`, on the loop's thread.
unfoldable pub shutdown : TcpConnection → TcpConnection
unfolding shutdown_in_loop
shutdown c =
    if not (is_connected c.state)
    then c
    else shutdown_in_loop (record c { state = State.disconnecting })

unfoldable pub check_write_backpressure : TcpConnection → ℕ → TcpConnection
check_write_backpressure c now =
    let pending = Buffer.readable_bytes c.output in
    if ltb 0 c.high_water_mark && ltb c.high_water_mark pending
    then (if c.high_water_active then c else record c {
      high_water_active = true;
      evictions = c.evictions ++ ((now + c.slow_consumer_timeout) ∷ []);
    })
    else if pending == 0
    then record c { high_water_active = false }
    else c

-- The timer that `check_write_backpressure` sets.
unfoldable pub on_slow_consumer : TcpConnection → TcpConnection
on_slow_consumer c =
    if is_connected c.state
      && (c.high_water_active && ltb c.high_water_mark (Buffer.readable_bytes c.output))
    then handle_close c
    else record c { high_water_active = false }

-- The rest of a message is kept for later.
unfoldable pub keep : TcpConnection → List ℕ → ℕ → TcpConnection
unfolding check_write_backpressure
keep c bytes now =
    check_write_backpressure (record c { output = Buffer.append c.output bytes; writing = true })
      now

-- `sendInLoop` with nothing waiting.
unfoldable pub send_now : TcpConnection → List ℕ → Written → ℕ → TcpConnection
unfolding keep
send_now c message (wrote n) now =
    let d = record c { sent = c.sent ++ take n message } in
    if ltb n (length message) then keep d (drop n message) now else d
send_now c message write_again now = keep c message now
send_now c message write_interrupted now = c
send_now c message write_failed now = c

unfoldable pub send_in_loop : TcpConnection → List ℕ → Written → ℕ → TcpConnection
send_in_loop c message w now =
    if is_disconnected c.state
    then c
    else if Buffer.readable_bytes c.output == 0
    then send_now c message w now
    else keep c message now

-- `send`, where the caller is on the loop's thread.
unfoldable pub send : TcpConnection → List ℕ → Written → ℕ → Bool × TcpConnection
send c message w now =
    if not (is_connected c.state) then (false, c) else (true, send_in_loop c message w now)

unfoldable pub send_message : TcpConnection → Message → Written → ℕ → Bool × TcpConnection
send_message c message w now = send c (Framer.encode message) w now

-- The output buffer has been emptied.
unfoldable pub drained : TcpConnection → TcpConnection
unfolding shutdown_in_loop
drained c =
    let d = record c { high_water_active = false; writing = false } in
    if is_disconnecting c.state then shutdown_in_loop d else d

-- The loop of `handleWrite`, over what the kernel answers until it blocks.
unfoldable pub handle_write : TcpConnection → List Written → ℕ → TcpConnection
handle_write c [] now =
    if Buffer.readable_bytes c.output == 0 then record c { writing = false } else c
handle_write c (w ∷ ws) now =
    let wait = handle_write c ws now in
    if Buffer.readable_bytes c.output == 0 then record c { writing = false } else elim w [
      | wrote n ↦
          let taken = take n (take (Buffer.readable_bytes c.output) (Buffer.peek c.output)) in
          let d = record c {
            output = Buffer.retrieve c.output n;
            sent = c.sent ++ taken;
            last_active_at = now;
          } in
          let more = handle_write d ws now in
          if Buffer.readable_bytes d.output == 0 then drained d else more
      | write_interrupted ↦ wait
      | write_again ↦ c
      | write_failed ↦ c
    ]

-- The loop of `handleRead`. `none`: `decode` did not end. An error is only logged.
unfoldable pub handle_read : TcpConnection → List Read → ℕ → Option TcpConnection
handle_read c [] now = some c
handle_read c (got bytes ∷ reads) now = elim (Framer.decode (Buffer.append c.input bytes)) [
  | none ↦ none
  | some (ms, rest) ↦
      handle_read (record c { input = rest; received = c.received ++ ms; last_active_at = now })
        reads now
]
handle_read c (interrupted ∷ reads) now = handle_read c reads now
handle_read c (would_block ∷ reads) now = some c
handle_read c (end_of_stream ∷ reads) now = some (handle_close c)
handle_read c (failed ∷ reads) now = some c
