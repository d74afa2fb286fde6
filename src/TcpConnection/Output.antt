-- ===== src/TcpConnection/Output.antt =====
-- src/TcpConnection.cpp, the output buffer: what becomes of the messages that are sent.
use my_rpc_project.Base.{
  ℕ, ◌≤◌, ◌≡◌, refl, sym, ap, subst, ◌∙◌, true, false, not, ◌&&◌, ◌||◌, List, [], ◌∷◌, ◌++◌, All,
  append_assoc, append-nil, length, take, drop, take-append-drop, take_all, ltb, ltb→le, ◌==◌,
  if◌then◌else◌, arith, inl, inr, Bool-cases, if_elim,
}
use my_rpc_project.Buffer.{Buffer}
use my_rpc_project.Buffer
use my_rpc_project.Buffer.Contents.{
  length-contents, append-IsValid, contents-append, retrieve-IsValid, contents-retrieve,
}
use my_rpc_project.TcpConnection.{
  TcpConnection, State, is_connected, is_disconnecting, is_disconnected, Written, wrote,
  write_interrupted, write_again, write_failed, handle_close, force_close_in_loop, shutdown_in_loop,
  shutdown, check_write_backpressure, on_slow_consumer, keep, send_now, send_in_loop, drained,
  handle_write, connect_established, connect_destroyed,
}

-- The bytes of this connection so far: those that the socket has taken and those that wait.
unfoldable pub outgoing : TcpConnection → List ℕ
outgoing c = c.sent ++ Buffer.contents c.output

-- The output buffer is in order and the connection's bytes are `s`.
pub record Carries (s : List ℕ) (c : TcpConnection) : Type 0 where
  pub valid : Buffer.IsValid c.output
  pub stream : c.sent ++ Buffer.contents c.output ≡ s

check-Carries :
    (s : List ℕ) (c : TcpConnection) (now : ℕ)
    → Carries s c
    → Carries s (check_write_backpressure c now)
unfolding check_write_backpressure
check-Carries s c now k =
    if_elim (Carries s)
      (ltb 0 c.high_water_mark && ltb c.high_water_mark (Buffer.readable_bytes c.output))
      (if_elim (Carries s) c.high_water_active k (record { valid = k.valid; stream = k.stream }))
      (if_elim (Carries s) (Buffer.readable_bytes c.output == 0)
        (record { valid = k.valid; stream = k.stream }) k)

keep-Carries :
    (s : List ℕ) (c : TcpConnection) (bytes : List ℕ) (now : ℕ)
    → Carries s c
    → Carries (s ++ bytes) (keep c bytes now)
unfolding keep
keep-Carries s c bytes now k =
    check-Carries (s ++ bytes) (record c { output = Buffer.append c.output bytes; writing = true })
      now
      (record {
        valid = append-IsValid c.output bytes k.valid;
        stream =
            ap (λ q. c.sent ++ q) (contents-append c.output bytes k.valid)
            ∙ sym (append_assoc c.sent (Buffer.contents c.output) bytes)
            ∙ ap (λ q. q ++ bytes) k.stream;
      })

-- Nothing waits in a buffer that has nothing to read.
contents_nil :
    (b : Buffer) → Buffer.IsValid b → (Buffer.readable_bytes b == 0) ≡ true → Buffer.contents b ≡ []
contents_nil b v e = go (Buffer.contents b) (ground (arith, length-contents b v))
  where
    go : (xs : List ℕ) → length xs ≡ 0 → xs ≡ []
    go [] h = refl
    go (x ∷ xs) h = absurd (omega arith)

-- The answers of `::write` to a message: some of its bytes, or EAGAIN.
abbrev pub IsTaking : Written → ℕ → Type 0
IsTaking (wrote n) len = n ≤ len
IsTaking write_again len = Unit
IsTaking _ len = ⊥

direct-Carries :
    (s : List ℕ) (c : TcpConnection) (bytes : List ℕ)
    → Buffer.contents c.output ≡ []
    → Carries s c
    → Carries (s ++ bytes) (record c { sent = c.sent ++ bytes })
direct-Carries s c bytes e k = record {
  valid = k.valid;
  stream =
      ap (λ q. (c.sent ++ bytes) ++ q) e
      ∙ append-nil (c.sent ++ bytes)
      ∙ ap (λ q. q ++ bytes) (sym (append-nil c.sent) ∙ ap (λ q. c.sent ++ q) (sym e) ∙ k.stream);
}

send_now-Carries :
    (s : List ℕ) (c : TcpConnection) (message : List ℕ) (w : Written) (now : ℕ)
    → IsTaking w (length message)
    → Buffer.contents c.output ≡ []
    → Carries s c
    → Carries (s ++ message) (send_now c message w now)
unfolding send_now
send_now-Carries s c message (wrote n) now h e k =
    let d = direct-Carries s c (take n message) e k in
    elim (Bool-cases (ltb n (length message))) [
      | inl part ↦ rw part (
          subst
            (λ t.
              Carries t (keep (record c { sent = c.sent ++ take n message }) (drop n message) now))
            (append_assoc s (take n message) (drop n message)
              ∙ ap (λ t. s ++ t) (take-append-drop n message))
            (keep-Carries (s ++ take n message) (record c { sent = c.sent ++ take n message })
              (drop n message) now d))
      | inr whole ↦ rw whole (
          subst (λ t. Carries (s ++ t) (record c { sent = c.sent ++ take n message }))
            (take_all n message (ltb→le n (length message) whole)) d)
    ]
send_now-Carries s c message write_again now h e k = keep-Carries s c message now k
send_now-Carries s c message write_interrupted now h e k = absurd h
send_now-Carries s c message write_failed now h e k = absurd h

-- What a message adds to the connection's bytes.
abbrev pub joins : TcpConnection → List ℕ → List ℕ
joins c message = if is_disconnected c.state then [] else message

send_in_loop-Carries :
    (s : List ℕ) (c : TcpConnection) (message : List ℕ) (w : Written) (now : ℕ)
    → IsTaking w (length message)
    → Carries s c
    → Carries (s ++ joins c message) (send_in_loop c message w now)
unfolding send_in_loop
send_in_loop-Carries s c message w now h k = elim (Bool-cases (is_disconnected c.state)) [
  | inl gone ↦ rw gone (subst (λ t. Carries t c) (sym (append-nil s)) k)
  | inr here ↦ rw here (elim (Bool-cases (Buffer.readable_bytes c.output == 0)) [
    | inl empty ↦
        rw empty (send_now-Carries s c message w now h (contents_nil c.output k.valid empty) k)
    | inr waits ↦ rw waits (keep-Carries s c message now k)
  ])
]

shutdown_in_loop-Carries :
    (s : List ℕ) (c : TcpConnection) → Carries s c → Carries s (shutdown_in_loop c)
unfolding shutdown_in_loop
shutdown_in_loop-Carries s c k =
    if_elim (Carries s) (ltb 0 (Buffer.readable_bytes c.output) || c.writing) k
      (record { valid = k.valid; stream = k.stream })

drained-Carries : (s : List ℕ) (c : TcpConnection) → Carries s c → Carries s (drained c)
unfolding drained
drained-Carries s c k =
    let d : TcpConnection = record c { high_water_active = false; writing = false } in
    let kept : Carries s d = record { valid = k.valid; stream = k.stream } in
    if_elim (Carries s) (is_disconnecting c.state) (shutdown_in_loop-Carries s d kept) kept

-- What `::write` takes of the buffer goes over to the socket.
written : TcpConnection → ℕ → ℕ → TcpConnection
written c n now = record c {
  output = Buffer.retrieve c.output n;
  sent = c.sent ++ take n (Buffer.contents c.output);
  last_active_at = now;
}

written-Carries :
    (s : List ℕ) (c : TcpConnection) (n now : ℕ) → Carries s c → Carries s (written c n now)
unfolding written
written-Carries s c n now k = record {
  valid = retrieve-IsValid c.output n k.valid;
  stream =
      ap (λ q. (c.sent ++ take n (Buffer.contents c.output)) ++ q)
        (contents-retrieve c.output n k.valid)
      ∙ append_assoc c.sent (take n (Buffer.contents c.output)) (drop n (Buffer.contents c.output))
      ∙ ap (λ q. c.sent ++ q) (take-append-drop n (Buffer.contents c.output))
      ∙ k.stream;
}

handle_write-Carries :
    (s : List ℕ) (c : TcpConnection) (ws : List Written) (now : ℕ)
    → Carries s c
    → Carries s (handle_write c ws now)
unfolding handle_write Buffer.contents Buffer.peek Buffer.readable_bytes
handle_write-Carries s c [] now k =
    if_elim (Carries s) (Buffer.readable_bytes c.output == 0)
      (record { valid = k.valid; stream = k.stream }) k
handle_write-Carries s c (wrote n ∷ ws) now k =
    let d : TcpConnection = record c {
      output = Buffer.retrieve c.output n;
      sent = c.sent ++ take n (Buffer.contents c.output);
      last_active_at = now;
    } in
    let kept : Carries s d = unfold written in written-Carries s c n now k in
    if_elim (Carries s) (Buffer.readable_bytes c.output == 0)
      (record { valid = k.valid; stream = k.stream })
      (if_elim (Carries s) (Buffer.readable_bytes d.output == 0) (drained-Carries s d kept)
        (handle_write-Carries s d ws now kept))
handle_write-Carries s c (write_interrupted ∷ ws) now k =
    if_elim (Carries s) (Buffer.readable_bytes c.output == 0)
      (record { valid = k.valid; stream = k.stream }) (handle_write-Carries s c ws now k)
handle_write-Carries s c (write_again ∷ ws) now k =
    if_elim (Carries s) (Buffer.readable_bytes c.output == 0)
      (record { valid = k.valid; stream = k.stream }) k
handle_write-Carries s c (write_failed ∷ ws) now k =
    if_elim (Carries s) (Buffer.readable_bytes c.output == 0)
      (record { valid = k.valid; stream = k.stream }) k

-- What happens to a connection on its loop.
pub data Event : Type 0 where
  sends : List ℕ → Written → (now : ℕ) → Event
  becomes_writable : List Written → (now : ℕ) → Event
  shuts_down closes force_closes looks_for_slow_consumer is_destroyed : Event
  is_established : (now : ℕ) → Event

unfoldable pub step : TcpConnection → Event → TcpConnection
step c (sends message w now) = send_in_loop c message w now
step c (becomes_writable ws now) = handle_write c ws now
step c shuts_down = shutdown c
step c closes = handle_close c
step c force_closes = force_close_in_loop c
step c looks_for_slow_consumer = on_slow_consumer c
step c is_destroyed = connect_destroyed c
step c (is_established now) = connect_established c now

unfoldable pub run : TcpConnection → List Event → TcpConnection
unfolding step
run c [] = c
run c (e ∷ es) = run (step c e) es

-- The messages of the events, in order, less those that are sent once the connection is closed.
unfoldable pub messages : TcpConnection → List Event → List ℕ
unfolding step
messages c [] = []
messages c (sends message w now ∷ es) =
    joins c message ++ messages (send_in_loop c message w now) es
messages c (e ∷ es) = messages (step c e) es

-- A message that finds the buffer empty is written at once, and the kernel takes it or blocks.
abbrev pub IsLive : Event → Type 0
IsLive (sends message w now) = IsTaking w (length message)
IsLive _ = Unit

closed-Carries : (s : List ℕ) (c : TcpConnection) → Carries s c → Carries s (handle_close c)
unfolding handle_close
closed-Carries s c k = record { valid = k.valid; stream = k.stream }

run-Carries :
    (s : List ℕ) (c : TcpConnection) (es : List Event)
    → All IsLive es
    → Carries s c
    → Carries (s ++ messages c es) (run c es)
unfolding run messages step shutdown force_close_in_loop on_slow_consumer connect_destroyed
    connect_established
run-Carries s c [] a k = subst (λ t. Carries t c) (sym (append-nil s)) k
run-Carries s c (sends message w now ∷ es) a k =
    let d = send_in_loop c message w now in
    subst (λ t. Carries t (run d es)) (append_assoc s (joins c message) (messages d es))
      (run-Carries (s ++ joins c message) d es a.1 (send_in_loop-Carries s c message w now a.0 k))
run-Carries s c (becomes_writable ws now ∷ es) a k =
    run-Carries s (handle_write c ws now) es a.1 (handle_write-Carries s c ws now k)
run-Carries s c (shuts_down ∷ es) a k = run-Carries s (shutdown c) es a.1 (
    if_elim (Carries s) (not (is_connected c.state)) k (
      shutdown_in_loop-Carries s (record c { state = State.disconnecting })
        (record { valid = k.valid; stream = k.stream })))
run-Carries s c (closes ∷ es) a k = run-Carries s (handle_close c) es a.1 (closed-Carries s c k)
run-Carries s c (force_closes ∷ es) a k = run-Carries s (force_close_in_loop c) es a.1 (
    if_elim (Carries s) (is_connected c.state || is_disconnecting c.state) (closed-Carries s c k) k)
run-Carries s c (looks_for_slow_consumer ∷ es) a k = run-Carries s (on_slow_consumer c) es a.1 (
    if_elim (Carries s)
      (is_connected c.state
        && (c.high_water_active && ltb c.high_water_mark (Buffer.readable_bytes c.output)))
      (closed-Carries s c k) (record { valid = k.valid; stream = k.stream }))
run-Carries s c (is_destroyed ∷ es) a k = run-Carries s (connect_destroyed c) es a.1 (
    if_elim (Carries s) (is_connected c.state || is_disconnecting c.state)
      (record { valid = k.valid; stream = k.stream }) k)
run-Carries s c (is_established now ∷ es) a k =
    run-Carries s (connect_established c now) es a.1 (record { valid = k.valid; stream = k.stream })

-- Over any events of a connection whose output buffer is in order, with a kernel that takes any part
-- of what it is given or blocks: what the socket has taken, followed by what waits, is what it was
-- before followed by all the messages, each whole and in the order in which they were sent, except
-- those that were sent after the connection was closed.
pub run-outgoing :
    (c : TcpConnection) (es : List Event)
    → Buffer.IsValid c.output
    → All IsLive es
    → outgoing (run c es) ≡ outgoing c ++ messages c es
unfolding outgoing
run-outgoing c es v a =
    (run-Carries (outgoing c) c es a (record { valid = v; stream = refl })).stream
