-- ===== src/RpcChannel/Output.antt =====
-- src/RpcChannel.cpp, the output queue: what becomes of the frames that are written.
use my_rpc_project.Base.{
  subst, ℕ, ◌≤◌, ◌≡◌, refl, sym, ap, ◌∙◌, Bool, true, false, List, [], ◌∷◌, ◌++◌, append_assoc,
  append-nil, length, take, drop, take-append-drop, take_all, ltb, lt→ltb, le→ltb, ◌==◌,
  if◌then◌else◌, arith, inl, inr, Bool-cases, suc-==_zero, ◌⊎◌, ◌≢◌,
}
use native.Mathlib.Decide.{dec_lt}
use my_rpc_project.Protocol.{RpcHeader}
use my_rpc_project.Framer.{encode}
use my_rpc_project.RpcChannel.{RpcChannel, is_ready}
use my_rpc_project.RpcChannel.Connection.{
  Written, wrote, again, failed, flush_now, flush_output, write_now, write_frame,
}

-- What the socket has taken and what waits behind it: the byte stream of this connection so far.
pub outgoing : RpcChannel → List ℕ
outgoing ch = ch.sent ++ ch.output_queue

-- The kernel takes some of what it is given, or says EAGAIN: the answers of a connection that lives.
abbrev pub IsTaking : Written → ℕ → Type 0
IsTaking (wrote n) len = (1 ≤ n) × (n ≤ len)
IsTaking again len = Unit
IsTaking failed len = ⊥

-- A write of `n` bytes of `frame` and what is kept of it.
rest_of :
    (n : ℕ) (frame : List ℕ)
    → n ≤ length frame
    → take n frame ++ (if ltb n (length frame) then drop n frame else []) ≡ frame
rest_of n frame h = elim (dec_lt n (length frame)) [
  | yes part ↦ rw (lt→ltb _ _ part) (take-append-drop n frame)
  | no whole ↦
      rw (le→ltb n (length frame) (omega arith))
        (append-nil (take n frame) ∙ take_all n frame (omega arith))
]

bare : (ch : RpcChannel) → ch.output_queue ≡ [] → outgoing ch ≡ ch.sent
unfolding outgoing
bare ch empty = ap (λ q. ch.sent ++ q) empty ∙ append-nil ch.sent

-- A frame that finds the queue empty joins the stream as a whole, also where the kernel takes only a
-- part of it or nothing.
write_now-outgoing :
    (ch : RpcChannel) (frame : List ℕ) (w : Written)
    → ch.output_queue ≡ []
    → IsTaking w (length frame)
    → outgoing (write_now ch frame w) ≡ outgoing ch ++ frame
unfolding write_now outgoing
write_now-outgoing ch frame (wrote n) empty h =
    append_assoc ch.sent (take n frame) _
    ∙ ap (λ q. ch.sent ++ q) (rest_of n frame h.1)
    ∙ sym (ap (λ q. q ++ frame) (bare ch empty))
write_now-outgoing ch frame again empty h = sym (ap (λ q. q ++ frame) (bare ch empty))
write_now-outgoing ch frame failed empty h = absurd h

flush_now-outgoing :
    (ch : RpcChannel) (n : ℕ)
    → 1 ≤ n
    → n ≤ length ch.output_queue
    → outgoing (flush_now ch (wrote n)) ≡ outgoing ch
unfolding flush_now outgoing
flush_now-outgoing ch n lo hi = rw (lt→ltb 0 n lo) (
    append_assoc ch.sent (take n ch.output_queue) _
    ∙ ap (λ q. ch.sent ++ q) (rest_of n ch.output_queue hi))

-- EAGAIN loses what was moved out of the queue.
flush_now-again : (ch : RpcChannel) → outgoing (flush_now ch again) ≡ ch.sent
unfolding flush_now outgoing
flush_now-again ch = append-nil ch.sent

abbrev pub frame_of : RpcHeader → List ℕ → List ℕ
frame_of header body = encode (record { header = header; body = body })

-- The frame queued behind what waits.
queued : RpcChannel → List ℕ → RpcChannel
queued ch frame = record ch { output_queue = ch.output_queue ++ frame }

queued-outgoing :
    (ch : RpcChannel) (frame : List ℕ) → outgoing (queued ch frame) ≡ outgoing ch ++ frame
unfolding queued outgoing
queued-outgoing ch frame = sym (append_assoc ch.sent ch.output_queue frame)

clash : (b : Bool) → b ≡ true → b ≡ false → ⊥
clash true t f = ground arith
clash false t f = ground arith

length_zero : (xs : List ℕ) → (length xs == 0) ≡ true → xs ≡ []
length_zero [] e = refl
length_zero (x ∷ xs) e = grind arith

length_not_zero : (xs ys : List ℕ) → (length xs == 0) ≡ false → (length (xs ++ ys) == 0) ≡ false
length_not_zero [] ys e = grind arith
length_not_zero (x ∷ xs) ys e = suc-==_zero _

-- `write_frame` by the three cases of its tests.
write_frame-not_ready :
    (ch : RpcChannel) (header : RpcHeader) (body : List ℕ) (w : Written)
    → is_ready ch.state ≡ false
    → write_frame ch header body w ≡ queued ch (frame_of header body)
unfolding write_frame queued
write_frame-not_ready ch header body w r = rw r refl

write_frame-nothing_queued :
    (ch : RpcChannel) (header : RpcHeader) (body : List ℕ) (w : Written)
    → is_ready ch.state ≡ true
    → (length ch.output_queue == 0) ≡ true
    → write_frame ch header body w ≡ write_now ch (frame_of header body) w
unfolding write_frame
write_frame-nothing_queued ch header body w r q = rw (r, q) refl

write_frame-flush :
    (ch : RpcChannel) (header : RpcHeader) (body : List ℕ) (w : Written)
    → is_ready ch.state ≡ true
    → (length ch.output_queue == 0) ≡ false
    → write_frame ch header body w ≡ flush_now (queued ch (frame_of header body)) w
unfolding write_frame flush_output queued
write_frame-flush ch header body w r q =
    rw (r, q, length_not_zero ch.output_queue (frame_of header body) q) refl

flush-outgoing :
    (ch : RpcChannel) (frame : List ℕ) (w : Written)
    → IsTaking w (length (ch.output_queue ++ frame))
    → w ≢ again
    → outgoing (flush_now (queued ch frame) w) ≡ outgoing ch ++ frame
unfolding queued
flush-outgoing ch frame (wrote n) h live =
    flush_now-outgoing (queued ch frame) n h.0 h.1 ∙ queued-outgoing ch frame
flush-outgoing ch frame again h live = absurd (live refl)
flush-outgoing ch frame failed h live = absurd h

-- A frame written while the connection is not ready, or with nothing queued before it, or to a
-- socket that takes at least a byte and not more than it is given, joins the outgoing bytes whole and
-- behind all earlier ones.
pub write_frame-outgoing :
    (ch : RpcChannel) (header : RpcHeader) (body : List ℕ) (w : Written)
    → IsTaking w (length (ch.output_queue ++ frame_of header body))
    → (is_ready ch.state ≡ false) ⊎ (ch.output_queue ≡ []) ⊎ (w ≢ again)
    → outgoing (write_frame ch header body w) ≡ outgoing ch ++ frame_of header body
write_frame-outgoing ch header body w h why =
    let frame = frame_of header body in
    elim (Bool-cases (is_ready ch.state)) [
      | inr r ↦ ap outgoing (write_frame-not_ready ch header body w r) ∙ queued-outgoing ch frame
      | inl r ↦ elim (Bool-cases (length ch.output_queue == 0)) [
        | inl q ↦
            let empty = length_zero ch.output_queue q in
            ap outgoing (write_frame-nothing_queued ch header body w r q)
            ∙ write_now-outgoing ch frame w empty
                (subst (λ xs. IsTaking w (length (xs ++ frame))) empty h)
        | inr q ↦
            ap outgoing (write_frame-flush ch header body w r q)
            ∙ flush-outgoing ch frame w h (live r q why)
      ]
    ]
  where
    live :
        is_ready ch.state ≡ true
        → (length ch.output_queue == 0) ≡ false
        → (is_ready ch.state ≡ false) ⊎ (ch.output_queue ≡ []) ⊎ (w ≢ again)
        → w ≢ again
    live r q (inl n) = absurd (clash _ r n)
    live r q (inr (inl n)) = absurd (clash _ (ap (λ xs. length xs == 0) n) q)
    live r q (inr (inr n)) = n

-- Where the connection is ready and frames are queued, a write that meets EAGAIN drops the new frame
-- and all the queued ones: only what the socket took before is left.
pub write_frame-again :
    (ch : RpcChannel) (header : RpcHeader) (body : List ℕ)
    → is_ready ch.state ≡ true
    → (length ch.output_queue == 0) ≡ false
    → outgoing (write_frame ch header body again) ≡ ch.sent
unfolding queued
write_frame-again ch header body r q =
    ap outgoing (write_frame-flush ch header body again r q)
    ∙ flush_now-again (queued ch (frame_of header body))
