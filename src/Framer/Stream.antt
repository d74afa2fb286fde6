-- ===== src/Framer/Stream.antt =====
-- src/RpcFramer.cpp on a TCP stream: frames survive splitting and coalescing.
use my_rpc_project.Base.{
  ℕ, ◌+◌, ◌≤◌, ◌<◌, ◌≡◌, refl, sym, ap, ap₂, ◌∙◌, true, List, [], ◌∷◌, ◌++◌, map, le→ltb, length,
  take, drop, All, arith, append_assoc, take-append, drop-append, length-append,
}
use native.Mathlib.Decide.{dec_le}
use my_rpc_project.Protocol.{IsWire, k_max_body_len, encode_header, decode_header}
use my_rpc_project.Protocol.RoundTrip.{
  decode_header-encode_header, decode_header-append, length-encode_header,
}
use my_rpc_project.Framer.{Message, stamp, encode}
use my_rpc_project.Framer.Bytes.{
  stops, emits, parse_round, Parses, last, more, parse_round_full, parse_round_short,
  parse_round_partial,
}

-- A message that `encode` accepts: its header's fields fit their types and its body is not too long.
pub record IsSendable (m : Message) : Type 0 where
  pub header_fits : IsWire m.header
  pub body_fits : length m.body ≤ k_max_body_len

-- The message as the peer sees it: `encode` sets magic, version and length.
abbrev pub received : Message → Message
received m = record { header = stamp m; body = m.body }

-- What a sequence of messages puts on the wire.
unfoldable pub stream : List Message → List ℕ
stream [] = []
stream (m ∷ ms) = encode m ++ stream ms

stamp-IsWire : (m : Message) → IsSendable m → IsWire (stamp m)
unfolding stamp
stamp-IsWire m s = omega arith

encode_lem : (m : Message) → IsSendable m → encode m ≡ encode_header (stamp m) ++ m.body
unfolding encode
encode_lem m s = rw (le→ltb _ _ s.body_fits)

decode_header-stamp :
    (m : Message) (rest : List ℕ)
    → IsSendable m
    → decode_header (encode_header (stamp m) ++ rest) ≡ (stamp m, true)
decode_header-stamp m rest s =
    decode_header-encode_header (stamp m) rest (stamp-IsWire m s) ∙ unfold stamp in refl

body_len-stamp : (m : Message) → IsSendable m → (stamp m).body_len ≡ length m.body
unfolding stamp
body_len-stamp m s = omega (arith, s.body_fits)

length-encode : (m : Message) → IsSendable m → length (encode m) ≡ 32 + length m.body
length-encode m s =
    ap length (encode_lem m s)
    ∙ length-append (encode_header (stamp m)) m.body
    ∙ ap (λ n. n + length m.body) (length-encode_header (stamp m))

-- The bytes of a frame and what follows, split behind the header.
encode-append :
    (m : Message) (rest : List ℕ)
    → IsSendable m
    → encode m ++ rest ≡ encode_header (stamp m) ++ (m.body ++ rest)
encode-append m rest s =
    ap (λ bs. bs ++ rest) (encode_lem m s) ∙ append_assoc (encode_header (stamp m)) m.body rest

-- A whole frame, whatever follows it, is one message.
pub parse_round-encode :
    (m : Message) (rest : List ℕ)
    → IsSendable m
    → parse_round (encode m ++ rest) ≡ emits (received m) rest
parse_round-encode m rest s =
    let n = (stamp m).body_len in
    let size : n ≡ length m.body = body_len-stamp m s in
    let behind : drop 32 (encode m ++ rest) ≡ m.body ++ rest =
      ap (drop 32) (encode-append m rest s)
      ∙ drop-append 32 (encode_header (stamp m)) (m.body ++ rest)
          (sym (length-encode_header (stamp m))) in
    parse_round_full (encode m ++ rest) (stamp m)
      (omega (arith, length-append (encode m) rest, length-encode m s))
      (ap decode_header (encode-append m rest s) ∙ decode_header-stamp m (m.body ++ rest) s)
      (omega (arith, s.body_fits))
    ∙ ap₂ (λ body q. emits (record { header = stamp m; body = body }) q)
        (ap (take n) behind ∙ take-append n m.body rest size)
        (ap (drop n) behind ∙ drop-append n m.body rest size)

-- A proper prefix of a frame stays in the buffer.
pub parse_round-prefix :
    (m : Message) (front back rest : List ℕ)
    → IsSendable m
    → front ++ back ≡ encode m ++ rest
    → length front < length (encode m)
    → parse_round front ≡ stops front
parse_round-prefix m front back rest s e h = elim (dec_le 32 (length front)) [
  | no short ↦ parse_round_short front (omega arith)
  | yes long ↦
      parse_round_partial front (stamp m) long
        (omega (arith, length-encode m s, body_len-stamp m s))
        (sym (decode_header-append front back long)
          ∙ ap decode_header (e ∙ encode-append m rest s)
          ∙ decode_header-stamp m (m.body ++ rest) s)
        (omega (arith, s.body_fits, body_len-stamp m s))
]

-- Whole frames and a rest that waits parse to the messages and that rest.
pub stream-Parses :
    (ms : List Message) (rest : List ℕ)
    → All IsSendable ms
    → parse_round rest ≡ stops rest
    → Parses (stream ms ++ rest) (map received ms) rest
unfolding stream
stream-Parses [] rest s waits = last waits
stream-Parses (m ∷ ms) rest s waits =
    more
      (ap parse_round (append_assoc (encode m) (stream ms) rest)
        ∙ parse_round-encode m (stream ms ++ rest) s.0)
      (stream-Parses ms rest s.1 waits)
