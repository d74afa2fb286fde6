-- ===== src/Framer.antt =====
-- include/Message.h, include/RpcFramer.h and src/RpcFramer.cpp: messages to frames and back.
pub mod Bytes
pub mod Stream
pub mod Chunks
pub mod Errors
mod Tests
use my_rpc_project.Base.{
  ℕ, zero, suc, ◌+◌, ◌%◌, ◌^◌, true, false, List, [], ◌∷◌, ◌++◌, Option, none, some, length, ltb,
  if◌then◌else◌,
}
use my_rpc_project.Buffer.{Buffer}
use my_rpc_project.Buffer
use my_rpc_project.Protocol.{
  RpcHeader, k_magic, k_version, k_header_size, k_max_body_len, encode_header, decode_header,
}

pub record Message : Type 0 where
  pub header : RpcHeader
  pub body : List ℕ

-- The header that `encode` puts on the wire.
unfoldable pub stamp : Message → RpcHeader
stamp m = record m.header {
  magic = k_magic;
  version = k_version;
  body_len = length m.body % 2 ^ 32;
}

unfoldable pub encode : Message → List ℕ
encode m = if ltb k_max_body_len (length m.body) then [] else encode_header (stamp m) ++ m.body

-- How one round of the loop in `decode` ends: it returns with the buffer, or hands a message to
-- the callback and goes on.
pub data Round : Type 0 where
  returns : Buffer → Round
  delivers : Message → Buffer → Round

-- The body of a complete frame, and the buffer behind it.
take_body : ℕ → Buffer → List ℕ × Buffer
take_body body_len b = if ltb 0 body_len then Buffer.retrieve_as_string b body_len else ([], b)

unfoldable pub round : Buffer → Round
unfolding take_body
round b =
    if ltb (Buffer.readable_bytes b) k_header_size
    then returns b
    else let (header, matches) = decode_header (Buffer.peek b) in
      if matches
      then (if ltb k_max_body_len header.body_len
          then returns (Buffer.retrieve_all b)
          else if ltb (Buffer.readable_bytes b) (k_header_size + header.body_len)
          then returns b
          else let (body, rest) = take_body header.body_len (Buffer.retrieve b k_header_size) in
            delivers (record { header = header; body = body }) rest)
      else returns (Buffer.retrieve_all b)

-- The loop: the messages in the order of the callbacks, and the buffer. `none`: out of fuel.
decode_loop : ℕ → Buffer → Option (List Message × Buffer)
decode_loop zero b = none
decode_loop (suc fuel) b = elim (round b) [
  | returns c ↦ some ([], c)
  | delivers m c ↦ elim (decode_loop fuel c) [ none ↦ none | some (ms, d) ↦ some (m ∷ ms, d) ]
]

-- A round that goes on takes 32 bytes at least.
unfoldable pub decode : Buffer → Option (List Message × Buffer)
unfolding decode_loop
decode b = decode_loop (suc (Buffer.readable_bytes b)) b
