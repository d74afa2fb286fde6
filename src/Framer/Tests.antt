-- ===== src/Framer/Tests.antt =====
-- The framer of src/RpcFramer.cpp on concrete messages.
use my_rpc_project.Base.{
  ℕ, ◌≡◌, refl, inl, List, [], ◌∷◌, ◌++◌, map, some, replicate, arith, ◌<◌, ◌^◌, All, take, drop,
}
use my_rpc_project.Buffer
use my_rpc_project.Buffer.{Buffer}
use my_rpc_project.Protocol.{empty_header, IsWire, encode_header, decode_header}
use my_rpc_project.Framer.{Message, encode, decode, stamp}
use my_rpc_project.Framer.Bytes.{Decodes, decode-Decodes}
use my_rpc_project.Framer.Stream.{IsSendable, received, stream}
use my_rpc_project.Framer.Chunks.{feed, concat, feed-stream}
use my_rpc_project.Framer.Errors.{IsRefused, decode-refused}

abbrev hello : Message
hello = record {
  header = record empty_header { request_id = 3; trace_id = 9 };
  body = 104 ∷ 105 ∷ [];
}

abbrev ping : Message
ping = record { header = record empty_header { msg_type = 3 }; body = [] }

abbrev nothing_read : Buffer
nothing_read = record { storage = []; read_index = 0; write_index = 0 }

abbrev wire : List ℕ
wire = encode_header (stamp hello) ++ (104 ∷ 105 ∷ []) ++ encode_header (stamp ping)

abbrev chunks : List (List ℕ)
chunks = take 5 wire ∷ take 28 (drop 5 wire) ∷ drop 33 wire ∷ []

nothing_read-IsValid : Buffer.IsValid nothing_read
nothing_read-IsValid = record { ordered = omega arith; inside = omega arith }

wire_is : concat chunks ≡ stream (hello ∷ ping ∷ [])
unfolding stream encode stamp encode_header concat
wire_is = refl

sendable : All IsSendable (hello ∷ ping ∷ [])
sendable = (
  record {
    header_fits = fits 3 9 0 (omega arith) (omega arith) (omega arith);
    body_fits = omega arith;
  },
  (
    record {
      header_fits = fits 0 0 3 (omega arith) (omega arith) (omega arith);
      body_fits = omega arith;
    },
    tt,
  ),
)
  where
    fits :
        (id trace kind : ℕ)
        → id < 2 ^ 32
        → trace < 2 ^ 64
        → kind < 2 ^ 8
        → IsWire (record empty_header { request_id = id; trace_id = trace; msg_type = kind })
    fits id trace kind p q r = record {
      magic_fits = omega arith;
      version_fits = omega arith;
      flags_fits = omega arith;
      msg_type_fits = r;
      status_fits = omega arith;
      request_id_fits = p;
      method_id_fits = omega arith;
      timeout_ms_fits = omega arith;
      body_len_fits = omega arith;
      trace_id_fits = q;
      reserved_fits = omega arith;
    }

feed-stream_example :
    (c : Buffer) × (feed nothing_read chunks ≡ some (map received (hello ∷ ping ∷ []), c))
    × (Buffer.contents c ≡ [])
    × Buffer.IsValid c
feed-stream_example =
    feed-stream (hello ∷ ping ∷ []) chunks nothing_read nothing_read-IsValid
      (unfold Buffer.contents in refl) sendable wire_is

abbrev garbage : List ℕ
garbage = replicate 33 7

garbage-IsRefused : IsRefused garbage
unfolding decode_header
garbage-IsRefused = (omega arith, inl refl)

abbrev full : Buffer
full = record { storage = wire ++ garbage; read_index = 0; write_index = 99 }

full-IsValid : Buffer.IsValid full
unfolding encode_header stamp
full-IsValid = record { ordered = omega arith; inside = omega arith }

full_is : Buffer.contents full ≡ stream (hello ∷ ping ∷ []) ++ garbage
unfolding Buffer.contents stream encode stamp encode_header
full_is = refl

decode-Decodes_example : Decodes (decode full) (Buffer.contents full)
decode-Decodes_example = decode-Decodes full full-IsValid

decode-refused_example :
    (c : Buffer) × (decode full ≡ some (map received (hello ∷ ping ∷ []), c))
    × (Buffer.contents c ≡ [])
decode-refused_example =
    decode-refused (hello ∷ ping ∷ []) garbage full full-IsValid full_is sendable garbage-IsRefused
