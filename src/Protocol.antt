-- ===== src/Protocol.antt =====
-- include/Protocol.h: the 32-byte frame header, its codec in network byte order, and the hash of
-- method names. A field is the number that its C type holds; a byte is a number below 256.
pub mod RoundTrip
mod Tests
use Prim.Native.Nat.{bit_xor}
use my_rpc_project.Base.{
  ℕ, ◌+◌, ◌*◌, ◌/◌, ◌%◌, ◌^◌, ◌<◌, Bool, ◌&&◌, List, [], ◌∷◌, ◌++◌, get_or, ◌==◌, if◌then◌else◌,
}

pub record RpcHeader : Type 0 where
  pub magic : ℕ
  pub version : ℕ
  pub flags : ℕ
  pub msg_type : ℕ
  pub status : ℕ
  pub request_id : ℕ
  pub method_id : ℕ
  pub timeout_ms : ℕ
  pub body_len : ℕ
  pub trace_id : ℕ
  pub reserved : ℕ

-- `RpcHeader{}`.
abbrev pub empty_header : RpcHeader
empty_header = record {
  magic = 0;
  version = 0;
  flags = 0;
  msg_type = 0;
  status = 0;
  request_id = 0;
  method_id = 0;
  timeout_ms = 0;
  body_len = 0;
  trace_id = 0;
  reserved = 0;
}

abbrev pub k_magic : ℕ
k_magic = 0x4d50

abbrev pub k_version : ℕ
k_version = 2

abbrev pub k_header_size : ℕ
k_header_size = 32

abbrev pub k_max_body_len : ℕ
k_max_body_len = 64 * 1024 * 1024

abbrev pub k_msg_request : ℕ
k_msg_request = 0

abbrev pub k_msg_response : ℕ
k_msg_response = 1

abbrev pub k_msg_oneway : ℕ
k_msg_oneway = 2

abbrev pub k_msg_heartbeat : ℕ
k_msg_heartbeat = 3

abbrev pub k_msg_heartbeat_ack : ℕ
k_msg_heartbeat_ack = 4

-- `enum Status : uint16_t`.
pub data Status : Type 0 where
  ok invalid_argument method_not_found serialization_error internal_error : Status
  deadline_exceeded request_too_large unknown shutting_down concurrency_limited : Status

-- The value of an enumerator.
unfoldable pub status_code : Status → ℕ
status_code Status.ok = 0
status_code Status.invalid_argument = 1
status_code Status.method_not_found = 2
status_code Status.serialization_error = 3
status_code Status.internal_error = 4
status_code Status.deadline_exceeded = 5
status_code Status.request_too_large = 6
status_code Status.unknown = 7
status_code Status.shutting_down = 8
status_code Status.concurrency_limited = 9

-- One round of `fnv1a32`, over uint32_t.
fnv1a32_loop : ℕ → List ℕ → ℕ
fnv1a32_loop hash [] = hash
fnv1a32_loop hash (c ∷ cs) = fnv1a32_loop (bit_xor hash c * 16777619 % 2 ^ 32) cs

unfoldable pub fnv1a32 : List ℕ → ℕ
unfolding fnv1a32_loop
fnv1a32 bytes = fnv1a32_loop 2166136261 bytes

-- The bytes that `strlen` counts: those before the first NUL.
c_string : List ℕ → List ℕ
c_string [] = []
c_string (c ∷ cs) = if c == 0 then [] else c ∷ c_string cs

unfoldable pub method_id_of : List ℕ → ℕ
unfolding fnv1a32 c_string
method_id_of key = fnv1a32 (c_string key)

-- `htons`, `htonl` and `htonll64` followed by `memcpy`: the bytes of a field, highest first.
abbrev pub store_be16 : ℕ → List ℕ
store_be16 v = (v / 256 % 256) ∷ (v % 256) ∷ []

abbrev pub store_be32 : ℕ → List ℕ
store_be32 v = store_be16 (v / 2 ^ 16) ++ store_be16 v

abbrev pub store_be64 : ℕ → List ℕ
store_be64 v = store_be32 (v / 2 ^ 32) ++ store_be32 v

-- The 32 bytes that are written to `out`, in the order of their offsets.
unfoldable pub encode_header : RpcHeader → List ℕ
encode_header h =
    store_be16 h.magic
    ++ (h.version
        ∷ h.flags
        ∷ h.msg_type
        ∷ (store_be16 h.status
            ++ (store_be32 h.request_id
                ++ (store_be32 h.method_id
                    ++ (store_be32 h.timeout_ms
                        ++ (store_be32 h.body_len
                            ++ (store_be64 h.trace_id ++ (h.reserved ∷ []))))))))

-- `memcpy` from an offset followed by `ntohs`, `ntohl` and `htonll64`.
abbrev pub load_be8 : List ℕ → ℕ → ℕ
load_be8 bytes at = get_or bytes at 0

abbrev pub load_be16 : List ℕ → ℕ → ℕ → ℕ
load_be16 bytes a b = load_be8 bytes a * 256 + load_be8 bytes b

abbrev pub load_be32 : List ℕ → ℕ → ℕ → ℕ → ℕ → ℕ
load_be32 bytes a b c d = load_be16 bytes a b * 2 ^ 16 + load_be16 bytes c d

-- The header that `decodeHeader` fills in, and its result.
unfoldable pub decode_header : List ℕ → RpcHeader × Bool
decode_header bytes =
    let h : RpcHeader = record {
      magic = load_be16 bytes 0 1;
      version = load_be8 bytes 2;
      flags = load_be8 bytes 3;
      msg_type = load_be8 bytes 4;
      status = load_be16 bytes 5 6;
      request_id = load_be32 bytes 7 8 9 10;
      method_id = load_be32 bytes 11 12 13 14;
      timeout_ms = load_be32 bytes 15 16 17 18;
      body_len = load_be32 bytes 19 20 21 22;
      trace_id = load_be32 bytes 23 24 25 26 * 2 ^ 32 + load_be32 bytes 27 28 29 30;
      reserved = load_be8 bytes 31;
    } in
    (h, h.magic == k_magic && h.version == k_version)

-- Each field fits its C type.
pub record IsWire (h : RpcHeader) : Type 0 where
  pub magic_fits : h.magic < 2 ^ 16
  pub version_fits : h.version < 2 ^ 8
  pub flags_fits : h.flags < 2 ^ 8
  pub msg_type_fits : h.msg_type < 2 ^ 8
  pub status_fits : h.status < 2 ^ 16
  pub request_id_fits : h.request_id < 2 ^ 32
  pub method_id_fits : h.method_id < 2 ^ 32
  pub timeout_ms_fits : h.timeout_ms < 2 ^ 32
  pub body_len_fits : h.body_len < 2 ^ 32
  pub trace_id_fits : h.trace_id < 2 ^ 64
  pub reserved_fits : h.reserved < 2 ^ 8
