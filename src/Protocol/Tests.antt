-- ===== src/Protocol/Tests.antt =====
-- The header codec and the hash of include/Protocol.h on concrete values.
use my_rpc_project.Base.{◌≡◌, refl, ◌&&◌, [], ◌∷◌, ◌++◌, ◌==◌, arith, ◌^◌, All}
use my_rpc_project.Protocol.{
  RpcHeader, empty_header, IsWire, encode_header, decode_header, fnv1a32, method_id_of, k_magic,
  k_version,
}
use my_rpc_project.Protocol.RoundTrip.{IsByte, decode_header-encode_header, decode_header-IsWire}

abbrev a_header : RpcHeader
a_header = record empty_header {
  magic = 0x4d50;
  version = 2;
  status = 5;
  request_id = 70000;
  method_id = 0xdeadbeef;
  body_len = 300;
  trace_id = 2 ^ 63;
  reserved = 9;
}

-- "a" and the empty string, as the authors of the hash give them.
hash_of_a : fnv1a32 (97 ∷ []) ≡ 0xe40c292c
unfolding fnv1a32
hash_of_a = refl

hash_of_nothing : method_id_of (0 ∷ 97 ∷ []) ≡ 0x811c9dc5
unfolding method_id_of
hash_of_nothing = refl

a_header-IsWire : IsWire a_header
a_header-IsWire = record {
  magic_fits = omega arith;
  version_fits = omega arith;
  flags_fits = omega arith;
  msg_type_fits = omega arith;
  status_fits = omega arith;
  request_id_fits = omega arith;
  method_id_fits = omega arith;
  timeout_ms_fits = omega arith;
  body_len_fits = omega arith;
  trace_id_fits = omega arith;
  reserved_fits = omega arith;
}

decode_header-encode_header_example :
    decode_header (encode_header a_header ++ (1 ∷ 2 ∷ []))
    ≡ (a_header, a_header.magic == k_magic && a_header.version == k_version)
decode_header-encode_header_example =
    decode_header-encode_header a_header (1 ∷ 2 ∷ []) a_header-IsWire

short_bytes : All IsByte (77 ∷ 80 ∷ 255 ∷ [])
short_bytes = (omega arith, (omega arith, (omega arith, tt)))

decode_header-IsWire_example : IsWire (decode_header (77 ∷ 80 ∷ 255 ∷ [])).0
decode_header-IsWire_example = decode_header-IsWire (77 ∷ 80 ∷ 255 ∷ []) short_bytes
