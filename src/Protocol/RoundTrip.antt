-- ===== src/Protocol/RoundTrip.antt =====
-- include/Protocol.h: encodeHeader and decodeHeader are inverse to one another.
use my_rpc_project.Base.{
  ℕ, zero, suc, ◌+◌, ◌*◌, ◌/◌, ◌%◌, ◌^◌, ◌<◌, ◌≡◌, refl, ap, List, [], ◌∷◌, ◌++◌, length, All, ◌&&◌,
  ◌==◌, get_or, get_or-append, true, leb, leb→le, ◌≤◌, arith,
}
use my_rpc_project.Protocol.{
  RpcHeader, IsWire, k_magic, k_version, encode_header, decode_header, load_be16, load_be32,
}

pub length-encode_header : (h : RpcHeader) → length (encode_header h) ≡ 32
unfolding encode_header
length-encode_header h = refl

abbrev pub IsByte : ℕ → Type 0
IsByte b = b < 256

encode_header-IsByte : (h : RpcHeader) → IsWire h → All IsByte (encode_header h)
unfolding encode_header
encode_header-IsByte h w = omega arith

be16 : (v : ℕ) → v < 2 ^ 16 → v / 256 % 256 * 256 + v % 256 ≡ v
be16 v h = omega arith

be32 :
    (v : ℕ)
    → v < 2 ^ 32
    → (v / 2 ^ 16 / 256 % 256 * 256 + v / 2 ^ 16 % 256) * 2 ^ 16 + (v / 256 % 256 * 256 + v % 256)
      ≡ v
be32 v h = omega arith

be64 :
    (v : ℕ)
    → v < 2 ^ 64
    → ((v / 2 ^ 32 / 2 ^ 16 / 256 % 256 * 256 + v / 2 ^ 32 / 2 ^ 16 % 256) * 2 ^ 16
            + (v / 2 ^ 32 / 256 % 256 * 256 + v / 2 ^ 32 % 256))
          * 2 ^ 32
        + ((v / 2 ^ 16 / 256 % 256 * 256 + v / 2 ^ 16 % 256) * 2 ^ 16
            + (v / 256 % 256 * 256 + v % 256))
      ≡ v
be64 v h = omega arith

decoded_fields :
    (h : RpcHeader) (rest : List ℕ) → IsWire h → (decode_header (encode_header h ++ rest)).0 ≡ h
unfolding encode_header decode_header
decoded_fields h rest w = λ i. record {
  magic = be16 h.magic w.magic_fits i;
  version = h.version;
  flags = h.flags;
  msg_type = h.msg_type;
  status = be16 h.status w.status_fits i;
  request_id = be32 h.request_id w.request_id_fits i;
  method_id = be32 h.method_id w.method_id_fits i;
  timeout_ms = be32 h.timeout_ms w.timeout_ms_fits i;
  body_len = be32 h.body_len w.body_len_fits i;
  trace_id = be64 h.trace_id w.trace_id_fits i;
  reserved = h.reserved;
}

-- Decoding an encoded header, whatever bytes follow it, gives every field back, and succeeds
-- exactly if magic and version are this protocol's.
pub decode_header-encode_header :
    (h : RpcHeader) (rest : List ℕ)
    → IsWire h
    → decode_header (encode_header h ++ rest) ≡ (h, h.magic == k_magic && h.version == k_version)
unfolding encode_header decode_header
decode_header-encode_header h rest w =
    ap (λ (k : RpcHeader). (k, k.magic == k_magic && k.version == k_version))
      (decoded_fields h rest w)

get_or-IsByte : (bytes : List ℕ) (i : ℕ) → All IsByte bytes → IsByte (get_or bytes i 0)
get_or-IsByte [] i w = omega arith
get_or-IsByte (b ∷ bs) zero w = w.0
get_or-IsByte (b ∷ bs) (suc i) w = get_or-IsByte bs i w.1

load_be16-lt : (bytes : List ℕ) (a b : ℕ) → All IsByte bytes → load_be16 bytes a b < 2 ^ 16
load_be16-lt bytes a b w = omega (arith, get_or-IsByte bytes a w, get_or-IsByte bytes b w)

load_be32-lt : (bytes : List ℕ) (a b c d : ℕ) → All IsByte bytes → load_be32 bytes a b c d < 2 ^ 32
load_be32-lt bytes a b c d w = omega (arith, load_be16-lt bytes a b w, load_be16-lt bytes c d w)

-- What `decode_header` reads always fits the wire.
pub decode_header-IsWire : (bytes : List ℕ) → All IsByte bytes → IsWire (decode_header bytes).0
unfolding decode_header
decode_header-IsWire bytes w = record {
  magic_fits = load_be16-lt bytes 0 1 w;
  version_fits = get_or-IsByte bytes 2 w;
  flags_fits = get_or-IsByte bytes 3 w;
  msg_type_fits = get_or-IsByte bytes 4 w;
  status_fits = load_be16-lt bytes 5 6 w;
  request_id_fits = load_be32-lt bytes 7 8 9 10 w;
  method_id_fits = load_be32-lt bytes 11 12 13 14 w;
  timeout_ms_fits = load_be32-lt bytes 15 16 17 18 w;
  body_len_fits = load_be32-lt bytes 19 20 21 22 w;
  trace_id_fits = omega (arith, load_be32-lt bytes 23 24 25 26 w, load_be32-lt bytes 27 28 29 30 w);
  reserved_fits = get_or-IsByte bytes 31 w;
}

-- `decodeHeader` looks at 32 bytes only.
pub decode_header-append :
    (xs ys : List ℕ) → 32 ≤ length xs → decode_header (xs ++ ys) ≡ decode_header xs
unfolding decode_header
decode_header-append xs ys h =
    ap (λ (k : RpcHeader). (k, k.magic == k_magic && k.version == k_version)) fields
  where
    at : (i : ℕ) → leb i 31 ≡ true → get_or (xs ++ ys) i 0 ≡ get_or xs i 0
    at i e = get_or-append xs ys i 0 (omega (arith, leb→le i 31 e))

    at16 :
        (a b : ℕ) → leb a 31 ≡ true → leb b 31 ≡ true → load_be16 (xs ++ ys) a b ≡ load_be16 xs a b
    at16 a b p q = omega (arith, at a p, at b q)

    at32 :
        (a : ℕ)
        → leb a 28 ≡ true
        → load_be32 (xs ++ ys) a (a + 1) (a + 2) (a + 3) ≡ load_be32 xs a (a + 1) (a + 2) (a + 3)
    at32 a p = omega (
      arith,
      at16 a (a + 1) (ground arith) (ground arith),
      at16 (a + 2) (a + 3) (ground arith) (ground arith),
    )

    fields : (decode_header (xs ++ ys)).0 ≡ (decode_header xs).0
    fields = λ i. record {
      magic = at16 0 1 refl refl i;
      version = at 2 refl i;
      flags = at 3 refl i;
      msg_type = at 4 refl i;
      status = at16 5 6 refl refl i;
      request_id = at32 7 refl i;
      method_id = at32 11 refl i;
      timeout_ms = at32 15 refl i;
      body_len = at32 19 refl i;
      trace_id = at32 23 refl i * 2 ^ 32 + at32 27 refl i;
      reserved = at 31 refl i;
    }
