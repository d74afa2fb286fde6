-- ===== src/Framer/Errors.antt =====
-- src/RpcFramer.cpp on bytes that are no frame of this protocol, and on bodies that are too long.
use my_rpc_project.Base.{
  ℕ, ◌≤◌, ◌<◌, ◌≡◌, ap, subst, ◌∙◌, true, false, ◌⊎◌, inl, inr, List, [], ◌∷◌, ◌++◌, map, some,
  length, All, lt→ltb, append_assoc,
}
use my_rpc_project.Buffer
use my_rpc_project.Buffer.{Buffer}
use my_rpc_project.Protocol.{k_max_body_len, decode_header}
use my_rpc_project.Framer.{Message, encode, decode}
use my_rpc_project.Framer.Bytes.{
  parse_round, stops, Parses, last, more, Parses-unique, decode-Decodes, parse_round_mismatch,
  parse_round_too_large,
}
use my_rpc_project.Framer.Stream.{IsSendable, received, stream, parse_round-encode}

-- The bytes start with a header that `decode` refuses: of another protocol, or of a body over the limit.
abbrev pub IsRefused : List ℕ → Type 0
IsRefused bs =
    (32 ≤ length bs)
    × (((decode_header bs).1 ≡ false)
        ⊎ (((decode_header bs).1 ≡ true) × (k_max_body_len < (decode_header bs).0.body_len)))

refused_stops : (bs : List ℕ) → IsRefused bs → parse_round bs ≡ stops []
refused_stops bs (long, inl e) =
    parse_round_mismatch bs _ long (ap (λ t. ((decode_header bs).0, t)) e)
refused_stops bs (long, inr (e, big)) =
    parse_round_too_large bs _ long (ap (λ t. ((decode_header bs).0, t)) e) big

refused_Parses :
    (ms : List Message) (bad : List ℕ)
    → All IsSendable ms
    → IsRefused bad
    → Parses (stream ms ++ bad) (map received ms) []
unfolding stream
refused_Parses [] bad s r = last (refused_stops bad r)
refused_Parses (m ∷ ms) bad s r =
    more
      (ap parse_round (append_assoc (encode m) (stream ms) bad)
        ∙ parse_round-encode m (stream ms ++ bad) s.0)
      (refused_Parses ms bad s.1 r)

-- Where a refused header stands behind whole frames, `decode` still hands these over, in order, and
-- then drops all the bytes that are left, the refused ones and what follows them.
pub decode-refused :
    (ms : List Message) (bad : List ℕ) (b : Buffer)
    → Buffer.IsValid b
    → Buffer.contents b ≡ stream ms ++ bad
    → All IsSendable ms
    → IsRefused bad
    → (c : Buffer) × (decode b ≡ some (map received ms, c)) × (Buffer.contents c ≡ [])
decode-refused ms bad b v e s r =
    let (got, c, run, parses, w) = decode-Decodes b v in
    let (same, empty) =
      Parses-unique (subst (λ bs. Parses bs got (Buffer.contents c)) e parses)
        (refused_Parses ms bad s r) in
    (c, run ∙ ap (λ ns. some (ns, c)) same, empty)

-- `encode` gives the empty string for a body over the limit, and for no other message.
pub encode-empty : (m : Message) → k_max_body_len < length m.body → encode m ≡ []
unfolding encode
encode-empty m h = rw (lt→ltb _ _ h)
