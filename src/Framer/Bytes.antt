-- ===== src/Framer/Bytes.antt =====
-- src/RpcFramer.cpp, read as a parser of the unread bytes.
use my_rpc_project.Base.{
  ℕ, zero, suc, ◌+◌, ◌≤◌, ◌<◌, ◌≡◌, refl, sym, ap, ap₂, subst, ◌∙◌, true, false, List, [], ◌∷◌, ltb,
  ◌-◌, Bool, ltb→le, lt→ltb, le→ltb, Option, some, length, take, drop, if◌then◌else◌, inl, inr,
  Bool-cases, arith, take-append-drop, length-drop,
}
use my_rpc_project.Buffer
use my_rpc_project.Buffer.{Buffer}
use my_rpc_project.Buffer.Contents.{
  length-contents, contents-retrieve, retrieve-IsValid, retrieve_as_string_lem,
}
use my_rpc_project.Protocol.{RpcHeader, k_header_size, k_max_body_len, decode_header}
use my_rpc_project.Protocol.RoundTrip.{decode_header-append}
use my_rpc_project.Framer.{Message, Round, returns, delivers, take_body, round, decode_loop, decode}

-- What one round does, as a function of the unread bytes alone.
pub data Parsed : Type 0 where
  stops : List ℕ → Parsed
  emits : Message → List ℕ → Parsed

pub parse_round : List ℕ → Parsed
parse_round bs =
    if ltb (length bs) k_header_size
    then stops bs
    else let (header, matches) = decode_header bs in
      if matches
      then (if ltb k_max_body_len header.body_len
          then stops []
          else if ltb (length bs) (k_header_size + header.body_len)
          then stops bs
          else emits
              (record { header = header; body = take header.body_len (drop k_header_size bs) })
              (drop header.body_len (drop k_header_size bs)))
      else stops []

-- The branches of a round that find this protocol's header.
pub parse_round_full :
    (bs : List ℕ) (h : RpcHeader)
    → 32 + h.body_len ≤ length bs
    → decode_header bs ≡ (h, true)
    → h.body_len ≤ k_max_body_len
    → parse_round bs
      ≡ emits
          (record { header = h; body = take h.body_len (drop 32 bs) })
          (drop h.body_len (drop 32 bs))
unfolding parse_round
parse_round_full bs h full e fits =
    rw (le→ltb (length bs) 32 (omega arith), e, le→ltb _ _ fits, le→ltb _ _ full)

pub parse_round_short : (bs : List ℕ) → length bs < 32 → parse_round bs ≡ stops bs
unfolding parse_round
parse_round_short bs h = rw (lt→ltb _ _ h)

pub parse_round_partial :
    (bs : List ℕ) (h : RpcHeader)
    → 32 ≤ length bs
    → length bs < 32 + h.body_len
    → decode_header bs ≡ (h, true)
    → h.body_len ≤ k_max_body_len
    → parse_round bs ≡ stops bs
unfolding parse_round
parse_round_partial bs h long part e fits =
    rw (le→ltb _ _ long, e, le→ltb _ _ fits, lt→ltb _ _ part)

-- The branches that give the connection's bytes up.
pub parse_round_mismatch :
    (bs : List ℕ) (h : RpcHeader)
    → 32 ≤ length bs
    → decode_header bs ≡ (h, false)
    → parse_round bs ≡ stops []
unfolding parse_round
parse_round_mismatch bs h long e = rw (le→ltb _ _ long, e)

pub parse_round_too_large :
    (bs : List ℕ) (h : RpcHeader)
    → 32 ≤ length bs
    → decode_header bs ≡ (h, true)
    → k_max_body_len < h.body_len
    → parse_round bs ≡ stops []
unfolding parse_round
parse_round_too_large bs h long e big = rw (le→ltb _ _ long, e, lt→ltb _ _ big)

abbrev pub Refines : Round → Parsed → Type 0
Refines (returns b) (stops bs) = (Buffer.contents b ≡ bs) × Buffer.IsValid b
Refines (delivers m b) (emits n bs) = (m ≡ n) × (Buffer.contents b ≡ bs) × Buffer.IsValid b
Refines _ _ = ⊥

take_body_lem :
    (n : ℕ) (b : Buffer)
    → Buffer.IsValid b
    → let (body, c) = take_body n b in
      (body ≡ take n (Buffer.contents b))
      × (Buffer.contents c ≡ drop n (Buffer.contents b))
      × Buffer.IsValid c
unfolding take_body Buffer.contents
take_body_lem zero b v = (refl, refl, v)
take_body_lem (suc n) b v =
    rw (take_body, lt→ltb 0 (suc n) (omega arith)) (retrieve_as_string_lem b (suc n) v)

peek-header :
    (b : Buffer)
    → Buffer.IsValid b
    → 32 ≤ length (Buffer.contents b)
    → decode_header (Buffer.peek b) ≡ decode_header (Buffer.contents b)
unfolding Buffer.peek Buffer.contents
peek-header b v h =
    let n = b.write_index - b.read_index in
    ap decode_header (sym (take-append-drop n (Buffer.peek b)))
    ∙ decode_header-append (Buffer.contents b) (drop n (Buffer.peek b)) h

retrieve_all-contents :
    (b : Buffer)
    → (Buffer.contents (Buffer.retrieve_all b) ≡ []) × Buffer.IsValid (Buffer.retrieve_all b)
unfolding Buffer.retrieve_all Buffer.contents
retrieve_all-contents b = (refl, omega arith)

-- A round on a buffer of at least 32 bytes, by what the header says.
round_long :
    (b : Buffer) (h : RpcHeader) (matches : Bool)
    → Buffer.IsValid b
    → ltb (length (Buffer.contents b)) 32 ≡ false
    → decode_header (Buffer.contents b) ≡ (h, matches)
    → Refines (round b) (parse_round (Buffer.contents b))
unfolding round parse_round
round_long b h false v long e =
    rw (← length-contents b v, long, peek-header b v (ltb→le _ _ long), e) (retrieve_all-contents b)
round_long b h true v long e = elim (Bool-cases (ltb k_max_body_len h.body_len)) [
  | inl big ↦
      rw (← length-contents b v, long, peek-header b v (ltb→le _ _ long), e, big)
        (retrieve_all-contents b)
  | inr fits ↦ elim (Bool-cases (ltb (length (Buffer.contents b)) (32 + h.body_len))) [
    | inl more ↦
        rw (← length-contents b v, long, peek-header b v (ltb→le _ _ long), e, fits, more) (refl, v)
    | inr full ↦
        let t = take_body_lem h.body_len (Buffer.retrieve b 32) (retrieve-IsValid b 32 v) in
        let r = contents-retrieve b 32 v in
        rw (← length-contents b v, long, peek-header b v (ltb→le _ _ long), e, fits, full)
          (
            ap (λ body. record { header = h; body = body }) (t.0 ∙ ap (take h.body_len) r),
            t.1 ∙ ap (drop h.body_len) r,
            t.2,
          )
  ]
]

pub round-Refines :
    (b : Buffer) → Buffer.IsValid b → Refines (round b) (parse_round (Buffer.contents b))
round-Refines b v = elim (Bool-cases (ltb (length (Buffer.contents b)) 32)) [
  | inl short ↦ unfold round parse_round in rw (← length-contents b v, short) (refl, v)
  | inr long ↦ round_long b _ _ v long refl
]

-- The frames at the front of a byte string, in order, and the bytes that are kept for later.
pub data Parses : List ℕ → List Message → List ℕ → Type 0 where
  last : {bs rest : List ℕ} → parse_round bs ≡ stops rest → Parses bs [] rest
  more :
      {bs mid rest : List ℕ} {m : Message} {ms : List Message}
      → parse_round bs ≡ emits m mid
      → Parses mid ms rest
      → Parses bs (m ∷ ms) rest

emits-shorter :
    (bs : List ℕ) (m : Message) (r : List ℕ) → parse_round bs ≡ emits m r → length r < length bs
unfolding parse_round
emits-shorter bs m r e =
    ground (arith, length-drop (decode_header bs).0.body_len (drop 32 bs), length-drop 32 bs)

abbrev pub Decodes : Option (List Message × Buffer) → List ℕ → Type 0
Decodes r bs =
    (ms : List Message) × (c : Buffer) × (r ≡ some (ms, c))
    × Parses bs ms (Buffer.contents c)
    × Buffer.IsValid c

after_round :
    (fuel : ℕ) (b : Buffer) (r : Round) (p : Parsed)
    → round b ≡ r
    → parse_round (Buffer.contents b) ≡ p
    → Refines r p
    → ((c : Buffer)
        → Buffer.IsValid c
        → length (Buffer.contents c) < length (Buffer.contents b)
        → Decodes (decode_loop fuel c) (Buffer.contents c))
    → Decodes (decode_loop (suc fuel) b) (Buffer.contents b)
unfolding decode_loop
after_round fuel b (returns c) (stops bs) e p (same, v) ih =
    ([], c, rw (e, decode_loop), last (p ∙ ap stops (sym same)), v)
after_round fuel b (returns c) (emits m bs) e p no_match ih = absurd no_match
after_round fuel b (delivers m c) (stops bs) e p no_match ih = absurd no_match
after_round fuel b (delivers m c) (emits n bs) e p (message, same, v) ih =
    let frame : parse_round (Buffer.contents b) ≡ emits m (Buffer.contents c) =
      p ∙ ap₂ emits (sym message) (sym same) in
    let (ms, d, run, parses, w) = ih c v (emits-shorter (Buffer.contents b) m _ frame) in
    (m ∷ ms, d, rw (e, decode_loop, run), more frame parses, w)

decode_loop_total :
    (fuel : ℕ) (b : Buffer)
    → Buffer.IsValid b
    → length (Buffer.contents b) < fuel
    → Decodes (decode_loop fuel b) (Buffer.contents b)
decode_loop_total zero b v h = absurd (omega arith)
decode_loop_total (suc fuel) b v h =
    after_round fuel b (round b) (parse_round (Buffer.contents b)) refl refl (round-Refines b v)
      (λ c w shorter. decode_loop_total fuel c w (omega arith))

-- On every valid buffer `decode` ends, hands over exactly the frames at the front of the unread
-- bytes in their order, and leaves a valid buffer with exactly the bytes that are kept for later.
pub decode-Decodes : (b : Buffer) → Buffer.IsValid b → Decodes (decode b) (Buffer.contents b)
unfolding decode
decode-Decodes b v =
    decode_loop_total (suc (Buffer.readable_bytes b)) b v (omega (arith, length-contents b v))

stops_inj : {r s : List ℕ} → stops r ≡ stops s → r ≡ s
stops_inj e = cc

emits_inj : {m n : Message} {r s : List ℕ} → emits m r ≡ emits n s → (m ≡ n) × (r ≡ s)
emits_inj e = (cc, cc)

stops-ne-emits : {m : Message} {r s : List ℕ} → stops r ≡ emits m s → ⊥
stops-ne-emits e = cc

Parses-at : {bs cs q : List ℕ} {ms : List Message} → bs ≡ cs → Parses bs ms q → Parses cs ms q
Parses-at {q} {ms} e p = subst (λ bs. Parses bs ms q) e p

-- A byte string parses in one way.
pub Parses-unique :
    {bs q r : List ℕ} {ms ns : List Message} → Parses bs ms q → Parses bs ns r → (ms ≡ ns) × (q ≡ r)
Parses-unique (last p) (last s) = (refl, stops_inj (sym p ∙ s))
Parses-unique (last p) (more s rest) = absurd (stops-ne-emits (sym p ∙ s))
Parses-unique (more p rest) (last s) = absurd (stops-ne-emits (sym s ∙ p))
Parses-unique (more p rest) (more s tail) =
    let (same, next) = emits_inj (sym p ∙ s) in
    let (others, kept) = Parses-unique (Parses-at next rest) tail in (ap₂ ◌∷◌ same others, kept)
