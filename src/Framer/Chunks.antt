-- ===== src/Framer/Chunks.antt =====
-- src/RpcFramer.cpp fed by the reads of a connection: a stream of frames cut anywhere.
use my_rpc_project.Base.{
  ℕ, ◌≤◌, ◌≡◌, refl, sym, ap, subst, ◌∙◌, List, [], ◌∷◌, ◌++◌, map, Option, some, none, length,
  take, drop, All, arith, append-nil, append_assoc, take-append, drop-append, All-append,
  take-append-le, drop-append-le, take-append-drop,
}
use native.Mathlib.Decide.{dec_le}
use mathlib.Core.List.{map-append}
use my_rpc_project.Buffer
use my_rpc_project.Buffer.{Buffer}
use my_rpc_project.Buffer.Contents.{contents-append, append-IsValid}
use my_rpc_project.Framer.{Message, encode, decode}
use my_rpc_project.Framer.Bytes.{
  stops, parse_round, parse_round_short, Parses, last, Parses-unique, decode-Decodes,
}
use my_rpc_project.Framer.Stream.{IsSendable, received, stream, parse_round-prefix, stream-Parses}

-- Each chunk that a read returns is appended and decoded: the messages of all the callbacks.
unfoldable pub feed : Buffer → List (List ℕ) → Option (List Message × Buffer)
feed b [] = some ([], b)
feed b (c ∷ cs) = elim (decode (Buffer.append b c)) [
  | none ↦ none
  | some (ms, d) ↦ elim (feed d cs) [ none ↦ none | some (ns, e) ↦ some (ms ++ ns, e) ]
]

-- A cut of a stream: whole frames before it, and a part of a frame that waits for more.
record Cut (front back : List ℕ) (ms : List Message) : Type 0 where
  sent : List Message
  left : List Message
  part : List ℕ
  all_of : ms ≡ sent ++ left
  front_is : front ≡ stream sent ++ part
  back_is : part ++ back ≡ stream left
  waits : parse_round part ≡ stops part

Cut-nil : (front back : List ℕ) → front ++ back ≡ stream [] → Cut front back []
unfolding stream
Cut-nil [] back e = record {
  sent = [];
  left = [];
  part = [];
  all_of = refl;
  front_is = refl;
  back_is = e;
  waits = parse_round_short [] (omega arith);
}
Cut-nil (x ∷ front) back e = cc

-- What a front of `n` bytes or more leaves of the first frame's end on.
cut_front :
    (m front back rest : List ℕ)
    → length m ≤ length front
    → front ++ back ≡ m ++ rest
    → (front ≡ m ++ drop (length m) front) × (drop (length m) front ++ back ≡ rest)
cut_front m front back rest h e = (
  sym (take-append-drop (length m) front)
      ∙ ap (λ t. t ++ drop (length m) front)
          (sym (take-append-le (length m) front back h)
            ∙ ap (take (length m)) e
            ∙ take-append (length m) m rest refl),
  sym (drop-append-le (length m) front back h)
      ∙ ap (drop (length m)) e
      ∙ drop-append (length m) m rest refl,
)

Cut-after :
    (m : Message) (ms : List Message) (front back : List ℕ)
    → length (encode m) ≤ length front
    → front ++ back ≡ stream (m ∷ ms)
    → (drop (length (encode m)) front ++ back ≡ stream ms
        → Cut (drop (length (encode m)) front) back ms)
    → Cut front back (m ∷ ms)
unfolding stream
Cut-after m ms front back h e next =
    let (front_is, back_is) = cut_front (encode m) front back (stream ms) h e in
    let c = next back_is in
    record {
      sent = m ∷ c.sent;
      left = c.left;
      part = c.part;
      all_of = ap (◌∷◌ m) c.all_of;
      front_is =
          front_is
          ∙ ap (λ t. encode m ++ t) c.front_is
          ∙ sym (append_assoc (encode m) (stream c.sent) c.part);
      back_is = c.back_is;
      waits = c.waits;
    }

-- Every cut of a stream of sendable messages is of this form.
cut :
    (ms : List Message) (front back : List ℕ)
    → All IsSendable ms
    → front ++ back ≡ stream ms
    → Cut front back ms
cut [] front back s e = Cut-nil front back e
cut (m ∷ ms) front back s e = elim (dec_le (length (encode m)) (length front)) [
  | yes h ↦ Cut-after m ms front back h e (λ e'. cut ms _ back s.1 e')
  | no h ↦ record {
    sent = [];
    left = m ∷ ms;
    part = front;
    all_of = refl;
    front_is = unfold stream in refl;
    back_is = e;
    waits =
        parse_round-prefix m front back (stream ms) s.0 (e ∙ unfold stream in refl) (omega arith);
  }
]

unfoldable pub concat {ℓ} : {A : Type ℓ} → List (List A) → List A
concat [] = []
concat (c ∷ cs) = c ++ concat cs

-- What has come of a stream so far, and what the buffer still holds of it.
abbrev Feeds : Option (List Message × Buffer) → List Message → Type 0
Feeds r ms =
    (c : Buffer) × (r ≡ some (map received ms, c)) × (Buffer.contents c ≡ []) × Buffer.IsValid c

feed_end :
    (ms : List Message) (b : Buffer)
    → Buffer.IsValid b
    → All IsSendable ms
    → Buffer.contents b ++ [] ≡ stream ms
    → parse_round (Buffer.contents b) ≡ stops (Buffer.contents b)
    → Feeds (feed b []) ms
unfolding feed
feed_end ms b v s e waits =
    let whole : Parses (Buffer.contents b) (map received ms) [] =
      subst (λ bs. Parses bs (map received ms) [])
        (append-nil (stream ms) ∙ sym e ∙ append-nil (Buffer.contents b))
        (stream-Parses ms [] s (parse_round_short [] (omega arith))) in
    let (none_left, empty) = Parses-unique (last waits) whole in
    (b, ap (λ ns. some (ns, b)) none_left, empty, v)

feed_step :
    (ms : List Message) (c : List ℕ) (cs : List (List ℕ)) (b : Buffer)
    → Buffer.IsValid b
    → All IsSendable ms
    → Buffer.contents b ++ (c ++ concat cs) ≡ stream ms
    → ((left : List Message) (d : Buffer)
        → Buffer.IsValid d
        → All IsSendable left
        → Buffer.contents d ++ concat cs ≡ stream left
        → parse_round (Buffer.contents d) ≡ stops (Buffer.contents d)
        → Feeds (feed d cs) left)
    → Feeds (feed b (c ∷ cs)) ms
unfolding feed
feed_step ms c cs b v s e ih =
    let front : Buffer.contents (Buffer.append b c) ≡ Buffer.contents b ++ c =
      contents-append b c v in
    let k = cut ms (Buffer.contents b ++ c) (concat cs) s (append_assoc _ c _ ∙ e) in
    let (got, d, run, parses, w) = decode-Decodes (Buffer.append b c) (append-IsValid b c v) in
    let (s_sent, s_left) =
      All-append IsSendable k.sent k.left (subst (All IsSendable) k.all_of s) in
    let (same, kept) =
      Parses-unique (subst (λ bs. Parses bs got (Buffer.contents d)) (front ∙ k.front_is) parses)
        (stream-Parses k.sent k.part s_sent k.waits) in
    let (f, rest, empty, u) =
      ih k.left d w s_left (ap (λ t. t ++ concat cs) kept ∙ k.back_is)
        (ap parse_round kept ∙ k.waits ∙ ap stops (sym kept)) in
    (
      f,
      rw (run, feed, rest)
          (ap (λ ns. some (ns, f))
            (ap (λ ns. ns ++ map received k.left) same
              ∙ sym (map-append received k.sent k.left)
              ∙ ap (map received) (sym k.all_of))),
      empty,
      u,
    )

feed_waiting :
    (ms : List Message) (cs : List (List ℕ)) (b : Buffer)
    → Buffer.IsValid b
    → All IsSendable ms
    → Buffer.contents b ++ concat cs ≡ stream ms
    → parse_round (Buffer.contents b) ≡ stops (Buffer.contents b)
    → Feeds (feed b cs) ms
unfolding concat
feed_waiting ms [] b v s e waits = feed_end ms b v s e waits
feed_waiting ms (c ∷ cs) b v s e waits =
    feed_step ms c cs b v s e (λ left d. feed_waiting left cs d)

-- The frames of any sequence of sendable messages, cut into chunks at any places (inside a header,
-- inside a body, several frames in one chunk), are decoded from an empty buffer into exactly these
-- messages, once each and in order, and nothing is left in the buffer.
pub feed-stream :
    (ms : List Message) (cs : List (List ℕ)) (b : Buffer)
    → Buffer.IsValid b
    → Buffer.contents b ≡ []
    → All IsSendable ms
    → concat cs ≡ stream ms
    → (c : Buffer) × (feed b cs ≡ some (map received ms, c))
      × (Buffer.contents c ≡ [])
      × Buffer.IsValid c
feed-stream ms cs b v empty s e =
    feed_waiting ms cs b v s (ap (λ t. t ++ concat cs) empty ∙ e)
      (ap parse_round empty ∙ parse_round_short [] (omega arith) ∙ ap stops (sym empty))
