-- ===== src/Buffer/Contents.antt =====
-- src/Buffer.cpp as a queue of bytes: what each method does to the unread contents.
use my_rpc_project.Base.{
  ℕ, ◌+◌, ◌-◌, ◌*◌, ◌≤◌, min, max, ◌≡◌, refl, ap, sym, subst, ◌∙◌, inl, inr, List, [], ◌∷◌, ◌++◌,
  append_assoc, length, take, drop, replicate, leb, leb→le, arith, Bool-cases, suc-==_zero,
  length-append, length-take, length-drop, length-replicate, take_all, take-append, take-append-le,
  drop-append-le, drop_all, take-min, drop-min, append-nil, drop-take, drop-drop, take-take,
}
use my_rpc_project.Buffer.{
  Buffer, IsValid, readable_bytes, retrieve_all, retrieve, retrieve_as_string,
  ensure_writable_bytes, overwrite, append, contents,
}

pub length-contents : (b : Buffer) → IsValid b → length (contents b) ≡ readable_bytes b
unfolding contents readable_bytes
length-contents b v = omega (
  arith,
  length-take (b.write_index - b.read_index) (drop b.read_index b.storage),
  length-drop b.read_index b.storage,
)

-- The window [r, w) of a vector does not see what is added behind it.
window-append :
    (S Z : List ℕ) (r w : ℕ)
    → r ≤ w
    → w ≤ length S
    → take (w - r) (drop r (S ++ Z)) ≡ take (w - r) (drop r S)
window-append S Z r w h k =
    ap (take (w - r)) (drop-append-le r S Z (omega arith))
    ∙ take-append-le (w - r) (drop r S) Z (omega (arith, length-drop r S))

-- What is written at the end of the window joins it.
window-overwrite :
    (S xs : List ℕ) (r w : ℕ)
    → r ≤ w
    → w ≤ length S
    → take (w + length xs - r) (drop r (overwrite S w xs)) ≡ take (w - r) (drop r S) ++ xs
window-overwrite S xs r w h k =
    ap (take (w + length xs - r)) (
      drop-append-le r (take w S) (xs ++ drop (w + length xs) S) (omega (arith, length-take w S))
      ∙ ap (λ A. A ++ (xs ++ drop (w + length xs) S)) (drop-take r w (w - r) S (omega arith))
      ∙ sym (append_assoc (take (w - r) (drop r S)) xs (drop (w + length xs) S)))
    ∙ take-append (w + length xs - r) (take (w - r) (drop r S) ++ xs) (drop (w + length xs) S) (
        omega (
          arith,
          length-append (take (w - r) (drop r S)) xs,
          length-take (w - r) (drop r S),
          length-drop r S,
        ))

abbrev Grows : Buffer → ℕ → Buffer → Type 0
Grows b len c =
    (c.read_index ≡ b.read_index)
    × (c.write_index ≡ b.write_index)
    × (b.write_index + len ≤ length c.storage)
    × (contents c ≡ contents b)

ensure-Grows : (b : Buffer) (len : ℕ) → IsValid b → Grows b len (ensure_writable_bytes b len)
unfolding ensure_writable_bytes contents
ensure-Grows b len v = elim (Bool-cases (leb len (length b.storage - b.write_index))) [
  | inl fits ↦ rw fits (refl, refl, ground arith, refl)
  | inr full ↦
      let n = max (b.write_index + len) (length b.storage * 2) in
      rw full (
        refl,
        refl,
        omega (
          arith,
          length-append (take n b.storage) (replicate (n - length b.storage) 0),
          length-take n b.storage,
          length-replicate {A = ℕ} (n - length b.storage) 0,
        ),
        ap
              (λ S.
                take (b.write_index - b.read_index)
                  (drop b.read_index (S ++ replicate (n - length b.storage) 0)))
              (take_all n b.storage (ground arith))
            ∙ window-append b.storage _ b.read_index b.write_index v.ordered v.inside,
      )
]

ensure-IsValid : (b : Buffer) (len : ℕ) → IsValid b → IsValid (ensure_writable_bytes b len)
ensure-IsValid b len v = ground (arith, ensure-Grows b len v)

-- `append` of a non-empty string, with the vector that it writes to spelt out.
written : Buffer → List ℕ → Buffer
written c xs = record c {
  storage = overwrite c.storage c.write_index xs;
  write_index = c.write_index + length xs;
}

append-cons :
    (b : Buffer) (x : ℕ) (xs : List ℕ)
    → append b (x ∷ xs) ≡ written (ensure_writable_bytes b (length (x ∷ xs))) (x ∷ xs)
unfolding append written
append-cons b x xs = rw (suc-==_zero (length xs)) refl

written-IsValid :
    (c : Buffer) (xs : List ℕ)
    → IsValid c
    → c.write_index + length xs ≤ length c.storage
    → IsValid (written c xs)
unfolding written
written-IsValid c xs v h = record {
  ordered = ground arith;
  inside = omega (
    arith,
    length-append (take c.write_index c.storage) (xs ++ drop (c.write_index + length xs) c.storage),
    length-append xs (drop (c.write_index + length xs) c.storage),
    length-take c.write_index c.storage,
    length-drop (c.write_index + length xs) c.storage,
  );
}

contents-written :
    (c : Buffer) (xs : List ℕ) → IsValid c → contents (written c xs) ≡ contents c ++ xs
unfolding written contents
contents-written c xs v =
    window-overwrite c.storage xs c.read_index c.write_index v.ordered v.inside

pub append-IsValid : (b : Buffer) (xs : List ℕ) → IsValid b → IsValid (append b xs)
append-IsValid b [] v = unfold append in v
append-IsValid b (x ∷ xs) v =
    let g = ensure-Grows b (length (x ∷ xs)) v in
    rw (append-cons b x xs) (
      written-IsValid (ensure_writable_bytes b (length (x ∷ xs))) (x ∷ xs)
        (ensure-IsValid b (length (x ∷ xs)) v) (omega (arith, g.1, g.2)))

-- `append` adds its bytes behind the unread ones.
pub contents-append :
    (b : Buffer) (xs : List ℕ) → IsValid b → contents (append b xs) ≡ contents b ++ xs
contents-append b [] v = unfold append in sym (append-nil (contents b))
contents-append b (x ∷ xs) v =
    let c = ensure_writable_bytes b (length (x ∷ xs)) in
    ap contents (append-cons b x xs)
    ∙ contents-written c (x ∷ xs) (ensure-IsValid b (length (x ∷ xs)) v)
    ∙ ap (λ ys. ys ++ x ∷ xs) (ensure-Grows b (length (x ∷ xs)) v).3

pub retrieve-IsValid : (b : Buffer) (n : ℕ) → IsValid b → IsValid (retrieve b n)
unfolding retrieve
retrieve-IsValid b n v = ground arith

pub contents-retrieve :
    (b : Buffer) (n : ℕ) → IsValid b → contents (retrieve b n) ≡ drop n (contents b)
unfolding retrieve contents
contents-retrieve b n v = elim (Bool-cases (leb (b.write_index - b.read_index) n)) [
  | inl done ↦ rw done (sym (drop_all n _ (omega (arith, length-window, leb→le _ _ done))))
  | inr more ↦ rw more (
      sym (
        drop-take n _ (b.write_index - (b.read_index + n)) (drop b.read_index b.storage)
          (ground arith)
        ∙ ap (take (b.write_index - (b.read_index + n)))
            (drop-drop n b.read_index (b.read_index + n) b.storage refl)))
]
  where
    length-window : length (contents b) ≡ readable_bytes b
    length-window = length-contents b v

-- `retrieveAsString` takes the first `n` unread bytes, or all of them if there are fewer.
pub retrieve_as_string_lem :
    (b : Buffer) (n : ℕ)
    → IsValid b
    → let (bytes, c) = retrieve_as_string b n in
      (bytes ≡ take n (contents b)) × (contents c ≡ drop n (contents b)) × IsValid c
unfolding retrieve_as_string contents readable_bytes
retrieve_as_string_lem b n v =
    let k = min n (readable_bytes b) in
    (
      sym (take-take k (readable_bytes b) (drop b.read_index b.storage) (omega arith))
          ∙ take-min n (readable_bytes b) (contents b) (length-contents b v),
      contents-retrieve b k v ∙ drop-min n (readable_bytes b) (contents b) (length-contents b v),
      retrieve-IsValid b k v,
    )

-- What a caller does with a buffer, and the strings that it gets back.
pub data Request : Type 0 where
  appends : List ℕ → Request
  retrieves : ℕ → Request
  reads : ℕ → Request
  resets : Request

-- The buffer's methods in a row.
unfoldable pub run : Buffer → List Request → List (List ℕ) × Buffer
run b [] = ([], b)
run b (appends xs ∷ rs) = run (append b xs) rs
run b (retrieves n ∷ rs) = run (retrieve b n) rs
run b (reads n ∷ rs) =
    let (bytes, c) = retrieve_as_string b n in let (more, d) = run c rs in (bytes ∷ more, d)
run b (resets ∷ rs) = run (retrieve_all b) rs

-- The same requests on a plain queue of bytes.
unfoldable pub run_queue : List ℕ → List Request → List (List ℕ) × List ℕ
run_queue q [] = ([], q)
run_queue q (appends xs ∷ rs) = run_queue (q ++ xs) rs
run_queue q (retrieves n ∷ rs) = run_queue (drop n q) rs
run_queue q (reads n ∷ rs) = let (more, d) = run_queue (drop n q) rs in (take n q ∷ more, d)
run_queue q (resets ∷ rs) = run_queue [] rs

retrieve_all-IsValid : (b : Buffer) → IsValid (retrieve_all b) × (contents (retrieve_all b) ≡ [])
unfolding retrieve_all contents
retrieve_all-IsValid b = (omega arith, refl)

-- A run on the buffer gives what a run on the queue gives.
abbrev pub Agrees : List (List ℕ) × Buffer → List (List ℕ) × List ℕ → Type 0
Agrees r q = (r.0 ≡ q.0) × (contents r.1 ≡ q.1) × IsValid r.1

-- From a valid buffer, any sequence of requests returns the strings that a byte queue holding the
-- unread bytes returns, leaves the bytes that the queue leaves, and keeps the buffer valid.
pub run-run_queue :
    (b : Buffer) (rs : List Request) → IsValid b → Agrees (run b rs) (run_queue (contents b) rs)
unfolding run run_queue
run-run_queue b [] v = (refl, refl, v)
run-run_queue b (appends xs ∷ rs) v =
    subst (λ q. Agrees (run (append b xs) rs) (run_queue q rs)) (contents-append b xs v)
      (run-run_queue (append b xs) rs (append-IsValid b xs v))
run-run_queue b (retrieves n ∷ rs) v =
    subst (λ q. Agrees (run (retrieve b n) rs) (run_queue q rs)) (contents-retrieve b n v)
      (run-run_queue (retrieve b n) rs (retrieve-IsValid b n v))
run-run_queue b (reads n ∷ rs) v =
    let r = retrieve_as_string_lem b n v in
    let ih = run-run_queue (retrieve_as_string b n).1 rs r.2 in
    (
      ap (λ x. x ∷ (run (retrieve_as_string b n).1 rs).0) r.0
          ∙ ap (λ xs. take n (contents b) ∷ xs) (ih.0 ∙ ap (λ q. (run_queue q rs).0) r.1),
      ih.1 ∙ ap (λ q. (run_queue q rs).1) r.1,
      ih.2,
    )
run-run_queue b (resets ∷ rs) v =
    let r = retrieve_all-IsValid b in
    subst (λ q. Agrees (run (retrieve_all b) rs) (run_queue q rs)) r.1
      (run-run_queue (retrieve_all b) rs r.0)
