-- ===== src/RpcClusterChannel/Ledger.antt =====
-- src/RpcClusterChannel.cpp: the ledger of calls, which attempts of a call are open and whether it is
-- completed.
use my_rpc_project.Base.{
  ℕ, zero, suc, ◌+◌, ◌<◌, ◌≡◌, refl, sym, ap, subst, ◌∙◌, Bool, true, false, List, [], ◌∷◌, ◌++◌,
  Option, none, some, get_elem?, ◌==◌, ==_iff, if◌then◌else◌, inl, inr, ◌⊎◌, Bool-cases,
  Option-cases, arith,
}
use my_rpc_project.Base.Maps.{find, find-insert}
use my_rpc_project.Protocol.{Status}
use my_rpc_project.RpcClusterChannel.Attempts.{
  Call, Attempt, Sleeping, Client, modify_call, complete, with_status, finish, set_status, sleep,
}
use my_rpc_project.RpcClusterChannel.Events.{drop_at}

-- How many attempts of a call channels have, and how many of them sleep.
unfoldable pub sent_of : ℕ → List Attempt → ℕ
sent_of c [] = 0
sent_of c (a ∷ xs) = (if a.call == c then 1 else 0) + sent_of c xs

unfoldable pub sleeping_of : ℕ → List Sleeping → ℕ
sleeping_of c [] = 0
sleeping_of c (w ∷ ws) = (if w.call == c then 1 else 0) + sleeping_of c ws

abbrev pub open_of : Client → ℕ → ℕ
open_of s c = sent_of c s.sent + sleeping_of c s.sleeping

-- The callback has run once if the flag is set, and else not yet.
abbrev pub IsCounted : Call → Type 0
IsCounted x = x.done ≡ (if x.completed then 1 else 0)

-- `settled`: the flag; `owed`: the open attempts.
abbrev pub Settled : ℕ → ℕ → Bool → ℕ → Type 0
Settled c d settled owed = (settled ≡ true) ⊎ ((d ≡ c) ⊎ (0 < owed))

Settled-eq : (c d : ℕ) (a b : Bool) (m n : ℕ) → b ≡ a → n ≡ m → Settled c d a m → Settled c d b n
Settled-eq c d a b m n e f h =
    subst (λ x. Settled c d x n) (sym e) (subst (Settled c d a) (sym f) h)

-- Every call is completed or has an attempt, `c` perhaps excepted.
abbrev pub KeptBut : ℕ → Client → Type 0
KeptBut c s =
    (d : ℕ) (x : Call)
    → find d s.calls ≡ some x
    → IsCounted x × Settled c d x.completed (open_of s d)

abbrev pub IsKept : Client → Type 0
IsKept s =
    (d : ℕ) (x : Call)
    → find d s.calls ≡ some x
    → IsCounted x × ((x.completed ≡ true) ⊎ (0 < open_of s d))

pub sent_of-append :
    (c : ℕ) (xs bs : List Attempt) → sent_of c (xs ++ bs) ≡ sent_of c xs + sent_of c bs
unfolding sent_of
sent_of-append c [] bs = omega arith
sent_of-append c (a ∷ xs) bs = omega (arith, sent_of-append c xs bs)

pub sleeping_of-append :
    (c : ℕ) (xs bs : List Sleeping) → sleeping_of c (xs ++ bs) ≡ sleeping_of c xs + sleeping_of c bs
unfolding sleeping_of
sleeping_of-append c [] bs = omega arith
sleeping_of-append c (a ∷ xs) bs = omega (arith, sleeping_of-append c xs bs)

pub sent_of-drop_at :
    (c k : ℕ) (xs : List Attempt) (a : Attempt)
    → get_elem? xs k ≡ some a
    → sent_of c xs ≡ (if a.call == c then 1 else 0) + sent_of c (drop_at k xs)
unfolding sent_of
sent_of-drop_at c k [] a e = absurd (grind arith)
sent_of-drop_at c zero (b ∷ bs) a e =
    let same : b ≡ a = cc in
    ap (λ (x : Attempt). (if x.call == c then 1 else 0) + sent_of c bs) same
sent_of-drop_at c (suc k) (b ∷ bs) a e = omega (arith, sent_of-drop_at c k bs a e)

pub sleeping_of-drop_at :
    (c k : ℕ) (xs : List Sleeping) (a : Sleeping)
    → get_elem? xs k ≡ some a
    → sleeping_of c xs ≡ (if a.call == c then 1 else 0) + sleeping_of c (drop_at k xs)
unfolding sleeping_of
sleeping_of-drop_at c k [] a e = absurd (grind arith)
sleeping_of-drop_at c zero (b ∷ bs) a e =
    let same : b ≡ a = cc in
    ap (λ (x : Sleeping). (if x.call == c then 1 else 0) + sleeping_of c bs) same
sleeping_of-drop_at c (suc k) (b ∷ bs) a e = omega (arith, sleeping_of-drop_at c k bs a e)

abbrev mapped : (Call → Call) → Option Call → Option Call
mapped f none = none
mapped f (some x) = some (f x)

-- A change of one call leaves the others and all attempts.
record Modifies (f : Call → Call) (c : ℕ) (s t : Client) : Type 0 where
  found : (d : ℕ) → find d t.calls ≡ (if c == d then mapped f (find d s.calls) else find d s.calls)
  sent : t.sent ≡ s.sent
  sleeping : t.sleeping ≡ s.sleeping

modify_call-Modifies : (f : Call → Call) (s : Client) (c : ℕ) → Modifies f c s (modify_call f s c)
unfolding modify_call
modify_call-Modifies f s c = elim (Option-cases (find c s.calls)) [
  | inl gone ↦
      rw (gone, modify_call)
        (record {
          found = λ d. elim (Bool-cases (c == d)) [
            | inl same ↦
                let at : c ≡ d = (==_iff c d).0 same in
                let e : find d s.calls ≡ none = subst (λ n. find n s.calls ≡ none) at gone in
                rw (same, e) refl
            | inr other ↦ rw other refl
          ];
          sent = refl;
          sleeping = refl;
        })
  | inr (x, there) ↦
      rw (there, modify_call)
        (record {
          found = λ d. find-insert c d (f x) s.calls ∙ elim (Bool-cases (c == d)) [
            | inl same ↦
                let at : c ≡ d = (==_iff c d).0 same in
                let e : find d s.calls ≡ some x = subst (λ n. find n s.calls ≡ some x) at there in
                rw (same, e) refl
            | inr other ↦ rw other refl
          ];
          sent = refl;
          sleeping = refl;
        })
]

mapped-some :
    (f : Call → Call) (o : Option Call) (x : Call)
    → mapped f o ≡ some x
    → (y : Call) × ((o ≡ some y) × (x ≡ f y))
mapped-some f none x e = absurd (grind arith)
mapped-some f (some y) x e = (y, (refl, cc))

-- A change that leaves the flag and the count keeps the ledger.
Modifies-KeptBut :
    (f : Call → Call) (c k : ℕ) (s t : Client)
    → ((x : Call) → ((f x).completed ≡ x.completed) × ((f x).done ≡ x.done))
    → Modifies f c s t
    → KeptBut k s
    → KeptBut k t
Modifies-KeptBut f c k s t same m kept d x e = elim (Bool-cases (c == d)) [
  | inl this ↦
      let g : mapped f (find d s.calls) ≡ some x = sym (m.found d ∙ rw this refl) ∙ e in
      let (y, (there, by)) = mapped-some f (find d s.calls) x g in
      let (counted, settled) = kept d y there in
      let flag : x.completed ≡ y.completed = ap (λ (z : Call). z.completed) by ∙ (same y).0 in
      let times : x.done ≡ y.done = ap (λ (z : Call). z.done) by ∙ (same y).1 in
      let open_same : open_of t d ≡ open_of s d = rw (m.sent, m.sleeping) refl in
      (
        times ∙ counted ∙ ap (λ b. if b then 1 else 0) (sym flag),
        Settled-eq k d y.completed x.completed (open_of s d) (open_of t d) flag open_same settled,
      )
  | inr other ↦
      let g : find d s.calls ≡ some x = sym (m.found d ∙ rw other refl) ∙ e in
      let open_same : open_of t d ≡ open_of s d = rw (m.sent, m.sleeping) refl in
      let (counted, settled) = kept d x g in
      (
        counted,
        Settled-eq k d x.completed x.completed (open_of s d) (open_of t d) refl open_same settled,
      )
]

pub set_status-KeptBut :
    (s : Client) (c k : ℕ) (status : Status) → KeptBut k s → KeptBut k (set_status s c status)
unfolding set_status
set_status-KeptBut s c k status =
    Modifies-KeptBut (with_status status) c k s (modify_call (with_status status) s c)
      (λ x. (refl, refl)) (modify_call-Modifies (with_status status) s c)

complete_lem : (x : Call) → IsCounted x → IsCounted (complete x) × ((complete x).completed ≡ true)
unfolding complete
complete_lem x h = ground arith

pub finish-IsKept : (s : Client) (c : ℕ) → KeptBut c s → IsKept (finish s c)
unfolding finish
finish-IsKept s c kept d x e = go (Bool-cases (c == d))
  where
    t : Client
    t = modify_call complete s c

    m : Modifies complete c s t
    m = modify_call-Modifies complete s c

    go :
        ((c == d) ≡ true) ⊎ ((c == d) ≡ false)
        → IsCounted x × ((x.completed ≡ true) ⊎ (0 < open_of t d))
    go (inl this) =
        let g : mapped complete (find d s.calls) ≡ some x = sym (m.found d ∙ rw this refl) ∙ e in
        let (y, (there, by)) = mapped-some complete (find d s.calls) x g in
        let (counted, over) = complete_lem y (kept d y there).0 in
        subst (λ (z : Call). IsCounted z × ((z.completed ≡ true) ⊎ (0 < open_of t d))) (sym by)
          (counted, inl over)
    go (inr other) =
        let g : find d s.calls ≡ some x = sym (m.found d ∙ rw other refl) ∙ e in
        let open_same : open_of t d ≡ open_of s d = rw (m.sent, m.sleeping) refl in
        let (counted, settled) = kept d x g in
        (
          counted,
          elim settled [
            | inl over ↦ inl over
            | inr (inl at) ↦ absurd (ground arith)
            | inr (inr owed) ↦ inr (omega arith)
          ],
        )

pub sleep-IsKept : (s : Client) (c number ms : ℕ) → KeptBut c s → IsKept (sleep s c number ms)
unfolding sleep sleeping_of
sleep-IsKept s c number ms kept d x e =
    let more =
      sleeping_of-append d s.sleeping
        (record { call = c; number = number; backoff_ms = ms } ∷ []) in
    let (counted, settled) = kept d x e in
    (
      counted,
      elim settled [
        | inl over ↦ inl over
        | inr (inl at) ↦ inr (ground (arith, more))
        | inr (inr owed) ↦ inr (ground (arith, more))
      ],
    )

pub IsKept-KeptBut : (s : Client) (c : ℕ) → IsKept s → KeptBut c s
IsKept-KeptBut s c kept d x e =
    let (counted, settled) = kept d x e in
    (counted, elim settled [ inl over ↦ inl over | inr owed ↦ inr (inr owed) ])

-- Where there is no such call, nothing is excepted.
pub none-IsKept : (s : Client) (c : ℕ) → find c s.calls ≡ none → KeptBut c s → IsKept s
none-IsKept s c gone kept d x e =
    let (counted, settled) = kept d x e in
    (
      counted,
      elim settled [
        | inl over ↦ inl over
        | inr (inl at) ↦
            let there : find c s.calls ≡ some x = subst (λ n. find n s.calls ≡ some x) at e in
            absurd (let clash : none ≡ some x = sym gone ∙ there in grind arith)
        | inr (inr owed) ↦ inr owed
      ],
    )
