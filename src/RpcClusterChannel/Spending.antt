-- ===== src/RpcClusterChannel/Spending.antt =====
-- src/RpcClusterChannel.cpp: what an attempt, an answer and a hedge timer use of the account.
use my_rpc_project.Base.{
  ℕ, suc, ◌+◌, ◌-◌, ◌≤◌, refl, Bool, true, false, [], ◌∷◌, ◌++◌, Option, none, some, length,
  get_elem?, sum_of-snoc, if◌then◌else◌, if_elim, inl, inr, Option-cases, arith,
}
use my_rpc_project.Base.Maps.{find}
use my_rpc_project.Protocol.{Status}
use my_rpc_project.CircuitBreaker.{allow_request}
use my_rpc_project.RpcClusterChannel.{Instance}
use my_rpc_project.RpcClusterChannel.Attempts.{
  Call, Attempt, Hedge, Client, Round, breaker_of, modify_call, with_status, set_breaker,
  set_status, succeed, fail_call, states_from, choose_index, target, send_to, dispatch, arm_hedge,
  attempt_once, on_answer, on_hedge,
}
use my_rpc_project.RpcClusterChannel.Credit.{
  All-snoc, of_attempt, of_hedge, is_request, held, IsNumbered, Spares, SameBooks, SameBooks-Spares,
  modify_call-SameBooks, Spares-less, finish-Spares, fail-Spares,
}

-- `m`: the largest number of attempts.
module _ (m next : ℕ) where
  fail_call-Spares :
      (bound : ℕ → ℕ) (s : Client) (c : ℕ) (status : Status) (n rand : ℕ)
      → Spares m next bound c (m - n) s
      → Spares m next bound c 0 (fail_call s c status n rand)
  unfolding fail_call set_status
  fail_call-Spares bound s c status n rand h =
      fail-Spares m next bound (set_status s c status) c n s.cluster.retry_options rand h.limited (
        SameBooks-Spares m next bound c (m - n) s (set_status s c status)
          (modify_call-SameBooks (with_status status) s c) h)

  -- A request uses one up.
  send-Spares :
      (bound : ℕ → ℕ) (s t : Client) (a : Attempt)
      → IsNumbered m a
      → SameBooks s t
      → Spares m next bound a.call (suc m - a.number) s
      → Spares m next bound a.call 0
          (record t { sent = t.sent ++ (a ∷ []); requests = t.requests ++ (a ∷ []) })
  unfolding held
  send-Spares bound s t a small e h =
      let g = SameBooks-Spares m next bound a.call (suc m - a.number) s t e h in
      record {
        numbered = All-snoc (IsNumbered m) t.sent a g.numbered small;
        due = g.due;
        next_call = g.next_call;
        limited = g.limited;
        below = λ d. ground (
          arith,
          g.below d,
          sum_of-snoc (of_attempt m d) t.sent a,
          sum_of-snoc (is_request m d) t.requests a,
        );
      }

  module _ {D : Type 0} (r : Round D) where
    send_to-Spares :
        (bound : ℕ → ℕ) (s : Client) (c n : ℕ) (i : Instance)
        → n ≤ m
        → Spares m next bound c (suc m - n) s
        → Spares m next bound c 0 (send_to r s c n i)
    unfolding send_to
    send_to-Spares bound s c n i small h =
        let (allowed, b) = allow_request r.over_threshold (breaker_of s.cluster i) r.now in
        let t = set_breaker s i.channel b in
        let same : SameBooks s t = record {
          sent = refl;
          sleeping = refl;
          hedges = refl;
          requests = refl;
          options = refl;
          next_call = refl;
        } in
        let a : Attempt = record {
          call = c;
          number = n;
          channel = i.channel;
          options = s.cluster.retry_options;
        } in
        if_elim (Spares m next bound c 0) allowed
          (send-Spares bound s t a (small, h.limited) same h)
          (fail_call-Spares bound t c Status.concurrency_limited n r.backoff_rand (
            SameBooks-Spares m next bound c (m - n) s t same
              (Spares-less m next bound c c (suc m - n) (m - n) s h (inr (omega arith, refl)))))

    dispatch-Spares :
        (bound : ℕ → ℕ) (s : Client) (c n : ℕ) (idx : Option ℕ)
        → n ≤ m
        → Spares m next bound c (suc m - n) s
        → Spares m next bound c 0 (dispatch r s c n idx)
    unfolding dispatch
    dispatch-Spares bound s c n idx small h =
        let lost =
          fail_call-Spares bound s c Status.unknown n r.backoff_rand
            (Spares-less m next bound c c (suc m - n) (m - n) s h (inr (omega arith, refl))) in
        go idx lost
      where
        go :
            (o : Option ℕ)
            → Spares m next bound c 0 (fail_call s c Status.unknown n r.backoff_rand)
            → Spares m next bound c 0 (dispatch r s c n o)
        go none lost = lost
        go (some idx) lost = elim (Option-cases (get_elem? s.cluster.instances idx)) [
          | inl out ↦ rw (out, dispatch) lost
          | inr (i, there) ↦ rw (there, dispatch) (send_to-Spares bound s c n i small h)
        ]

    hedged-Spares :
        (bound : ℕ → ℕ) (s : Client) (c i k : ℕ)
        → Spares m next bound c (m + k) s
        → Spares m next bound c k
            (record s { hedges = s.hedges ++ (record { call = c; first_index = i } ∷ []) })
    unfolding held
    hedged-Spares bound s c i k h = record {
      numbered = h.numbered;
      due = h.due;
      next_call = h.next_call;
      limited = h.limited;
      below = λ d. ground (
        arith,
        h.below d,
        sum_of-snoc (of_hedge m d) s.hedges (record { call = c; first_index = i }),
      );
    }

    -- What an attempt may use: the requests of its own number on, and those of its hedge timer.
    abbrev pub allowance : ℕ → Bool → ℕ
    allowance n hedge = (if hedge then m else 0) + (suc m - n)

    arm_hedge-Spares :
        (bound : ℕ → ℕ) (s : Client) (c : ℕ) (x : Call) (n idx total : ℕ) (hedge : Bool)
        → Spares m next bound c (allowance n hedge) s
        → Spares m next bound c (suc m - n) (arm_hedge r s c x n idx hedge total)
    unfolding arm_hedge
    arm_hedge-Spares bound s c x n idx total false h =
        Spares-less m next bound c c (allowance n false) (suc m - n) s h (inr (omega arith, refl))
    arm_hedge-Spares bound s c x n idx total true h =
        if_elim (Spares m next bound c (suc m - n)) _ (hedged-Spares bound s c idx (suc m - n) h) (
          Spares-less m next bound c c (allowance n true) (suc m - n) s h (inr (omega arith, refl)))

    pub attempt_once-Spares :
        (bound : ℕ → ℕ) (s : Client) (c n exclude : ℕ) (hedge : Bool)
        → n ≤ m
        → Spares m next bound c (allowance n hedge) s
        → Spares m next bound c 0 (attempt_once r s c n exclude hedge)
    unfolding attempt_once
    attempt_once-Spares bound s c n exclude hedge small h = elim (Option-cases (find c s.calls)) [
      | inl gone ↦
          rw (gone, attempt_once)
            (Spares-less m next bound c c (allowance n hedge) 0 s h (inl refl))
      | inr (x, there) ↦
          let states = states_from r s.cluster exclude 0 s.cluster.instances in
          let idx = choose_index r states x.request_key in
          rw (there, attempt_once)
            (dispatch-Spares bound (arm_hedge r s c x n idx hedge (length states)) c n
              (target r s.cluster states idx) small
              (arm_hedge-Spares bound s c x n idx (length states) hedge h))
    ]

    pub on_answer-Spares :
        (bound : ℕ → ℕ) (s : Client) (a : Attempt) (status : Status)
        → a.options.max_attempts ≤ m
        → Spares m next bound a.call (m - a.number) s
        → Spares m next bound a.call 0 (on_answer r s a status)
    unfolding on_answer succeed
    on_answer-Spares bound s a status small h = go status
      where
        left : Status → Client
        left st = set_status s a.call st

        after : (st : Status) → Spares m next bound a.call (m - a.number) (left st)
        after st =
            unfold set_status in
            SameBooks-Spares m next bound a.call (m - a.number) s
              (modify_call (with_status st) s a.call)
              (modify_call-SameBooks (with_status st) s a.call) h

        told :
            (st : Status) (t : Client)
            → SameBooks (left st) t
            → Spares m next bound a.call (m - a.number) t
        told st t e = SameBooks-Spares m next bound a.call (m - a.number) (left st) t e (after st)

        go : (st : Status) → Spares m next bound a.call 0 (on_answer r s a st)
        go Status.ok = finish-Spares m next bound a.call (m - a.number) _ (
            told Status.ok _ (record {
              sent = refl;
              sleeping = refl;
              hedges = refl;
              requests = refl;
              options = refl;
              next_call = refl;
            }))
        go Status.unknown =
            fail-Spares m next bound (left Status.unknown) a.call a.number a.options r.backoff_rand
              small (after Status.unknown)
        go st = fail-Spares m next bound _ a.call a.number a.options r.backoff_rand small (
            told st _ (record {
              sent = refl;
              sleeping = refl;
              hedges = refl;
              requests = refl;
              options = refl;
              next_call = refl;
            }))

    pub on_hedge-Spares :
        (bound : ℕ → ℕ) (s : Client) (h : Hedge)
        → 1 ≤ m
        → Spares m next bound h.call m s
        → Spares m next bound h.call 0 (on_hedge r s h)
    unfolding on_hedge
    on_hedge-Spares bound s h some_allowed g =
        let unused = Spares-less m next bound h.call h.call m 0 s g (inl refl) in
        elim (Option-cases (find h.call s.calls)) [
          | inl gone ↦ rw (gone, on_hedge) unused
          | inr (x, there) ↦
              rw (there, on_hedge)
                (if_elim (Spares m next bound h.call 0) x.completed unused (
                  attempt_once-Spares bound s h.call 1 h.first_index false some_allowed (
                    Spares-less m next bound h.call h.call m (allowance 1 false) s g
                      (inr (omega arith, refl)))))
        ]
