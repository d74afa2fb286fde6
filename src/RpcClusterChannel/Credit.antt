-- ===== src/RpcClusterChannel/Credit.antt =====
-- src/RpcClusterChannel.cpp: the account of the requests of calls. Every open attempt, sleeping retry and
-- hedge timer holds the requests that it may still lead to.
use my_rpc_project.Base.{
  ℕ, zero, suc, ◌+◌, ◌-◌, ◌≤◌, ◌<◌, ◌≡◌, refl, sym, ap, subst, ◌∙◌, Bool, true, false, List, [],
  ◌∷◌, ◌++◌, some, get_elem?, All, sum_of, sum_of-snoc, ◌==◌, if◌then◌else◌, if_elim, inl, inr, ◌⊎◌,
  Option-cases, arith,
}
use my_rpc_project.Base.Maps.{find}
use my_rpc_project.Protocol.{Status}
use my_rpc_project.Retry.{RetryOptions, try_consume, should_retry, jitter_backoff}
use my_rpc_project.RpcClusterChannel.Attempts.{
  Call, Attempt, Sleeping, Hedge, Client, modify_call, complete, finish, sleep, set_budget,
  retry_if, fail,
}
use my_rpc_project.RpcClusterChannel.Events.{drop_at}

module _ {A : Type 0} where
  pub sum_of-drop_at :
      (f : A → ℕ) (k : ℕ) (xs : List A) (x : A)
      → get_elem? xs k ≡ some x
      → sum_of f xs ≡ f x + sum_of f (drop_at k xs)
  unfolding sum_of
  sum_of-drop_at f k [] x e = absurd (grind arith)
  sum_of-drop_at f zero (y ∷ ys) x e = let same : y ≡ x = cc in ap (λ z. f z + sum_of f ys) same
  sum_of-drop_at f (suc k) (y ∷ ys) x e = omega (arith, sum_of-drop_at f k ys x e)

  pub All-drop_at : (P : A → Type 0) (k : ℕ) (xs : List A) → All P xs → All P (drop_at k xs)
  All-drop_at P k [] a = a
  All-drop_at P zero (y ∷ ys) a = a.1
  All-drop_at P (suc k) (y ∷ ys) a = (a.0, All-drop_at P k ys a.1)

  pub All-get :
      (P : A → Type 0) (k : ℕ) (xs : List A) (x : A) → All P xs → get_elem? xs k ≡ some x → P x
  All-get P k [] x a e = absurd (grind arith)
  All-get P zero (y ∷ ys) x a e = let same : y ≡ x = cc in subst P same a.0
  All-get P (suc k) (y ∷ ys) x a e = All-get P k ys x a.1 e

  pub All-snoc : (P : A → Type 0) (xs : List A) (x : A) → All P xs → P x → All P (xs ++ (x ∷ []))
  All-snoc P [] x a p = (p, tt)
  All-snoc P (y ∷ ys) x a p = (a.0, All-snoc P ys x a.1 p)

-- Only the calls change, or what this account does not read.
pub record SameBooks (s t : Client) : Type 0 where
  pub sent : t.sent ≡ s.sent
  pub sleeping : t.sleeping ≡ s.sleeping
  pub hedges : t.hedges ≡ s.hedges
  pub requests : t.requests ≡ s.requests
  pub options : t.cluster.retry_options ≡ s.cluster.retry_options
  pub next_call : t.next_call ≡ s.next_call

pub modify_call-SameBooks : (f : Call → Call) (s : Client) (c : ℕ) → SameBooks s (modify_call f s c)
unfolding modify_call
modify_call-SameBooks f s c = elim (Option-cases (find c s.calls)) [
  | inl gone ↦
      rw (gone, modify_call)
        (record {
          sent = refl;
          sleeping = refl;
          hedges = refl;
          requests = refl;
          options = refl;
          next_call = refl;
        })
  | inr (x, there) ↦
      rw (there, modify_call)
        (record {
          sent = refl;
          sleeping = refl;
          hedges = refl;
          requests = refl;
          options = refl;
          next_call = refl;
        })
]

-- `m`: the largest number of attempts.
module _ (m : ℕ) where
  abbrev pub of_attempt : ℕ → Attempt → ℕ
  of_attempt c a = if a.call == c then m - a.number else 0

  abbrev pub of_sleeping : ℕ → Sleeping → ℕ
  of_sleeping c w = if w.call == c then suc m - w.number else 0

  abbrev pub of_hedge : ℕ → Hedge → ℕ
  of_hedge c h = if h.call == c then m else 0

  abbrev pub is_request : ℕ → Attempt → ℕ
  is_request c a = if a.call == c then 1 else 0

  -- The requests of a call, made and to come.
  unfoldable pub held : Client → ℕ → ℕ
  held s c =
      sum_of (is_request c) s.requests
      + (sum_of (of_attempt c) s.sent
          + (sum_of (of_sleeping c) s.sleeping + sum_of (of_hedge c) s.hedges))

  abbrev pub IsNumbered : Attempt → Type 0
  IsNumbered a = (a.number ≤ m) × (a.options.max_attempts ≤ m)

  abbrev pub IsDue : Sleeping → Type 0
  IsDue w = w.number ≤ m

module _ (m next : ℕ) where
  -- All is within bounds, with `k` requests to spare for the call `c`.
  pub record Spares (bound : ℕ → ℕ) (c k : ℕ) (s : Client) : Type 0 where
    pub numbered : All (IsNumbered m) s.sent
    pub due : All (IsDue m) s.sleeping
    pub next_call : s.next_call ≡ next
    pub limited : s.cluster.retry_options.max_attempts ≤ m
    pub below : (d : ℕ) → held m s d + (if c == d then k else 0) ≤ bound d

  pub SameBooks-Spares :
      (bound : ℕ → ℕ) (c k : ℕ) (s t : Client)
      → SameBooks s t
      → Spares bound c k s
      → Spares bound c k t
  unfolding held
  SameBooks-Spares bound c k s t e h = record {
    numbered = subst (All (IsNumbered m)) (sym e.sent) h.numbered;
    due = subst (All (IsDue m)) (sym e.sleeping) h.due;
    next_call = e.next_call ∙ h.next_call;
    limited = subst (λ (o : RetryOptions). o.max_attempts ≤ m) (sym e.options) h.limited;
    below = λ d. rw (e.sent, e.sleeping, e.hedges, e.requests) (h.below d);
  }

  -- What is to spare need not be used, and an empty account is anyone's.
  pub Spares-less :
      (bound : ℕ → ℕ) (c b j k : ℕ) (s : Client)
      → Spares bound c j s
      → (k ≡ 0) ⊎ ((k ≤ j) × (b ≡ c))
      → Spares bound b k s
  Spares-less bound c b j k s h less = record {
    numbered = h.numbered;
    due = h.due;
    next_call = h.next_call;
    limited = h.limited;
    below = λ d. ground (arith, h.below d);
  }

  pub finish-Spares :
      (bound : ℕ → ℕ) (c k : ℕ) (s : Client) → Spares bound c k s → Spares bound c 0 (finish s c)
  unfolding finish
  finish-Spares bound c k s h =
      SameBooks-Spares bound c 0 s (modify_call complete s c) (modify_call-SameBooks complete s c)
        (Spares-less bound c c k 0 s h (inl refl))

  sleep-Spares :
      (bound : ℕ → ℕ) (c n ms : ℕ) (s : Client)
      → suc n ≤ m
      → Spares bound c (m - n) s
      → Spares bound c 0 (sleep s c (n + 1) ms)
  unfolding sleep held
  sleep-Spares bound c n ms s small h =
      let w : Sleeping = record { call = c; number = n + 1; backoff_ms = ms } in
      record {
        numbered = h.numbered;
        due = All-snoc (IsDue m) s.sleeping w h.due (omega arith);
        next_call = h.next_call;
        limited = h.limited;
        below = λ d. ground (arith, h.below d, sum_of-snoc (of_sleeping m d) s.sleeping w);
      }

  retry_if-Spares :
      (bound : ℕ → ℕ) (b : Bool) (s : Client) (c n : ℕ) (options : RetryOptions) (rand : ℕ)
      → (b ≡ true → suc n ≤ m)
      → Spares bound c (m - n) s
      → Spares bound c 0 (retry_if b s c n options rand)
  unfolding retry_if set_budget
  retry_if-Spares bound false s c n options rand small h = finish-Spares bound c (m - n) s h
  retry_if-Spares bound true s c n options rand small h =
      let (granted, b) = try_consume s.cluster.retry_budget in
      let t = set_budget s b in
      let g : Spares bound c (m - n) t =
        SameBooks-Spares bound c (m - n) s t
          (record {
            sent = refl;
            sleeping = refl;
            hedges = refl;
            requests = refl;
            options = refl;
            next_call = refl;
          })
          h in
      if_elim (Spares bound c 0) granted
        (sleep-Spares bound c n
          (jitter_backoff (n - 1) options.base_backoff_ms options.max_backoff_ms rand) t
          (small refl) g)
        (finish-Spares bound c (m - n) t g)

  should_retry-lt :
      (status : Status) (idempotent : Bool) (n max_attempts : ℕ)
      → should_retry status idempotent n max_attempts ≡ true
      → n < max_attempts
  unfolding should_retry
  should_retry-lt status idempotent n max_attempts h = ground arith

  pub fail-Spares :
      (bound : ℕ → ℕ) (s : Client) (c n : ℕ) (options : RetryOptions) (rand : ℕ)
      → options.max_attempts ≤ m
      → Spares bound c (m - n) s
      → Spares bound c 0 (fail s c n options rand)
  unfolding fail
  fail-Spares bound s c n options rand small h = elim (Option-cases (find c s.calls)) [
    | inl gone ↦ rw (gone, fail) (Spares-less bound c c (m - n) 0 s h (inl refl))
    | inr (x, there) ↦
        rw (there, fail)
          (retry_if-Spares bound (should_retry x.status x.idempotent n options.max_attempts) s c n
            options rand
            (λ e. omega (arith, should_retry-lt x.status x.idempotent n options.max_attempts e)) h)
  ]
