-- ===== src/Scheduler/Handing.antt =====
-- src/Scheduler.cpp: the steps of `spawn`, of the timer thread and of `stop`, and those between turns.
use my_rpc_project.Base.{
  ℕ, suc, ◌+◌, ◌<◌, ◌≡◌, ◌≢◌, refl, ap, subst, ◌∙◌, Bool, true, false, List, [], ◌∷◌, ◌++◌, map,
  count, count-append, ◌==◌, Bool-cases, inl, inr, if◌then◌else◌, arith,
}
use my_rpc_project.Scheduler.{
  Phase, parks, back, exited, SleepEntry, Scheduler, update, hand_on, next_phase,
}
use my_rpc_project.Scheduler.Counting.{
  is_running, is_ending, is_back, is_parking, workers, workers_none, sleeping_count, places,
  count-map, not_parking, not_back, IsSound,
}
use my_rpc_project.Scheduler.Turns.{changes, live_lem}

module _ (n : ℕ) where
  -- A worker that has no coroutine.
  abbrev IsFree : Phase → Type 0
  IsFree p =
      (c : ℕ)
      → (is_running c p ≡ 0) × (is_ending c p ≡ 0) × (is_back c p ≡ 0) × (is_parking c p ≡ 0)

  pub moves-IsSound :
      (s : Scheduler) (i : ℕ) (p q : Phase)
      → i < n
      → s.phase i ≡ q
      → IsFree p
      → IsFree q
      → IsSound n s
      → IsSound n (record s { phase = update s.phase i p })
  unfolding places
  moves-IsSound s i p q h e f g v =
      let same : (c : ℕ)
          → (workers (is_running c) n (update s.phase i p) ≡ workers (is_running c) n s.phase)
            × (workers (is_ending c) n (update s.phase i p) ≡ workers (is_ending c) n s.phase)
            × (workers (is_back c) n (update s.phase i p) ≡ workers (is_back c) n s.phase)
            × (workers (is_parking c) n (update s.phase i p) ≡ workers (is_parking c) n s.phase) =
        λ c.
          let (r, en, b, pa) = changes n s i p q c h e in
          let (f0, f1, f2, f3) = f c in
          let (g0, g1, g2, g3) = g c in (omega arith, omega arith, omega arith, omega arith) in
      record {
        placed = λ c. let (r, en, b, pa) = same c in ground (arith, v.placed c);
        ended = λ c k. let (r, en, b, pa) = same c in v.ended c (omega arith);
        settled = λ c k. let (r, en, b, pa) = same c in omega (arith, v.settled c k);
        parked = λ c k. let (r, en, b, pa) = same c in v.parked c (omega arith);
        held = λ c k l. let (r, en, b, pa) = same c in v.held c k (omega arith);
      }

  pub next_phase-IsFree : (b : Bool) → IsFree (next_phase b)
  next_phase-IsFree true c = (refl, refl, refl, refl)
  next_phase-IsFree false c = (refl, refl, refl, refl)

  pub spawn-IsSound :
      (s : Scheduler)
      → IsSound n s
      → IsSound n (record s { ready = s.ready ++ (s.spawned ∷ []); spawned = suc s.spawned })
  unfolding places
  spawn-IsSound s v = record {
    placed = λ c. ground (arith, v.placed c, count-append c s.ready (s.spawned ∷ []));
    ended = v.ended;
    settled = v.settled;
    parked = v.parked;
    held = v.held;
  }

  pub wake-IsSound :
      (s : Scheduler) (e : SleepEntry) (rest : List SleepEntry)
      → s.sleeping ≡ e ∷ rest
      → ((i : ℕ) → i < n → (s.phase i ≢ parks e.coro) × (s.phase i ≢ back e.coro))
      → IsSound n s
      → IsSound n (record s { sleeping = rest; ready = hand_on s e.coro })
  unfolding places sleeping_count hand_on
  wake-IsSound s e rest front clear v =
      let all : (c : ℕ)
          → sleeping_count c s.sleeping ≡ (if e.coro == c then 1 else 0) + sleeping_count c rest =
        λ c. ap (sleeping_count c) front in
      let live = live_lem n s e.coro v (ground (arith, all e.coro)) in
      let alive : (count e.coro s.done == 0) ≡ true = ground (arith, live.0) in
      let nobody : (c : ℕ)
          → (e.coro == c) ≡ true
          → (workers (is_parking c) n s.phase ≡ 0) × (workers (is_back c) n s.phase ≡ 0) =
        λ c same.
          let at : e.coro ≡ c = ground arith in
          subst (λ k. (workers (is_parking k) n s.phase ≡ 0) × (workers (is_back k) n s.phase ≡ 0))
            at
            (
              workers_none (is_parking e.coro) n s.phase
                  (λ i h. not_parking e.coro (s.phase i) (clear i h).0),
              workers_none (is_back e.coro) n s.phase
                  (λ i h. not_back e.coro (s.phase i) (clear i h).1),
            ) in
      rw alive record {
        placed = λ c. ground (arith, v.placed c, all c, count-append c s.ready (e.coro ∷ []));
        ended = v.ended;
        settled = v.settled;
        parked = λ c g. elim (Bool-cases (e.coro == c)) [
          | inl same ↦ let (p, b) = nobody c same in absurd (omega arith)
          | inr other ↦ let old = v.parked c g in ground (arith, all c)
        ];
        held = λ c k g. elim (Bool-cases (e.coro == c)) [
          | inl same ↦ let (p, b) = nobody c same in absurd (omega arith)
          | inr other ↦ let old = v.held c k g in ground (arith, all c)
        ];
      }

  pub reap-IsSound :
      (s : Scheduler)
      → ((i : ℕ) → i < n → s.phase i ≡ exited)
      → IsSound n s
      → IsSound n (record s {
        ready = [];
        sleeping = [];
        deleted = s.deleted ++ (s.ready ++ map (λ (e : SleepEntry). e.coro) s.sleeping);
      })
  unfolding places sleeping_count
  reap-IsSound s out v =
      let none : (w : Phase → ℕ) → w exited ≡ 0 → workers w n s.phase ≡ 0 =
        λ w z. workers_none w n s.phase (λ i h. ap w (out i h) ∙ z) in
      let asleep = map (λ (e : SleepEntry). e.coro) s.sleeping in
      let grown : (c : ℕ)
          → count c (s.deleted ++ (s.ready ++ asleep))
            ≡ count c s.deleted + (count c s.ready + sleeping_count c s.sleeping) =
        λ c. omega (
          arith,
          count-append c s.deleted (s.ready ++ asleep),
          count-append c s.ready asleep,
          count-map c s.sleeping,
        ) in
      record {
        placed = λ c. omega (arith, v.placed c, grown c);
        ended = v.ended;
        settled = λ c g. omega (arith, v.settled c g, grown c);
        parked = λ c g. absurd (omega (arith, none (is_parking c) refl));
        held = λ c k g. absurd (omega (arith, none (is_back c) refl));
      }
