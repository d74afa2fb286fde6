-- ===== src/Scheduler/Turns.antt =====
-- src/Scheduler.cpp: what a worker does with a coroutine.
use my_rpc_project.Base.{
  ℕ, ◌+◌, ◌<◌, ◌≡◌, ap, subst, true, List, [], ◌∷◌, ◌++◌, count, count-append, ◌==◌, Bool-cases,
  inl, inr, arith,
}
use my_rpc_project.Scheduler.{
  Phase, idle, runs, parks, ends, back, tested, SleepEntry, Scheduler, update, push_heap,
}
use my_rpc_project.Scheduler.Counting.{
  is_running, is_ending, is_back, is_parking, workers, workers-update, sleeping_count, places,
  sleeping_count-push_heap, IsSound,
}

module _ (n : ℕ) where
  -- The four sums after a worker's change of phase.
  pub changes :
      (s : Scheduler) (i : ℕ) (p q : Phase) (c : ℕ)
      → i < n
      → s.phase i ≡ q
      → let after = λ (w : Phase → ℕ). workers w n (update s.phase i p) in
        let before = λ (w : Phase → ℕ). workers w n s.phase in
        (after (is_running c) + is_running c q ≡ before (is_running c) + is_running c p)
        × (after (is_ending c) + is_ending c q ≡ before (is_ending c) + is_ending c p)
        × (after (is_back c) + is_back c q ≡ before (is_back c) + is_back c p)
        × (after (is_parking c) + is_parking c q ≡ before (is_parking c) + is_parking c p)
  changes s i p q c h e = (
    workers-update (is_running c) n i s.phase p q h e,
    workers-update (is_ending c) n i s.phase p q h e,
    workers-update (is_back c) n i s.phase p q h e,
    workers-update (is_parking c) n i s.phase p q h e,
  )

  pub take-IsSound :
      (s : Scheduler) (i d : ℕ) (rest : List ℕ)
      → i < n
      → s.phase i ≡ idle
      → s.ready ≡ d ∷ rest
      → IsSound n s
      → IsSound n (record s { ready = rest; phase = update s.phase i (runs d) })
  unfolding places
  take-IsSound s i d rest h e front v = record {
    placed = λ c.
        let (r, en, b, p) = changes s i (runs d) idle c h e in
        ground (arith, v.placed c, ap (count c) front);
    ended = λ c g. let (r, en, b, p) = changes s i (runs d) idle c h e in v.ended c (omega arith);
    settled =
        λ c g. let (r, en, b, p) = changes s i (runs d) idle c h e in omega (arith, v.settled c g);
    parked = λ c g. let (r, en, b, p) = changes s i (runs d) idle c h e in v.parked c (omega arith);
    held = λ c k g. let (r, en, b, p) = changes s i (runs d) idle c h e in v.held c k (omega arith);
  }

  -- A coroutine that is queued, asleep or running is in no other place, and not done.
  pub live_lem :
      (s : Scheduler) (c : ℕ)
      → IsSound n s
      → 0 < count c s.ready + (sleeping_count c s.sleeping + workers (is_running c) n s.phase)
      → (count c s.done ≡ 0)
        × (count c s.ready + (sleeping_count c s.sleeping + workers (is_running c) n s.phase) ≡ 1)
        × (workers (is_ending c) n s.phase ≡ 0)
        × (count c s.deleted ≡ 0)
        × (c < s.spawned)
  unfolding places
  live_lem s c v g = elim (Bool-cases (count c s.done == 0)) [
    | inl none_done ↦ (
      ground arith,
      ground (arith, v.placed c),
      ground (arith, v.placed c),
      ground (arith, v.placed c),
      ground (arith, v.placed c),
    )
    | inr some_done ↦
        let more = v.settled c (ground arith) in absurd (ground (arith, v.placed c, more))
  ]

  pub park-IsSound :
      (s : Scheduler) (i d ms : ℕ)
      → i < n
      → s.phase i ≡ runs d
      → IsSound n s
      → IsSound n (record s {
        sleeping = push_heap (record { deadline = s.now + ms; coro = d }) s.sleeping;
        phase = update s.phase i (parks d);
      })
  unfolding places
  park-IsSound s i d ms h e v =
      let entry : SleepEntry = record { deadline = s.now + ms; coro = d } in
      let pushed = λ (c : ℕ). sleeping_count-push_heap c entry s.sleeping in
      let moved = λ (c : ℕ). changes s i (parks d) (runs d) c h e in
      record {
        placed = λ c. let (r, en, b, p) = moved c in ground (arith, v.placed c, pushed c);
        ended = λ c g. let (r, en, b, p) = moved c in v.ended c (omega arith);
        settled = λ c g. let (r, en, b, p) = moved c in omega (arith, v.settled c g);
        parked = λ c g. let (r, en, b, p) = moved c in ground (arith, v.parked c, pushed c);
        held = λ c k g.
            let (r, en, b, p) = moved c in
            let old = v.held c k (omega arith) in ground (arith, pushed c);
      }

  pub switch-IsSound :
      (s : Scheduler) (i d : ℕ)
      → i < n
      → s.phase i ≡ parks d
      → IsSound n s
      → IsSound n (record s { phase = update s.phase i (back d) })
  unfolding places
  switch-IsSound s i d h e v =
      let moved = λ (c : ℕ). changes s i (back d) (parks d) c h e in
      let parks_here : (c : ℕ) → (d == c) ≡ true → 0 < sleeping_count c s.sleeping =
        λ c same. let (r, en, b, p) = moved c in v.parked c (ground arith) in
      record {
        placed = λ c.
            let (r, en, b, p) = moved c in
            elim (Bool-cases (d == c)) [
              | inl same ↦
                  let live = live_lem s c v (let a = parks_here c same in omega arith) in
                  ground (arith, v.placed c, live.0)
              | inr other ↦ ground (arith, v.placed c)
            ];
        ended = λ c g. let (r, en, b, p) = moved c in v.ended c (omega arith);
        settled = λ c g. let (r, en, b, p) = moved c in omega (arith, v.settled c g);
        parked = λ c g. let (r, en, b, p) = moved c in v.parked c (ground arith);
        held = λ c k g.
            let (r, en, b, p) = moved c in
            elim (Bool-cases (d == c)) [
              | inl same ↦ parks_here c same
              | inr other ↦ v.held c k (ground arith)
            ];
      }

  pub finish-IsSound :
      (s : Scheduler) (i d : ℕ)
      → i < n
      → s.phase i ≡ runs d
      → IsSound n s
      → IsSound n (record s { done = d ∷ s.done; phase = update s.phase i (ends d) })
  unfolding places
  finish-IsSound s i d h e v =
      let moved = λ (c : ℕ). changes s i (ends d) (runs d) c h e in
      -- Nobody is parking the coroutine that runs, or back from it.
      let apart : (c : ℕ)
          → (d == c) ≡ true
          → (workers (is_parking c) n s.phase ≡ 0) × (workers (is_back c) n s.phase ≡ 0) =
        λ c same.
          let (r, en, b, p) = moved c in
          let (fresh, alone, none_ended, undeleted, spawned) = live_lem s c v (ground arith) in
          (ground (arith, v.parked c), ground (arith, v.held c fresh)) in
      record {
        placed = λ c.
            let (r, en, b, p) = moved c in
            elim (Bool-cases (d == c)) [
              | inl same ↦ ground (arith, v.placed c, apart c same)
              | inr other ↦ ground (arith, v.placed c)
            ];
        ended = λ c g. let (r, en, b, p) = moved c in ground (arith, v.ended c);
        settled = λ c g. let (r, en, b, p) = moved c in ground (arith, v.settled c);
        parked = λ c g. let (r, en, b, p) = moved c in v.parked c (ground arith);
        held = λ c k g. let (r, en, b, p) = moved c in v.held c (ground arith) (ground arith);
      }

  pub yield_back-IsSound :
      (s : Scheduler) (i d : ℕ)
      → i < n
      → s.phase i ≡ ends d
      → IsSound n s
      → IsSound n (record s { phase = update s.phase i (back d) })
  unfolding places
  yield_back-IsSound s i d h e v =
      let moved = λ (c : ℕ). changes s i (back d) (ends d) c h e in
      record {
        placed = λ c. let (r, en, b, p) = moved c in ground (arith, v.placed c, v.ended c);
        ended = λ c g. let (r, en, b, p) = moved c in v.ended c (ground arith);
        settled = λ c g. let (r, en, b, p) = moved c in omega (arith, v.settled c g);
        parked = λ c g. let (r, en, b, p) = moved c in v.parked c (omega arith);
        held = λ c k g. let (r, en, b, p) = moved c in v.held c k (ground (arith, v.ended c));
      }

  pub delete-IsSound :
      (s : Scheduler) (i d : ℕ)
      → i < n
      → s.phase i ≡ back d
      → 0 < count d s.done
      → IsSound n s
      → IsSound n (record s { deleted = s.deleted ++ (d ∷ []); phase = update s.phase i tested })
  unfolding places
  delete-IsSound s i d h e finished v =
      let moved = λ (c : ℕ). changes s i tested (back d) c h e in
      let grown = λ (c : ℕ). count-append c s.deleted (d ∷ []) in
      let is_done : (c : ℕ) → (d == c) ≡ true → 0 < count c s.done =
        λ c same. let at : d ≡ c = ground arith in subst (λ k. 0 < count k s.done) at finished in
      record {
        placed = λ c. let (r, en, b, p) = moved c in ground (arith, v.placed c, grown c, is_done c);
        ended = λ c g. let (r, en, b, p) = moved c in v.ended c (omega arith);
        settled = λ c g. let (r, en, b, p) = moved c in ground (arith, v.settled c g, grown c);
        parked = λ c g. let (r, en, b, p) = moved c in v.parked c (omega arith);
        held = λ c k g. let (r, en, b, p) = moved c in v.held c k (omega arith);
      }

  pub keep-IsSound :
      (s : Scheduler) (i d : ℕ)
      → i < n
      → s.phase i ≡ back d
      → count d s.done ≡ 0
      → IsSound n s
      → IsSound n (record s { phase = update s.phase i tested })
  unfolding places
  keep-IsSound s i d h e unfinished v =
      let moved = λ (c : ℕ). changes s i tested (back d) c h e in
      let not_done : (c : ℕ) → (d == c) ≡ true → count c s.done ≡ 0 =
        λ c same. let at : d ≡ c = ground arith in subst (λ k. count k s.done ≡ 0) at unfinished in
      record {
        placed = λ c. let (r, en, b, p) = moved c in ground (arith, v.placed c, not_done c);
        ended = λ c g. let (r, en, b, p) = moved c in v.ended c (omega arith);
        settled = λ c g. let (r, en, b, p) = moved c in ground (arith, v.settled c g, not_done c);
        parked = λ c g. let (r, en, b, p) = moved c in v.parked c (omega arith);
        held = λ c k g. let (r, en, b, p) = moved c in v.held c k (omega arith);
      }
