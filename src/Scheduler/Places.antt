-- ===== src/Scheduler/Places.antt =====
-- src/Scheduler.cpp: where the coroutines are.
use my_rpc_project.Base.{
  ℕ, ◌+◌, ◌<◌, ◌≡◌, refl, ap, ◌∙◌, count, ltb, ◌==◌, ==_iff, Bool-cases, inl, inr, if◌then◌else◌,
  arith,
}
use my_rpc_project.Scheduler.{
  Phase, idle, runs, tested, exited, Scheduler, update, next_phase, started, Step, spawn, take,
  park, switch, finish, yield_back, delete, keep, loop, leave, wake, tick, halt, reap, IsOnTime,
  ReachOnTime, at_start, then_step,
}
use my_rpc_project.Scheduler.Counting.{
  is_running, is_ending, is_back, is_parking, workers, workers-update, workers-le, workers_none,
  sleeping_count, places, IsSound,
}
use my_rpc_project.Scheduler.Turns.{
  take-IsSound, park-IsSound, switch-IsSound, finish-IsSound, yield_back-IsSound, delete-IsSound,
  keep-IsSound,
}
use my_rpc_project.Scheduler.Handing.{
  moves-IsSound, next_phase-IsFree, spawn-IsSound, wake-IsSound, reap-IsSound,
}

module _ (n : ℕ) where
  Step-IsSound : (s t : Scheduler) (st : Step n s t) → IsOnTime st → IsSound n s → IsSound n t
  Step-IsSound s t spawn o v = spawn-IsSound n s v
  Step-IsSound s t (take i d rest h e front) o v = take-IsSound n s i d rest h e front v
  Step-IsSound s t (park i d ms h e) o v = park-IsSound n s i d ms h e v
  Step-IsSound s t (switch i d h e) o v = switch-IsSound n s i d h e v
  Step-IsSound s t (finish i d h e) o v = finish-IsSound n s i d h e v
  Step-IsSound s t (yield_back i d h e) o v = yield_back-IsSound n s i d h e v
  Step-IsSound s t (delete i d h e finished) o v = delete-IsSound n s i d h e finished v
  Step-IsSound s t (keep i d h e unfinished) o v = keep-IsSound n s i d h e unfinished v
  Step-IsSound s t (loop i h e) o v =
      moves-IsSound n s i (next_phase s.running) tested h e (next_phase-IsFree n s.running)
        (λ c. (refl, refl, refl, refl)) v
  Step-IsSound s t (leave i h e stopped empty) o v =
      moves-IsSound n s i exited idle h e (λ c. (refl, refl, refl, refl))
        (λ c. (refl, refl, refl, refl)) v
  Step-IsSound s t (wake e rest front due) o v = wake-IsSound n s e rest front o v
  Step-IsSound s t (tick now later) o v = record {
    placed = unfold places in v.placed;
    ended = v.ended;
    settled = v.settled;
    parked = v.parked;
    held = v.held;
  }
  Step-IsSound s t halt o v = record {
    placed = unfold places in v.placed;
    ended = v.ended;
    settled = v.settled;
    parked = v.parked;
    held = v.held;
  }
  Step-IsSound s t (reap stopped out) o v = reap-IsSound n s out v

  ReachOnTime-IsSound : (s t : Scheduler) → ReachOnTime n s t → IsSound n s → IsSound n t
  ReachOnTime-IsSound s t at_start v = v
  ReachOnTime-IsSound s t (then_step {t = u} r st o) v =
      Step-IsSound u t st o (ReachOnTime-IsSound s u r v)

  started-IsSound : IsSound n started
  unfolding places sleeping_count
  started-IsSound =
      let none : (w : Phase → ℕ) → w idle ≡ 0 → workers w n started.phase ≡ 0 =
        λ w z. workers_none w n started.phase (λ i h. z) in
      record {
        placed = λ c. ground (arith, none (is_running c) refl, none (is_ending c) refl);
        ended = λ c g. absurd (omega (arith, none (is_ending c) refl));
        settled = λ c g. absurd (omega arith);
        parked = λ c g. absurd (omega (arith, none (is_parking c) refl));
        held = λ c k g. absurd (omega (arith, none (is_back c) refl));
      }

  runs_once :
      (s : Scheduler) (i j c : ℕ)
      → IsSound n s
      → i < n
      → j < n
      → s.phase i ≡ runs c
      → s.phase j ≡ runs c
      → i ≡ j
  unfolding places
  runs_once s i j c v h k e g = elim (Bool-cases (i == j)) [
    | inl same ↦ (==_iff i j).0 same
    | inr other ↦
        let rest = update s.phase i idle in
        let still : rest j ≡ runs c = rw other g in
        let one : is_running c (runs c) ≡ 1 = ground arith in
        let first = workers-update (is_running c) n i s.phase idle (runs c) h e in
        let second = workers-le (is_running c) n j rest k in
        let there : is_running c (rest j) ≡ 1 = ap (is_running c) still ∙ one in
        absurd (ground (arith, v.placed c))
  ]

  -- A worker is on the coroutine's stack or still has its test of `done` before it.
  abbrev pub uses : ℕ → Phase → ℕ
  uses c p = is_running c p + (is_parking c p + (is_ending c p + is_back c p))

  uses_undeleted :
      (s : Scheduler) (i c : ℕ)
      → IsSound n s
      → i < n
      → 0 < uses c (s.phase i)
      → count c s.deleted ≡ 0
  unfolding places
  uses_undeleted s i c v h u =
      let r = workers-le (is_running c) n i s.phase h in
      let p = workers-le (is_parking c) n i s.phase h in
      let en = workers-le (is_ending c) n i s.phase h in
      let b = workers-le (is_back c) n i s.phase h in
      ground (arith, v.placed c, v.ended c, v.parked c, v.held c, v.settled c)

  -- From the start of `n` workers on, whatever the threads do and in whatever order, as long as no sleeping
  -- coroutine is handed on before the worker that it left has tested `done`: each coroutine that has been
  -- spawned is in exactly one place (the queue, the heap, a worker that runs it, has ended it or is to
  -- delete it, or deleted), so that none is lost or deleted twice; no two workers run the same one; and no
  -- worker is on the stack of a deleted one or still has to test its `done`.
  pub reached-IsPlaced :
      (s : Scheduler)
      → ReachOnTime n started s
      → ((c : ℕ) → places n s c ≡ (if ltb c s.spawned then 1 else 0))
        × ((i j c : ℕ) → i < n → j < n → s.phase i ≡ runs c → s.phase j ≡ runs c → i ≡ j)
        × ((i c : ℕ) → i < n → 0 < uses c (s.phase i) → count c s.deleted ≡ 0)
  reached-IsPlaced s r =
      let v = ReachOnTime-IsSound started s r started-IsSound in
      (
        v.placed,
        λ i j c h k e g. runs_once s i j c v h k e g,
        λ i c h u. uses_undeleted s i c v h u,
      )
