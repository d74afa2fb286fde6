-- ===== src/Scheduler.antt =====
-- include/Scheduler.h and src/Scheduler.cpp: coroutines on worker threads. A coroutine is a number, in
-- the order of `spawn`. Each critical section, each context switch and each test of `done` is a step of
-- its own, since other threads may run between them; the two sections of the timer thread are one step,
-- as it alone has the coroutine between them. The heap is a list in the order of the deadlines. Where
-- a worker uses a coroutine that another one has deleted, the code has no defined behaviour; the steps
-- go on with the last value of `done`.
pub mod Counting
pub mod Turns
pub mod Handing
pub mod Places
pub mod Races
mod Tests
use my_rpc_project.Base.{
  ℕ, zero, suc, ◌+◌, ◌≤◌, ◌<◌, ◌≡◌, ◌≢◌, Bool, true, false, List, [], ◌∷◌, ◌++◌, map, count, ltb,
  ◌==◌, if◌then◌else◌,
}

-- Where a worker stands: in its wait for a coroutine; on a coroutine's stack, running it, in `coSleep`
-- between the heap and the switch, or in `coroutineEntry` with `done` set; back from the switch, before
-- the test of `done`; at the end of the loop's body; past the loop.
pub data Phase : Type 0 where
  idle : Phase
  runs : (coro : ℕ) → Phase
  parks : (coro : ℕ) → Phase
  ends : (coro : ℕ) → Phase
  back : (coro : ℕ) → Phase
  tested : Phase
  exited : Phase

pub record SleepEntry : Type 0 where
  pub deadline : ℕ
  pub coro : ℕ

-- `done`: the coroutines whose `done` is set; `deleted`: those that have been deleted, in order.
pub record Scheduler : Type 0 where
  pub ready : List ℕ
  pub sleeping : List SleepEntry
  pub phase : ℕ → Phase
  pub done : List ℕ
  pub deleted : List ℕ
  pub spawned : ℕ
  pub running : Bool
  pub now : ℕ

abbrev pub update : (ℕ → Phase) → ℕ → Phase → ℕ → Phase
update f i p j = if i == j then p else f j

unfoldable pub push_heap : SleepEntry → List SleepEntry → List SleepEntry
push_heap e [] = e ∷ []
push_heap e (f ∷ fs) = if ltb e.deadline f.deadline then e ∷ f ∷ fs else f ∷ push_heap e fs

-- The timer thread hands a coroutine on, unless it is done.
unfoldable pub hand_on : Scheduler → ℕ → List ℕ
hand_on s c = if count c s.done == 0 then s.ready ++ (c ∷ []) else s.ready

-- `while (running_.load())`.
abbrev pub next_phase : Bool → Phase
next_phase running = if running then idle else exited

-- After `start(n)`.
abbrev pub started : Scheduler
started = record {
  ready = [];
  sleeping = [];
  phase = λ i. idle;
  done = [];
  deleted = [];
  spawned = 0;
  running = true;
  now = 0;
}

-- One step of one of the threads: a caller of `spawn` or `stop`, one of the `n` workers, the timer
-- thread, or the clock.
pub data Step (n : ℕ) (s : Scheduler) : Scheduler → Type 0 where
  spawn : Step n s (record s { ready = s.ready ++ (s.spawned ∷ []); spawned = suc s.spawned })
  take :
      (i c : ℕ) (rest : List ℕ)
      → i < n
      → s.phase i ≡ idle
      → s.ready ≡ c ∷ rest
      → Step n s (record s { ready = rest; phase = update s.phase i (runs c) })
  park :
      (i c ms : ℕ)
      → i < n
      → s.phase i ≡ runs c
      → Step n s (record s {
        sleeping = push_heap (record { deadline = s.now + ms; coro = c }) s.sleeping;
        phase = update s.phase i (parks c);
      })
  switch :
      (i c : ℕ)
      → i < n
      → s.phase i ≡ parks c
      → Step n s (record s { phase = update s.phase i (back c) })
  finish :
      (i c : ℕ)
      → i < n
      → s.phase i ≡ runs c
      → Step n s (record s { done = c ∷ s.done; phase = update s.phase i (ends c) })
  yield_back :
      (i c : ℕ)
      → i < n
      → s.phase i ≡ ends c
      → Step n s (record s { phase = update s.phase i (back c) })
  delete :
      (i c : ℕ)
      → i < n
      → s.phase i ≡ back c
      → 0 < count c s.done
      → Step n s (record s { deleted = s.deleted ++ (c ∷ []); phase = update s.phase i tested })
  keep :
      (i c : ℕ)
      → i < n
      → s.phase i ≡ back c
      → count c s.done ≡ 0
      → Step n s (record s { phase = update s.phase i tested })
  loop :
      (i : ℕ)
      → i < n
      → s.phase i ≡ tested
      → Step n s (record s { phase = update s.phase i (next_phase s.running) })
  leave :
      (i : ℕ)
      → i < n
      → s.phase i ≡ idle
      → s.running ≡ false
      → s.ready ≡ []
      → Step n s (record s { phase = update s.phase i exited })
  wake :
      (e : SleepEntry) (rest : List SleepEntry)
      → s.sleeping ≡ e ∷ rest
      → e.deadline ≤ s.now
      → Step n s (record s { sleeping = rest; ready = hand_on s e.coro })
  tick : (now : ℕ) → s.now ≤ now → Step n s (record s { now = now })
  halt : Step n s (record s { running = false })
  reap :
      s.running ≡ false
      → ((i : ℕ) → i < n → s.phase i ≡ exited)
      → Step n s (record s {
        ready = [];
        sleeping = [];
        deleted = s.deleted ++ (s.ready ++ map (λ (e : SleepEntry). e.coro) s.sleeping);
      })

pub data Reach (n : ℕ) (s : Scheduler) : Scheduler → Type 0 where
  here : Reach n s s
  next : {t u : Scheduler} → Reach n s t → Step n t u → Reach n s u

-- A step that is not early: the timer thread hands a coroutine on once no worker is left between the
-- coroutine's `coSleep` and the test of `done` after the switch. Nothing in the code sees to that.
abbrev pub IsOnTime : {n : ℕ} {s t : Scheduler} → Step n s t → Type 0
IsOnTime {n} {s} (wake e rest front due) =
    (i : ℕ) → i < n → (s.phase i ≢ parks e.coro) × (s.phase i ≢ back e.coro)
IsOnTime _ = Unit

pub data ReachOnTime (n : ℕ) (s : Scheduler) : Scheduler → Type 0 where
  at_start : ReachOnTime n s s
  then_step :
      {t u : Scheduler}
      → ReachOnTime n s t
      → (step : Step n t u) → IsOnTime step
      → ReachOnTime n s u
