-- ===== src/Scheduler/Tests.antt =====
-- Steps of the threads of src/Scheduler.cpp.
use my_rpc_project.Base.{
  ℕ, zero, suc, ◌<◌, ◌≡◌, ◌≢◌, refl, [], ◌∷◌, count, ltb, if◌then◌else◌, arith,
}
use my_rpc_project.Scheduler.{
  runs, parks, ends, back, tested, Scheduler, update, push_heap, started, spawn, take, park, switch,
  keep, wake, tick, hand_on, Reach, ReachOnTime, at_start, then_step,
}
use my_rpc_project.Scheduler.Places.{uses, reached-IsPlaced}
use my_rpc_project.Scheduler.Counting.{places}
use my_rpc_project.Scheduler.Races.{coro_on_two_workers, deleted_in_use}

-- Two workers; the first one has the only coroutine.
abbrev one_running : Scheduler
one_running = record started { spawned = 1; phase = update started.phase 0 (runs 0) }

-- The coroutine goes to sleep.
abbrev first_steps : ReachOnTime 2 started one_running
first_steps = then_step (then_step at_start spawn tt) (take 0 0 [] (omega arith) refl refl) tt

abbrev asleep : Scheduler
asleep = record one_running {
  sleeping = record { deadline = 30; coro = 0 } ∷ [];
  phase = update (update (update one_running.phase 0 (parks 0)) 0 (back 0)) 0 tested;
}

asleep-reached : ReachOnTime 2 started asleep
unfolding push_heap
asleep-reached =
    then_step
      (then_step (then_step first_steps (park 0 0 30 (omega arith) refl) tt)
        (switch 0 0 (omega arith) refl) tt)
      (keep 0 0 (omega arith) refl refl) tt

left_it : (i : ℕ) → i < 2 → (asleep.phase i ≢ parks 0) × (asleep.phase i ≢ back 0)
left_it zero h = ((λ e. cc), (λ e. cc))
left_it (suc zero) h = ((λ e. cc), (λ e. cc))
left_it (suc (suc i)) h = absurd (omega arith)

-- It is handed on when its time has come, and its worker has left it.
abbrev handed_on : Scheduler
handed_on = record asleep { now = 30; sleeping = []; ready = 0 ∷ [] }

handed_on-reached : ReachOnTime 2 started handed_on
unfolding hand_on
handed_on-reached =
    then_step (then_step asleep-reached (tick 30 (omega arith)) tt)
      (wake (record { deadline = 30; coro = 0 }) [] refl (omega arith)) left_it

reached-IsPlaced_example :
    ((c : ℕ) → places 2 handed_on c ≡ (if ltb c 1 then 1 else 0))
    × ((i j c : ℕ)
        → i < 2
        → j < 2
        → handed_on.phase i ≡ runs c
        → handed_on.phase j ≡ runs c
        → i ≡ j)
    × ((i c : ℕ) → i < 2 → 0 < uses 2 c (handed_on.phase i) → count c handed_on.deleted ≡ 0)
reached-IsPlaced_example = reached-IsPlaced 2 handed_on handed_on-reached

coro_on_two_workers_example :
    (t : Scheduler) × Reach 2 one_running t × (t.phase 0 ≡ parks 0) × (t.phase 1 ≡ runs 0)
coro_on_two_workers_example =
    coro_on_two_workers 2 0 1 0 30 one_running (omega arith) (omega arith) (omega arith) refl refl
      refl refl refl

deleted_in_use_example :
    (t : Scheduler) × Reach 2 one_running t
    × (t.phase 1 ≡ ends 0)
    × (count 0 t.deleted ≡ 1)
    × (u : Scheduler) × Reach 2 t u
    × (count 0 u.deleted ≡ 2)
deleted_in_use_example =
    deleted_in_use 2 0 1 0 30 one_running (omega arith) (omega arith) (omega arith) refl refl refl
      refl refl refl
