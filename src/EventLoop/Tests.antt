-- ===== src/EventLoop/Tests.antt =====
-- Rounds of the loop of src/EventLoop.cpp.
use my_rpc_project.Base.{
  ℕ, ◌≡◌, refl, true, false, List, [], ◌∷◌, none, some, arith, All, sum_of, ◌++◌, ◌<◌,
}
use my_rpc_project.Base.Maps.{find, IsSorted}
use my_rpc_project.EventLoop.{
  EventLoop, TimerTask, Action, queues, runs_after, cancels, do_pending_functors, run_timer,
  run_timers,
}
use my_rpc_project.EventLoop.Rounds.{queued_all, do_pending_functors-order}
use my_rpc_project.EventLoop.Timers.{IsKeeping, run_timer-cancels_itself}
use my_rpc_project.EventLoop.Fates.{due, fate, run_timers-runs}
use my_rpc_project.EventLoop.Keeping.{sets}

abbrev once : TimerTask
once = record { id = 1; expires_at = 50; interval = 40; callback = 7; repeat = false }

abbrev always : TimerTask
always = record { id = 2; expires_at = 30; interval = 10; callback = 8; repeat = true }

abbrev loop : EventLoop
loop = record {
  pending_functors = 5 ∷ 6 ∷ [];
  timers = (1, once) ∷ (2, always) ∷ [];
  next_timer_id = 3;
  ran = [];
}

-- Each functor queues another one and sets a timer.
abbrev busy : ℕ → List Action
busy f = queues 9 ∷ runs_after 5 f ∷ []

abbrev cancels_first : ℕ → List Action
cancels_first f = cancels 1 ∷ []

do_pending_functors-order_example :
    ((do_pending_functors busy loop 20).ran ≡ 5 ∷ 6 ∷ [])
    × ((do_pending_functors busy loop 20).pending_functors ≡ queued_all busy (5 ∷ 6 ∷ []))
do_pending_functors-order_example = do_pending_functors-order busy loop 20

busy_keeps : (f : ℕ) → All IsKeeping (busy f)
busy_keeps f = (tt, (tt, tt))

loop-IsSorted : IsSorted loop.timers
unfolding IsSorted
loop-IsSorted = ((omega arith, tt), (tt, tt))

run_timers-runs_example :
    (m : EventLoop) × (run_timers busy loop 60 ≡ some m)
    × (m.ran ≡ loop.ran ++ due 60 loop.timers)
    × ((j : ℕ) → j < 3 → find j m.timers ≡ fate 60 (find j loop.timers))
unfolding sum_of sets due
run_timers-runs_example =
    run_timers-runs busy loop 60 busy_keeps loop-IsSorted
      ((refl, omega arith), ((refl, omega arith), tt)) (omega arith)

-- Both timers are called; the second one is set anew.
called : due 60 loop.timers ≡ 7 ∷ 8 ∷ []
unfolding due
called = refl

run_timer-cancels_itself_example : run_timer cancels_first loop once 60 ≡ none
run_timer-cancels_itself_example =
    run_timer-cancels_itself cancels_first loop once once 60 (unfold find in refl) loop-IsSorted
      refl
