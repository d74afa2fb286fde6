-- ===== src/EventLoop/Keeping.antt =====
-- src/EventLoop.cpp: what functors that cancel no timer leave as it was.
use my_rpc_project.Base.{
  ℕ, ◌+◌, ◌^◌, ◌≤◌, ◌<◌, ◌≡◌, refl, ◌∙◌, Bool, true, false, List, [], ◌∷◌, All, Option, none, some,
  ◌==◌, if◌then◌else◌, arith,
}
use my_rpc_project.Base.Maps.{
  Map, find, insert, erase, find-insert, find-erase, IsSorted, insert-IsSorted, erase-IsSorted,
}
use my_rpc_project.EventLoop.{
  EventLoop, TimerTask, Action, queues, runs_after, runs_every, cancels, queue_in_loop, set_timer,
  run_after, run_every, act,
}
use my_rpc_project.EventLoop.Timers.{IsKeeping}

-- How many timers the actions set.
unfoldable pub sets : List Action → ℕ
sets [] = 0
sets (queues callback ∷ more) = sets more
sets (runs_after ms callback ∷ more) = 1 + sets more
sets (runs_every ms callback ∷ more) = 1 + sets more
sets (cancels id ∷ more) = sets more

-- A timer that has been called: set anew if it repeats.
abbrev pub again : ℕ → TimerTask → Option TimerTask
again now t = if t.repeat then some (record t { expires_at = now + t.interval }) else none

-- What a loop has kept: the timers below `n` and the calls, with `k` ids used.
pub record Keeps (n k : ℕ) (l m : EventLoop) : Type 0 where
  pub timers : (j : ℕ) → j < n → find j m.timers ≡ find j l.timers
  pub ids : m.next_timer_id ≡ l.next_timer_id + k
  pub calls : m.ran ≡ l.ran
  pub sorted : IsSorted m.timers

set_timer-Keeps :
    (l : EventLoop) (ms callback : ℕ) (repeat : Bool) (now n : ℕ)
    → n ≤ l.next_timer_id
    → l.next_timer_id + 1 < 2 ^ 64
    → IsSorted l.timers
    → Keeps n 1 l (set_timer l ms callback repeat now)
unfolding set_timer
set_timer-Keeps l ms callback repeat now n h small s = record {
  timers = λ j k.
      let other : (l.next_timer_id == j) ≡ false = ground arith in
      find-insert l.next_timer_id j _ l.timers ∙ rw other refl;
  ids = omega arith;
  calls = refl;
  sorted = insert-IsSorted l.next_timer_id _ l.timers s;
}

Keeps-trans : (n j k : ℕ) (l m o : EventLoop) → Keeps n j l m → Keeps n k m o → Keeps n (j + k) l o
Keeps-trans n j k l m o a b = record {
  timers = λ i h. b.timers i h ∙ a.timers i h;
  ids = omega (arith, a.ids, b.ids);
  calls = b.calls ∙ a.calls;
  sorted = b.sorted;
}

pub act-Keeps :
    (l : EventLoop) (actions : List Action) (now n : ℕ)
    → All IsKeeping actions
    → n ≤ l.next_timer_id
    → l.next_timer_id + sets actions < 2 ^ 64
    → IsSorted l.timers
    → Keeps n (sets actions) l (act l actions now)
unfolding act queue_in_loop run_after run_every sets
act-Keeps l [] now n a h small s = record {
  timers = λ j k. refl;
  ids = omega arith;
  calls = refl;
  sorted = s;
}
act-Keeps l (queues callback ∷ more) now n a h small s =
    let r = act-Keeps (queue_in_loop l callback) more now n a.1 h small s in
    record { timers = r.timers; ids = r.ids; calls = r.calls; sorted = r.sorted }
act-Keeps l (runs_after ms callback ∷ more) now n a h small s =
    let one = set_timer-Keeps l ms callback false now n h (omega arith) s in
    let next = set_timer l ms callback false now in
    let r =
      act-Keeps next more now n a.1 (omega (arith, one.ids)) (omega (arith, one.ids)) one.sorted in
    Keeps-trans n 1 (sets more) l next (act next more now) one r
act-Keeps l (runs_every ms callback ∷ more) now n a h small s =
    let one = set_timer-Keeps l ms callback true now n h (omega arith) s in
    let next = set_timer l ms callback true now in
    let r =
      act-Keeps next more now n a.1 (omega (arith, one.ids)) (omega (arith, one.ids)) one.sorted in
    Keeps-trans n 1 (sets more) l next (act next more now) one r
act-Keeps l (cancels i ∷ more) now n a h small s = absurd a.0

-- An entry that is written anew or erased.
pub find_settled :
    (b : Bool) (id j : ℕ) (x : TimerTask) (m : Map TimerTask)
    → IsSorted m
    → find j (if b then insert id x m else erase id m)
      ≡ (if id == j then if b then some x else none else find j m)
find_settled true id j x m s = find-insert id j x m
find_settled false id j x m s = find-erase id j m s

pub settled-IsSorted :
    (b : Bool) (id : ℕ) (x : TimerTask) (m : Map TimerTask)
    → IsSorted m
    → IsSorted (if b then insert id x m else erase id m)
settled-IsSorted true id x m s = insert-IsSorted id x m s
settled-IsSorted false id x m s = erase-IsSorted id m s
