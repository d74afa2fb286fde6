-- ===== src/EventLoop.antt =====
-- include/EventLoop.h and src/EventLoop.cpp: queued functors and timers, on the loop's thread. Times
-- are in milliseconds, and the functors of a round take no time. A functor is a number; `body` says
-- what each of them does to its loop when it is called, and `ran` records the calls.
pub mod Rounds
pub mod Timers
pub mod Keeping
pub mod Calls
pub mod Fates
mod Tests
use my_rpc_project.Base.{
  ℕ, suc, ◌+◌, ◌-◌, ◌%◌, ◌^◌, min, Bool, true, false, List, [], ◌∷◌, ◌++◌, Option, none, some, ltb,
  leb, if◌then◌else◌,
}
use my_rpc_project.Base.Maps.{Map, find, insert, erase}

pub record TimerTask : Type 0 where
  pub id : ℕ
  pub expires_at : ℕ
  pub interval : ℕ
  pub callback : ℕ
  pub repeat : Bool

pub record EventLoop : Type 0 where
  pub pending_functors : List ℕ
  pub timers : Map TimerTask
  pub next_timer_id : ℕ
  pub ran : List ℕ

-- What a functor does with its loop.
pub data Action : Type 0 where
  queues : (callback : ℕ) → Action
  runs_after runs_every : (ms callback : ℕ) → Action
  cancels : (id : ℕ) → Action

unfoldable pub queue_in_loop : EventLoop → ℕ → EventLoop
queue_in_loop l callback = record l { pending_functors = l.pending_functors ++ (callback ∷ []) }

-- The two branches of `runAfter` and of `runEvery` set the same task.
unfoldable pub set_timer : EventLoop → ℕ → ℕ → Bool → ℕ → EventLoop
set_timer l ms callback repeat now =
    let id = l.next_timer_id in
    record l {
      next_timer_id = (id + 1) % 2 ^ 64;
      timers =
          insert id
            (record {
              id = id;
              expires_at = now + ms;
              interval = ms;
              callback = callback;
              repeat = repeat;
            })
            l.timers;
    }

-- The id, and the loop.
unfoldable pub run_after : EventLoop → ℕ → ℕ → ℕ → ℕ × EventLoop
run_after l ms callback now = (l.next_timer_id, set_timer l ms callback false now)

unfoldable pub run_every : EventLoop → ℕ → ℕ → ℕ → ℕ × EventLoop
run_every l ms callback now = (l.next_timer_id, set_timer l ms callback true now)

unfoldable pub cancel_timer : EventLoop → ℕ → EventLoop
cancel_timer l id = record l { timers = erase id l.timers }

unfoldable pub act : EventLoop → List Action → ℕ → EventLoop
act l [] now = l
act l (queues callback ∷ more) now = act (queue_in_loop l callback) more now
act l (runs_after ms callback ∷ more) now = act (run_after l ms callback now).1 more now
act l (runs_every ms callback ∷ more) now = act (run_every l ms callback now).1 more now
act l (cancels id ∷ more) now = act (cancel_timer l id) more now

-- The timers that are due, in the order of their ids.
unfoldable pub expired : ℕ → Map TimerTask → List TimerTask
expired now [] = []
expired now ((id, t) ∷ m) = if leb t.expires_at now then t ∷ expired now m else expired now m

-- The time of the nearest timer.
unfoldable pub nearest_of : ℕ → Map TimerTask → ℕ
nearest_of nearest [] = nearest
nearest_of nearest ((id, t) ∷ m) =
    nearest_of (if ltb t.expires_at nearest then t.expires_at else nearest) m

abbrev pub k_default_poll_timeout_ms : ℕ
k_default_poll_timeout_ms = 10000

unfoldable pub poll_timeout : Map TimerTask → ℕ → ℕ
unfolding nearest_of
poll_timeout [] now = k_default_poll_timeout_ms
poll_timeout ((id, t) ∷ m) now =
    let nearest = nearest_of t.expires_at ((id, t) ∷ m) in
    if leb nearest now
    then 0
    else let ms = nearest - now in
      if ltb k_default_poll_timeout_ms ms then k_default_poll_timeout_ms else ms

-- `getPollTimeoutMs`.
unfoldable pub get_poll_timeout_ms : EventLoop → ℕ → ℕ
get_poll_timeout_ms l now = poll_timeout l.timers now

module _ (body : ℕ → List Action) where
  -- A call of a functor.
  unfoldable pub call : EventLoop → ℕ → ℕ → EventLoop
  call l callback now = act (record l { ran = l.ran ++ (callback ∷ []) }) (body callback) now

  unfoldable pub call_all : EventLoop → List ℕ → ℕ → EventLoop
  call_all l [] now = l
  call_all l (f ∷ fs) now = call_all (call l f now) fs now

  -- The functors are moved out before they are called.
  unfoldable pub do_pending_functors : EventLoop → ℕ → EventLoop
  do_pending_functors l now = call_all (record l { pending_functors = [] }) l.pending_functors now

  -- A timer after its call, through the iterator: it starts anew or is erased. `none`: the call has
  -- erased what the iterator points to.
  unfoldable pub rearm : EventLoop → ℕ → ℕ → Option EventLoop
  rearm l id now = elim (find id l.timers) [
    | none ↦ none
    | some t ↦ some (record l {
      timers =
          if t.repeat
          then insert id (record t { expires_at = now + t.interval }) l.timers
          else erase id l.timers;
    })
  ]

  unfoldable pub run_timer : EventLoop → TimerTask → ℕ → Option EventLoop
  run_timer l task now = elim (find task.id l.timers) [
    | none ↦ some l
    | some t ↦ rearm (call l t.callback now) task.id now
  ]

  unfoldable pub run_each : EventLoop → List TimerTask → ℕ → Option EventLoop
  run_each l [] now = some l
  run_each l (t ∷ ts) now = elim (run_timer l t now) [ none ↦ none | some m ↦ run_each m ts now ]

  unfoldable pub run_timers : EventLoop → ℕ → Option EventLoop
  unfolding run_each
  run_timers l now = run_each l (expired now l.timers) now
