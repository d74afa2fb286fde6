-- ===== src/EventLoop/Timers.antt =====
-- src/EventLoop.cpp: the iterator that `runTimers` keeps across the call of a timer.
use my_rpc_project.Base.{ℕ, ◌≡◌, refl, ◌∙◌, List, [], ◌∷◌, ◌++◌, none, some, ==_self}
use my_rpc_project.Base.Maps.{find, erase, find-erase, IsSorted}
use my_rpc_project.EventLoop.{
  EventLoop, TimerTask, Action, cancels, cancel_timer, act, call, rearm, run_timer,
}

-- An action that cancels nothing.
abbrev pub IsKeeping : Action → Type 0
IsKeeping (cancels id) = ⊥
IsKeeping _ = Unit

module _ (body : ℕ → List Action) where
  rearm-missing :
      (l : EventLoop) (id now : ℕ) → find id l.timers ≡ none → rearm body l id now ≡ none
  unfolding rearm
  rearm-missing l id now e = rw (e, rearm) refl

  -- A timer whose functor cancels it leaves `runTimers` with an iterator to an erased entry.
  pub run_timer-cancels_itself :
      (l : EventLoop) (task t : TimerTask) (now : ℕ)
      → find task.id l.timers ≡ some t
      → IsSorted l.timers
      → body t.callback ≡ cancels task.id ∷ []
      → run_timer body l task now ≡ none
  unfolding run_timer call act cancel_timer rearm
  run_timer-cancels_itself l task t now there sorted own =
      let gone : find task.id (erase task.id l.timers) ≡ none =
        find-erase task.id task.id l.timers sorted ∙ rw (==_self task.id) refl in
      rw (there, run_timer, own)
        (rearm-missing
          (record l { ran = l.ran ++ (t.callback ∷ []); timers = erase task.id l.timers }) task.id
          now gone)
