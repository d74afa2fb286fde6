-- ===== src/EventLoop/Rounds.antt =====
-- src/EventLoop.cpp: what a round of the loop runs, and how long it may wait.
use my_rpc_project.Base.{
  ℕ, ◌-◌, ◌≤◌, ◌≡◌, refl, sym, ap, ◌∙◌, List, [], ◌∷◌, ◌++◌, append_assoc, append-nil, some, ltb,
  if◌then◌else◌, arith,
}
use my_rpc_project.Base.Maps.{Map, find}
use my_rpc_project.EventLoop.{
  EventLoop, TimerTask, Action, queues, runs_after, runs_every, cancels, queue_in_loop, set_timer,
  run_after, run_every, cancel_timer, act, nearest_of, poll_timeout, get_poll_timeout_ms,
  k_default_poll_timeout_ms, call, call_all, do_pending_functors,
}

nearest_of-le_start : (m : Map TimerTask) (n : ℕ) → nearest_of n m ≤ n
unfolding nearest_of
nearest_of-le_start [] n = omega arith
nearest_of-le_start ((id, t) ∷ m) n =
    ground (arith, nearest_of-le_start m (if ltb t.expires_at n then t.expires_at else n))

nearest_of-le :
    (m : Map TimerTask) (n id : ℕ) (t : TimerTask)
    → find id m ≡ some t
    → nearest_of n m ≤ t.expires_at
unfolding nearest_of find
nearest_of-le [] n id t e = cc
nearest_of-le ((j, u) ∷ m) n id t e =
    let next = if ltb u.expires_at n then u.expires_at else n in
    ground (arith, nearest_of-le_start m next, nearest_of-le m next id t)

-- The loop never waits past a timer, and never longer than ten seconds.
pub get_poll_timeout_ms-le :
    (l : EventLoop) (now id : ℕ) (t : TimerTask)
    → find id l.timers ≡ some t
    → (get_poll_timeout_ms l now ≤ t.expires_at - now)
      × (get_poll_timeout_ms l now ≤ k_default_poll_timeout_ms)
unfolding get_poll_timeout_ms poll_timeout
get_poll_timeout_ms-le l now id t e = go l.timers e
  where
    go :
        (m : Map TimerTask)
        → find id m ≡ some t
        → (poll_timeout m now ≤ t.expires_at - now)
          × (poll_timeout m now ≤ k_default_poll_timeout_ms)
    go [] e = absurd (nothing e)
      where
        nothing : find id [] ≡ some t → ⊥
        nothing h = unfold find in cc
    go ((j, u) ∷ m) e = ground (arith, nearest_of-le ((j, u) ∷ m) u.expires_at id t e)

-- The functors that some actions queue.
unfoldable pub queued_by : List Action → List ℕ
queued_by [] = []
queued_by (queues callback ∷ more) = callback ∷ queued_by more
queued_by (_ ∷ more) = queued_by more

act-pending :
    (l : EventLoop) (actions : List Action) (now : ℕ)
    → ((act l actions now).pending_functors ≡ l.pending_functors ++ queued_by actions)
      × ((act l actions now).ran ≡ l.ran)
unfolding act queued_by queue_in_loop run_after run_every set_timer cancel_timer
act-pending l [] now = (sym (append-nil l.pending_functors), refl)
act-pending l (queues callback ∷ more) now =
    let (queue, same) = act-pending (queue_in_loop l callback) more now in
    (queue ∙ append_assoc l.pending_functors (callback ∷ []) (queued_by more), same)
act-pending l (runs_after ms callback ∷ more) now =
    act-pending (run_after l ms callback now).1 more now
act-pending l (runs_every ms callback ∷ more) now =
    act-pending (run_every l ms callback now).1 more now
act-pending l (cancels id ∷ more) now = act-pending (cancel_timer l id) more now

module _ (body : ℕ → List Action) where
  -- The functors that some functors queue.
  unfoldable pub queued_all : List ℕ → List ℕ
  queued_all [] = []
  queued_all (f ∷ fs) = queued_by (body f) ++ queued_all fs

  call_all-pending :
      (l : EventLoop) (fs : List ℕ) (now : ℕ)
      → ((call_all body l fs now).pending_functors ≡ l.pending_functors ++ queued_all fs)
        × ((call_all body l fs now).ran ≡ l.ran ++ fs)
  unfolding call_all call queued_all
  call_all-pending l [] now = (sym (append-nil l.pending_functors), sym (append-nil l.ran))
  call_all-pending l (f ∷ fs) now =
      let (queue, same) = act-pending (record l { ran = l.ran ++ (f ∷ []) }) (body f) now in
      let (all, calls) = call_all-pending (call body l f now) fs now in
      (
        all
            ∙ ap (λ q. q ++ queued_all fs) queue
            ∙ append_assoc l.pending_functors (queued_by (body f)) (queued_all fs),
        calls ∙ ap (λ r. r ++ fs) same ∙ append_assoc l.ran (f ∷ []) fs,
      )

  -- A round calls exactly the functors that were queued before it, in their order, and leaves exactly
  -- those that they queue, in order, for the next round.
  pub do_pending_functors-order :
      (l : EventLoop) (now : ℕ)
      → ((do_pending_functors body l now).ran ≡ l.ran ++ l.pending_functors)
        × ((do_pending_functors body l now).pending_functors ≡ queued_all l.pending_functors)
  unfolding do_pending_functors
  do_pending_functors-order l now =
      let (left, calls) =
        call_all-pending (record l { pending_functors = [] }) l.pending_functors now in
      (calls, left)
