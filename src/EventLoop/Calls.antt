-- ===== src/EventLoop/Calls.antt =====
-- src/EventLoop.cpp: the calls of the timers that are due.
use my_rpc_project.Base.{
  ℕ, ◌+◌, ◌^◌, ◌≤◌, ◌<◌, ◌≡◌, refl, sym, ap, ◌∙◌, false, List, [], ◌∷◌, ◌++◌, append_assoc,
  append-nil, map, All, Option, some, sum_of, ◌==◌, if◌then◌else◌, arith,
}
use my_rpc_project.Base.Maps.{find, insert, erase, IsSorted}
use my_rpc_project.EventLoop.{EventLoop, TimerTask, Action, act, call, rearm, run_timer, run_each}
use my_rpc_project.EventLoop.Timers.{IsKeeping}
use my_rpc_project.EventLoop.Keeping.{sets, again, act-Keeps, find_settled, settled-IsSorted}

module _ (body : ℕ → List Action) where
  -- What has happened once a timer has been called.
  record Called (n now : ℕ) (t : TimerTask) (l m : EventLoop) : Type 0 where
    timers :
        (j : ℕ) → j < n → find j m.timers ≡ (if t.id == j then again now t else find j l.timers)
    ids : m.next_timer_id ≡ l.next_timer_id + sets (body t.callback)
    calls : m.ran ≡ l.ran ++ (t.callback ∷ [])
    sorted : IsSorted m.timers

  run_timer-Called :
      (l : EventLoop) (t : TimerTask) (now n : ℕ)
      → ((f : ℕ) → All IsKeeping (body f))
      → n ≤ l.next_timer_id
      → l.next_timer_id + sets (body t.callback) < 2 ^ 64
      → IsSorted l.timers
      → t.id < n
      → find t.id l.timers ≡ some t
      → (m : EventLoop) × (run_timer body l t now ≡ some m) × Called n now t l m
  unfolding run_timer rearm call
  run_timer-Called l t now n keeping h small s below there =
      let called = record l { ran = l.ran ++ (t.callback ∷ []) } in
      let kept = act-Keeps called (body t.callback) now n (keeping t.callback) h small s in
      let acted = act called (body t.callback) now in
      let still : find t.id acted.timers ≡ some t = kept.timers t.id below ∙ there in
      let rearmed = record t { expires_at = now + t.interval } in
      let m : EventLoop = record acted {
        timers = if t.repeat then insert t.id rearmed acted.timers else erase t.id acted.timers;
      } in
      (
        m,
        rw (there, run_timer) (unfold rearm in rw (still, rearm) refl),
        record {
          timers = λ j k.
              find_settled t.repeat t.id j rearmed acted.timers kept.sorted
              ∙ ap (λ o. if t.id == j then again now t else o) (kept.timers j k);
          ids = kept.ids;
          calls = kept.calls;
          sorted = settled-IsSorted t.repeat t.id rearmed acted.timers kept.sorted;
        },
      )

  -- What is left where these timers have been called.
  unfoldable pub fates : ℕ → List TimerTask → ℕ → Option TimerTask → Option TimerTask
  fates now [] j o = o
  fates now (t ∷ ts) j o = fates now ts j (if t.id == j then again now t else o)

  -- Timers to call: each is set, with an id below `n`, and stands once.
  abbrev pub AreSet : ℕ → EventLoop → List TimerTask → Type 0
  AreSet n l [] = Unit
  AreSet n l (t ∷ ts) =
      (t.id < n)
      × (find t.id l.timers ≡ some t)
      × All (λ (u : TimerTask). (t.id == u.id) ≡ false) ts
      × AreSet n l ts

  AreSet-Called :
      (n now : ℕ) (t : TimerTask) (l m : EventLoop) (ts : List TimerTask)
      → Called n now t l m
      → All (λ (u : TimerTask). (t.id == u.id) ≡ false) ts
      → AreSet n l ts
      → AreSet n m ts
  AreSet-Called n now t l m [] c a h = tt
  AreSet-Called n now t l m (u ∷ ts) c a (below, there, apart, rest) =
      (below, c.timers u.id below ∙ rw a.0 there, apart, AreSet-Called n now t l m ts c a.1 rest)

  abbrev pub cost : TimerTask → ℕ
  cost t = sets (body t.callback)

  pub run_each-fates :
      (l : EventLoop) (ts : List TimerTask) (now n : ℕ)
      → ((f : ℕ) → All IsKeeping (body f))
      → n ≤ l.next_timer_id
      → l.next_timer_id + sum_of cost ts < 2 ^ 64
      → IsSorted l.timers
      → AreSet n l ts
      → (m : EventLoop) × (run_each body l ts now ≡ some m)
        × (m.ran ≡ l.ran ++ map (λ (t : TimerTask). t.callback) ts)
        × ((j : ℕ) → j < n → find j m.timers ≡ fates now ts j (find j l.timers))
  unfolding run_each fates sum_of
  run_each-fates l [] now n keeping h small s a = (l, refl, sym (append-nil l.ran), λ j k. refl)
  run_each-fates l (t ∷ ts) now n keeping h small s (below, there, apart, rest) =
      let (m, e, c) = run_timer-Called l t now n keeping h (omega arith) s below there in
      let (last, f, calls, timers) =
        run_each-fates m ts now n keeping (omega (arith, c.ids)) (omega (arith, c.ids)) c.sorted
          (AreSet-Called n now t l m ts c apart rest) in
      (
        last,
        rw (e, run_each) f,
        calls
            ∙ ap (λ r. r ++ map (λ (t : TimerTask). t.callback) ts) c.calls
            ∙ append_assoc l.ran (t.callback ∷ []) (map (λ (t : TimerTask). t.callback) ts),
        λ j k. timers j k ∙ ap (fates now ts j) (c.timers j k),
      )
