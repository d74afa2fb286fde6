-- ===== src/EventLoop/Fates.antt =====
-- src/EventLoop.cpp: what `runTimers` makes of each timer.
use my_rpc_project.Base.{
  ℕ, ◌+◌, ◌^◌, ◌<◌, ◌≡◌, refl, sym, ap, subst, ◌∙◌, true, false, List, [], ◌∷◌, ◌++◌, map, All,
  Option, none, some, inl, inr, sum_of, Bool-cases, ltb, leb, ◌==◌, if◌then◌else◌, arith,
}
use my_rpc_project.Base.Maps.{Map, find, find-IsAbove, IsAbove, IsSorted}
use my_rpc_project.EventLoop.{EventLoop, TimerTask, Action, expired, run_timers}
use my_rpc_project.EventLoop.Timers.{IsKeeping}
use my_rpc_project.EventLoop.Keeping.{sets, again}
use my_rpc_project.EventLoop.Calls.{fates, AreSet, cost, run_each-fates}

-- What becomes of a timer: one whose time has come has been called.
abbrev pub fate : ℕ → Option TimerTask → Option TimerTask
fate now none = none
fate now (some t) = if ltb now t.expires_at then some t else again now t

-- The functors of the timers whose time has come.
unfoldable pub due : ℕ → Map TimerTask → List ℕ
due now [] = []
due now ((id, t) ∷ m) = if ltb now t.expires_at then due now m else t.callback ∷ due now m

module _ (body : ℕ → List Action) where
  -- Each timer stands under its id, which has been given out.
  abbrev pub AreKeyed : ℕ → Map TimerTask → Type 0
  AreKeyed n m = All (λ (e : ℕ × TimerTask). (e.1.id ≡ e.0) × (e.0 < n)) m

  apart_from :
      (now n : ℕ) (t : TimerTask) (m : Map TimerTask)
      → IsAbove t.id m
      → AreKeyed n m
      → All (λ (u : TimerTask). (t.id == u.id) ≡ false) (expired now m)
  unfolding expired
  apart_from now n t [] a k = tt
  apart_from now n t ((id, u) ∷ m) a k =
      let rest = apart_from now n t m a.1 k.1 in
      elim (Bool-cases (leb u.expires_at now)) [
        | inl late ↦ rw late (ground (arith, a.0, k.0), rest)
        | inr early ↦ rw early rest
      ]

  expired-AreSet :
      (now n : ℕ) (l : EventLoop) (m : Map TimerTask)
      → IsSorted m
      → AreKeyed n m
      → All (λ (e : ℕ × TimerTask). find e.0 l.timers ≡ some e.1) m
      → AreSet body n l (expired now m)
  unfolding expired IsSorted
  expired-AreSet now n l [] s k f = tt
  expired-AreSet now n l ((id, t) ∷ m) s k f =
      let rest = expired-AreSet now n l m s.1 k.1 f.1 in
      let same : t.id ≡ id = k.0.0 in
      elim (Bool-cases (leb t.expires_at now)) [
        | inl late ↦ rw late (
          omega (arith, k.0.1),
          ap (λ i. find i l.timers) same ∙ f.0,
          apart_from now n t m (subst (λ i. IsAbove i m) (sym same) s.0) k.1,
          rest,
        )
        | inr early ↦ rw early rest
      ]

  -- An id that is not in the map is not called.
  fates-none :
      (now n j : ℕ) (m : Map TimerTask) (o : Option TimerTask)
      → AreKeyed n m
      → find j m ≡ none
      → fates body now (expired now m) j o ≡ o
  unfolding expired fates find
  fates-none now n j [] o k e = refl
  fates-none now n j ((id, t) ∷ m) o k e = elim (Bool-cases (id == j)) [
    | inl same ↦ absurd (ground (arith, e))
    | inr other ↦
        let rest : find j m ≡ none = ground (arith, e) in
        let differs : (t.id == j) ≡ false = ground (arith, k.0) in
        elim (Bool-cases (leb t.expires_at now)) [
          | inl late ↦ rw late (
              ap (λ b. fates body now (expired now m) j (if b then again now t else o)) differs
              ∙ fates-none now n j m o k.1 rest)
          | inr early ↦ rw early (fates-none now n j m o k.1 rest)
        ]
  ]

  fates-fate :
      (now n j : ℕ) (m : Map TimerTask)
      → IsSorted m
      → AreKeyed n m
      → fates body now (expired now m) j (find j m) ≡ fate now (find j m)
  unfolding expired fates find IsSorted
  fates-fate now n j [] s k = refl
  fates-fate now n j ((id, t) ∷ m) s k = elim (Bool-cases (id == j)) [
    | inl same ↦
        let gone : find j m ≡ none = ground (arith, find-IsAbove id m s.0) in
        let here : (t.id == j) ≡ true = ground (arith, k.0) in
        elim (Bool-cases (leb t.expires_at now)) [
          | inl late ↦
              let not_early : ltb now t.expires_at ≡ false = ground arith in
              rw (late, same, not_early)
                (ap (λ b. fates body now (expired now m) j (if b then again now t else some t)) here
                  ∙ fates-none now n j m (again now t) k.1 gone)
          | inr early ↦
              let is_early : ltb now t.expires_at ≡ true = ground arith in
              rw (early, same, is_early) (fates-none now n j m (some t) k.1 gone)
        ]
    | inr other ↦
        let differs : (t.id == j) ≡ false = ground (arith, k.0) in
        elim (Bool-cases (leb t.expires_at now)) [
          | inl late ↦
              rw (late, other)
                (ap (λ b. fates body now (expired now m) j (if b then again now t else find j m))
                    differs
                  ∙ fates-fate now n j m s.1 k.1)
          | inr early ↦ rw (early, other) (fates-fate now n j m s.1 k.1)
        ]
  ]

  callbacks-due :
      (now : ℕ) (m : Map TimerTask)
      → map (λ (t : TimerTask). t.callback) (expired now m) ≡ due now m
  unfolding expired due
  callbacks-due now [] = refl
  callbacks-due now ((id, t) ∷ m) = elim (Bool-cases (leb t.expires_at now)) [
    | inl late ↦
        let not_early : ltb now t.expires_at ≡ false = ground arith in
        rw (late, not_early) (ap (◌∷◌ t.callback) (callbacks-due now m))
    | inr early ↦
        let is_early : ltb now t.expires_at ≡ true = ground arith in
        rw (early, is_early) (callbacks-due now m)
  ]

  cost-due :
      (now : ℕ) (m : Map TimerTask)
      → sum_of (cost body) (expired now m) ≡ sum_of (λ f. sets (body f)) (due now m)
  unfolding sum_of expired due
  cost-due now [] = refl
  cost-due now ((id, t) ∷ m) = ground (arith, cost-due now m)

  found_later :
      (id : ℕ) (t : TimerTask) (m all : Map TimerTask)
      → IsAbove id m
      → All (λ (e : ℕ × TimerTask). find e.0 all ≡ some e.1) m
      → All (λ (e : ℕ × TimerTask). find e.0 ((id, t) ∷ all) ≡ some e.1) m
  unfolding find
  found_later id t [] all a f = tt
  found_later id t ((j, u) ∷ m) all a f = (ground (arith, a.0, f.0), found_later id t m all a.1 f.1)

  found : (m : Map TimerTask) → IsSorted m → All (λ (e : ℕ × TimerTask). find e.0 m ≡ some e.1) m
  unfolding IsSorted
  found [] s = tt
  found ((id, t) ∷ m) s = (unfold find in ground arith, found_later id t m m s.0 (found m s.1))

  -- Where no functor cancels a timer, each timer stands under its id, and the ids that the functors take
  -- do not reach 2^64: `runTimers` comes to its end, also where functors queue others and set new timers.
  -- It has called the functors of exactly the timers whose time has come, in the order of their ids; of
  -- the timers that were there before, those whose time has not come are as they were, those that repeat
  -- are set for their interval from now, and the others are gone.
  pub run_timers-runs :
      (l : EventLoop) (now : ℕ)
      → ((f : ℕ) → All IsKeeping (body f))
      → IsSorted l.timers
      → AreKeyed l.next_timer_id l.timers
      → l.next_timer_id + sum_of (λ f. sets (body f)) (due now l.timers) < 2 ^ 64
      → (m : EventLoop) × (run_timers body l now ≡ some m)
        × (m.ran ≡ l.ran ++ due now l.timers)
        × ((j : ℕ) → j < l.next_timer_id → find j m.timers ≡ fate now (find j l.timers))
  unfolding run_timers
  run_timers-runs l now keeping s k small =
      let n = l.next_timer_id in
      let (m, e, calls, timers) =
        run_each-fates body l (expired now l.timers) now n keeping (omega arith)
          (omega (arith, cost-due now l.timers)) s
          (expired-AreSet now n l l.timers s k (found l.timers s)) in
      (
        m,
        e,
        calls ∙ ap (λ r. l.ran ++ r) (callbacks-due now l.timers),
        λ j h. timers j h ∙ fates-fate now n j l.timers s k,
      )
