-- ===== src/Scheduler/Races.antt =====
-- src/Scheduler.cpp: `coSleep` before its switch.
use my_rpc_project.Base.{
  ℕ, ◌+◌, ◌<◌, ◌≡◌, ◌≢◌, refl, ap, true, false, [], ◌∷◌, count, count-append, ◌++◌, ◌==◌, ==_iff,
  arith,
}
use my_rpc_project.Scheduler.{
  idle, runs, parks, tested, SleepEntry, Scheduler, update, push_heap, hand_on, Step, take, park,
  wake, tick, switch, finish, delete, yield_back, ends, back, Reach, here, next,
}

-- A coroutine can be on the stacks of two workers at once: where a worker runs it, another one is idle,
-- nothing is ready or asleep, and it is not done, the steps of the threads lead to a state in which
-- the first worker is still in its `coSleep`, for any time, while the second one runs it.
pub coro_on_two_workers :
    (n i j c ms : ℕ) (s : Scheduler)
    → i < n
    → j < n
    → i ≢ j
    → s.phase i ≡ runs c
    → s.phase j ≡ idle
    → s.ready ≡ []
    → s.sleeping ≡ []
    → count c s.done ≡ 0
    → (t : Scheduler) × Reach n s t × (t.phase i ≡ parks c) × (t.phase j ≡ runs c)
unfolding push_heap hand_on
coro_on_two_workers n i j c ms s h k other e g none_ready none_asleep alive =
    let entry : SleepEntry = record { deadline = s.now + ms; coro = c } in
    let parked : Scheduler = record s {
      sleeping = push_heap entry s.sleeping;
      phase = update s.phase i (parks c);
    } in
    let late : Scheduler = record parked { now = s.now + ms } in
    let woken : Scheduler = record late { sleeping = []; ready = hand_on late c } in
    let taken : Scheduler = record woken { ready = []; phase = update woken.phase j (runs c) } in
    let asleep : parked.sleeping ≡ entry ∷ [] = ap (push_heap entry) none_asleep in
    let queued : woken.ready ≡ c ∷ [] =
      let zero : (count c s.done == 0) ≡ true = (==_iff _ _).1 alive in
      rw (zero, none_ready) refl in
    let j_idle : woken.phase j ≡ idle =
      let apart : (i == j) ≡ false = ground (arith, other) in rw apart g in
    let first : Step n s parked = park i c ms h e in
    let passed : Step n parked late = tick (s.now + ms) (omega arith) in
    let second : Step n late woken = wake entry [] asleep (omega arith) in
    let third : Step n woken taken = take j c [] k j_idle queued in
    (
      taken,
      next (next (next (next here first) passed) second) third,
      ground (arith, other),
      ground arith,
    )

-- A coroutine can be deleted while a worker is on its stack, and then once more: where a worker runs it,
-- another one is idle, nothing is ready or asleep, and it is neither done nor deleted, the steps of the
-- threads lead to a state in which the first worker, back from a sleep of any time, has deleted it
-- while the second one is still in its `coroutineEntry`, and from there to a second deletion.
pub deleted_in_use :
    (n i j c ms : ℕ) (s : Scheduler)
    → i < n
    → j < n
    → i ≢ j
    → s.phase i ≡ runs c
    → s.phase j ≡ idle
    → s.ready ≡ []
    → s.sleeping ≡ []
    → count c s.done ≡ 0
    → count c s.deleted ≡ 0
    → (t : Scheduler) × Reach n s t
      × (t.phase j ≡ ends c)
      × (count c t.deleted ≡ 1)
      × (u : Scheduler) × Reach n t u
      × (count c u.deleted ≡ 2)
unfolding push_heap hand_on
deleted_in_use n i j c ms s h k other e g none_ready none_asleep alive undeleted =
    let entry : SleepEntry = record { deadline = s.now + ms; coro = c } in
    let parked : Scheduler = record s {
      sleeping = push_heap entry s.sleeping;
      phase = update s.phase i (parks c);
    } in
    let switched : Scheduler = record parked { phase = update parked.phase i (back c) } in
    let late : Scheduler = record switched { now = s.now + ms } in
    let woken : Scheduler = record late { sleeping = []; ready = hand_on late c } in
    let taken : Scheduler = record woken { ready = []; phase = update woken.phase j (runs c) } in
    let ended : Scheduler = record taken {
      done = c ∷ s.done;
      phase = update taken.phase j (ends c);
    } in
    let gone : Scheduler = record ended {
      deleted = s.deleted ++ (c ∷ []);
      phase = update ended.phase i tested;
    } in
    let returned : Scheduler = record gone { phase = update gone.phase j (back c) } in
    let again : Scheduler = record returned {
      deleted = gone.deleted ++ (c ∷ []);
      phase = update returned.phase j tested;
    } in
    let asleep : switched.sleeping ≡ entry ∷ [] = ap (push_heap entry) none_asleep in
    let queued : woken.ready ≡ c ∷ [] =
      let zero : (count c s.done == 0) ≡ true = (==_iff _ _).1 alive in
      rw (zero, none_ready) refl in
    let apart : (i == j) ≡ false = ground (arith, other) in
    let apart_too : (j == i) ≡ false = ground (arith, other) in
    let j_idle : woken.phase j ≡ idle = rw apart g in
    let i_parks : parked.phase i ≡ parks c = ground arith in
    let j_runs : taken.phase j ≡ runs c = ground arith in
    let i_back : ended.phase i ≡ back c = rw apart_too (ground arith) in
    let j_ends : gone.phase j ≡ ends c = rw apart (ground arith) in
    let j_back : returned.phase j ≡ back c = ground arith in
    let finished : 0 < count c (c ∷ s.done) = ground arith in
    let once : count c gone.deleted ≡ 1 = ground (arith, count-append c s.deleted (c ∷ [])) in
    let first : Step n s parked = park i c ms h e in
    let second : Step n parked switched = switch i c h i_parks in
    let passed : Step n switched late = tick (s.now + ms) (omega arith) in
    let third : Step n late woken = wake entry [] asleep (omega arith) in
    let fourth : Step n woken taken = take j c [] k j_idle queued in
    let fifth : Step n taken ended = finish j c k j_runs in
    let sixth : Step n ended gone = delete i c h i_back finished in
    let seventh : Step n gone returned = yield_back j c k j_ends in
    let eighth : Step n returned again = delete j c k j_back finished in
    (
      gone,
      next (next (next (next (next (next (next here first) second) passed) third) fourth) fifth)
          sixth,
      j_ends,
      once,
      again,
      next (next here seventh) eighth,
      ground (arith, once, count-append c gone.deleted (c ∷ [])),
    )
