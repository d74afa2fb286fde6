-- ===== src/Scheduler/Counting.antt =====
-- src/Scheduler.cpp: the coroutines that the queue, the heap and the workers have.
use my_rpc_project.Base.{
  ℕ, zero, suc, ◌+◌, ◌≤◌, ◌<◌, ◌≡◌, ◌≢◌, refl, sym, ap, ◌∙◌, false, List, [], ◌∷◌, map, count, ltb,
  ◌==◌, ==_iff, Bool-cases, inl, inr, if◌then◌else◌, arith,
}
use my_rpc_project.Scheduler.{
  Phase, idle, runs, parks, ends, back, tested, exited, SleepEntry, Scheduler, update, push_heap,
}

-- A worker runs the coroutine, has ended it, is back from it, or is parking it.
abbrev pub is_running : ℕ → Phase → ℕ
is_running c (runs d) = if d == c then 1 else 0
is_running c _ = 0

abbrev pub is_ending : ℕ → Phase → ℕ
is_ending c (ends d) = if d == c then 1 else 0
is_ending c _ = 0

abbrev pub is_back : ℕ → Phase → ℕ
is_back c (back d) = if d == c then 1 else 0
is_back c _ = 0

abbrev pub is_parking : ℕ → Phase → ℕ
is_parking c (parks d) = if d == c then 1 else 0
is_parking c _ = 0

-- The sum of a measure over the first `n` workers.
unfoldable pub workers : (Phase → ℕ) → ℕ → (ℕ → Phase) → ℕ
workers w zero f = 0
workers w (suc n) f = workers w n f + w (f n)

unfoldable pub sleeping_count : ℕ → List SleepEntry → ℕ
sleeping_count c [] = 0
sleeping_count c (e ∷ es) = (if e.coro == c then 1 else 0) + sleeping_count c es

-- In how many places a coroutine is: in the queue, on the heap, with a worker that runs it, that has
-- ended it or that is back from it with `done` set, or deleted.
unfoldable pub places : ℕ → Scheduler → ℕ → ℕ
places n s c =
    count c s.ready
    + (sleeping_count c s.sleeping
        + (workers (is_running c) n s.phase
            + (workers (is_ending c) n s.phase
                + ((if count c s.done == 0 then 0 else workers (is_back c) n s.phase)
                    + count c s.deleted))))

update_above :
    (w : Phase → ℕ) (n i : ℕ) (f : ℕ → Phase) (p : Phase)
    → n ≤ i
    → workers w n (update f i p) ≡ workers w n f
unfolding workers
update_above w zero i f p h = refl
update_above w (suc n) i f p h =
    let other : (i == n) ≡ false = ground arith in
    rw other (omega (arith, update_above w n i f p (omega arith)))

pub workers-update :
    (w : Phase → ℕ) (n i : ℕ) (f : ℕ → Phase) (p q : Phase)
    → i < n
    → f i ≡ q
    → workers w n (update f i p) + w q ≡ workers w n f + w p
unfolding workers
workers-update w zero i f p q h e = absurd (omega arith)
workers-update w (suc n) i f p q h e = elim (Bool-cases (i == n)) [
  | inl last ↦
      let at : i ≡ n = (==_iff i n).0 last in
      let held : w (f n) ≡ w q = ap (λ k. w (f k)) (sym at) ∙ ap w e in
      rw last (omega (arith, update_above w n i f p (omega arith)))
  | inr below ↦
      let lt : i < n = let ne : i ≢ n = λ at. ground arith in omega arith in
      rw below (omega (arith, workers-update w n i f p q lt e))
]

-- A worker's measure is in the sum.
pub workers-le : (w : Phase → ℕ) (n i : ℕ) (f : ℕ → Phase) → i < n → w (f i) ≤ workers w n f
unfolding workers
workers-le w zero i f h = absurd (omega arith)
workers-le w (suc n) i f h = elim (Bool-cases (i == n)) [
  | inl last ↦ let at : w (f i) ≡ w (f n) = ap (λ k. w (f k)) ((==_iff i n).0 last) in omega arith
  | inr below ↦
      let lt : i < n = let ne : i ≢ n = λ at. ground arith in omega arith in
      omega (arith, workers-le w n i f lt)
]

pub workers_none :
    (w : Phase → ℕ) (n : ℕ) (f : ℕ → Phase) → ((i : ℕ) → i < n → w (f i) ≡ 0) → workers w n f ≡ 0
unfolding workers
workers_none w zero f none = refl
workers_none w (suc n) f none =
    omega (arith, none n (omega arith), workers_none w n f (λ i h. none i (omega arith)))

pub sleeping_count-push_heap :
    (c : ℕ) (e : SleepEntry) (es : List SleepEntry)
    → sleeping_count c (push_heap e es) ≡ (if e.coro == c then 1 else 0) + sleeping_count c es
unfolding sleeping_count push_heap
sleeping_count-push_heap c e [] = refl
sleeping_count-push_heap c e (f ∷ fs) = ground (arith, sleeping_count-push_heap c e fs)

pub count-map :
    (c : ℕ) (es : List SleepEntry)
    → count c (map (λ (e : SleepEntry). e.coro) es) ≡ sleeping_count c es
unfolding sleeping_count
count-map c [] = refl
count-map c (e ∷ es) = ground (arith, count-map c es)

pub not_parking : (c : ℕ) (p : Phase) → p ≢ parks c → is_parking c p ≡ 0
not_parking c (parks d) apart = elim (Bool-cases (d == c)) [
  | inl same ↦ absurd (apart (ap parks ((==_iff d c).0 same)))
  | inr other ↦ rw other refl
]
not_parking c idle apart = refl
not_parking c (runs d) apart = refl
not_parking c (ends d) apart = refl
not_parking c (back d) apart = refl
not_parking c tested apart = refl
not_parking c exited apart = refl

pub not_back : (c : ℕ) (p : Phase) → p ≢ back c → is_back c p ≡ 0
not_back c (back d) apart = elim (Bool-cases (d == c)) [
  | inl same ↦ absurd (apart (ap back ((==_iff d c).0 same)))
  | inr other ↦ rw other refl
]
not_back c idle apart = refl
not_back c (runs d) apart = refl
not_back c (ends d) apart = refl
not_back c (parks d) apart = refl
not_back c tested apart = refl
not_back c exited apart = refl

-- Every coroutine that has been spawned is in one place, and no other is anywhere; one that a worker has
-- ended is done, one that is done has been ended, and one that is not is on the heap as long as a worker
-- is parking it or back from it.
pub record IsSound (n : ℕ) (s : Scheduler) : Type 0 where
  pub placed : (c : ℕ) → places n s c ≡ (if ltb c s.spawned then 1 else 0)
  pub ended : (c : ℕ) → 0 < workers (is_ending c) n s.phase → 0 < count c s.done
  pub settled :
      (c : ℕ)
      → 0 < count c s.done
      → 0 < workers (is_ending c) n s.phase + (workers (is_back c) n s.phase + count c s.deleted)
  pub parked : (c : ℕ) → 0 < workers (is_parking c) n s.phase → 0 < sleeping_count c s.sleeping
  pub held :
      (c : ℕ)
      → count c s.done ≡ 0
      → 0 < workers (is_back c) n s.phase
      → 0 < sleeping_count c s.sleeping
