-- ===== src/AiService/Answers.antt =====
-- src/AIService.cpp: each accepted prompt is answered once.
use my_rpc_project.Base.{
  ℕ, zero, suc, ◌+◌, ◌-◌, ◌<◌, ◌≡◌, inl, inr, refl, sym, ap, subst, ◌∙◌, false, List, [], ◌∷◌, ◌++◌,
  Option, length, if_elim, sum_of, sum_of-append, Bool-cases, ◌==◌, if◌then◌else◌, arith,
}
use my_rpc_project.AiService.{
  AiService, Task, new_service, infer_async, stop, take_from, take_task, answer, finish_from,
  split_at, finish_task,
}

pub data Event : Type 0 where
  infers : (prompt : List ℕ) (cb : Option ℕ) → Event
  takes : Event
  finishes : (k : ℕ) → Event
  stops : Event

unfoldable pub step : AiService → Event → AiService
step s (infers prompt cb) = infer_async s prompt cb
step s takes = take_task s
step s (finishes k) = finish_task s k
step s stops = stop s

unfoldable pub run : AiService → List Event → AiService
run s [] = s
run s (e ∷ es) = run (step s e) es

-- The tasks that were accepted, the last one first.
unfoldable pub accepted : AiService → List Event → List Task
accepted s [] = []
accepted s (infers prompt cb ∷ es) =
    let rest = accepted (infer_async s prompt cb) es in
    if s.running then record { prompt = prompt; done = cb } ∷ rest else rest
accepted s (e ∷ es) = accepted (step s e) es

module _ (measure : ℕ × List ℕ → ℕ) where
  -- The measure of a task's answer, and of all that a service has still to answer or has answered.
  abbrev weight : Task → ℕ
  weight task = sum_of measure (answer task)

  abbrev total : AiService → ℕ
  total s = sum_of weight s.tasks + sum_of weight s.busy + sum_of measure s.answered

  split_at-total :
      (k : ℕ) (tasks : List Task)
      → sum_of weight tasks
        ≡ sum_of weight (split_at k tasks).0 + sum_of weight (split_at k tasks).1
  unfolding split_at sum_of
  split_at-total zero tasks = omega arith
  split_at-total (suc k) [] = omega arith
  split_at-total (suc k) (task ∷ tasks) = omega (arith, split_at-total k tasks)

  finish_from-total :
      (s : AiService) (before after : List Task)
      → sum_of weight s.busy ≡ sum_of weight before + sum_of weight after
      → total (finish_from s before after) ≡ total s
  unfolding finish_from sum_of
  finish_from-total s before [] e = refl
  finish_from-total s before (task ∷ after) e =
      omega (
        arith,
        e,
        sum_of-append weight before after,
        sum_of-append measure (answer task) s.answered,
      )

  take_from-total :
      (s : AiService) (tasks : List Task) → s.tasks ≡ tasks → total (take_from s tasks) ≡ total s
  unfolding take_from sum_of
  take_from-total s [] e = ground arith
  take_from-total s (task ∷ tasks) e = omega (arith, ap (sum_of weight) e)

  take_task-total : (s : AiService) → total (take_task s) ≡ total s
  unfolding take_task
  take_task-total s = elim (Bool-cases (s.waiting == 0)) [
    | inl none_waits ↦ ap (λ b. total (if b then s else take_from s s.tasks)) none_waits
    | inr one_waits ↦
        ap (λ b. total (if b then s else take_from s s.tasks)) one_waits
        ∙ take_from-total s s.tasks refl
  ]

  stop-total : (s : AiService) → total (stop s) ≡ total s
  unfolding stop
  stop-total s = ground arith

  infer_async-total :
      (s : AiService) (prompt : List ℕ) (cb : Option ℕ) (rest : List Task)
      → let task : Task = record { prompt = prompt; done = cb } in
        total (infer_async s prompt cb) + sum_of weight rest
        ≡ total s + sum_of weight (if s.running then task ∷ rest else rest)
  unfolding infer_async sum_of
  infer_async-total s prompt cb rest =
      let task : Task = record { prompt = prompt; done = cb } in
      elim (Bool-cases s.running) [
        | inl going ↦ rw going (omega (arith, sum_of-append weight s.tasks (task ∷ [])))
        | inr stopped ↦ rw stopped refl
      ]

  run-total :
      (s : AiService) (es : List Event) → total (run s es) ≡ total s + sum_of weight (accepted s es)
  unfolding run accepted step finish_task sum_of
  run-total s [] = omega arith
  run-total s (infers prompt cb ∷ es) =
      run-total (infer_async s prompt cb) es
      ∙ infer_async-total s prompt cb (accepted (infer_async s prompt cb) es)
  run-total s (takes ∷ es) = omega (arith, run-total (take_task s) es, take_task-total s)
  run-total s (finishes k ∷ es) = omega (
    arith,
    run-total (finish_task s k) es,
    finish_from-total s (split_at k s.busy).0 (split_at k s.busy).1 (split_at-total k s.busy),
  )
  run-total s (stops ∷ es) = omega (arith, run-total (stop s) es, stop-total s)

-- A worker only leaves a service that has been stopped and has no task.
data IsStaffed (s : AiService) : Type 0 where
  staffed : 0 < s.waiting + length s.busy → IsStaffed s
  drained : s.running ≡ false → s.tasks ≡ [] → IsStaffed s

take_from-IsStaffed :
    (s : AiService) (tasks : List Task)
    → s.tasks ≡ tasks
    → IsStaffed s
    → IsStaffed (take_from s tasks)
unfolding take_from
take_from-IsStaffed s (task ∷ tasks) e i = staffed (omega arith)
take_from-IsStaffed s [] e i = elim (Bool-cases s.running) [
  | inl going ↦
      subst (λ b. IsStaffed (if b then s else record s { waiting = s.waiting - 1 })) (sym going) i
  | inr stopped ↦
      subst (λ b. IsStaffed (if b then s else record s { waiting = s.waiting - 1 })) (sym stopped)
        (drained stopped e)
]

take_task-IsStaffed : (s : AiService) → IsStaffed s → IsStaffed (take_task s)
unfolding take_task
take_task-IsStaffed s i =
    if_elim IsStaffed (s.waiting == 0) i (take_from-IsStaffed s s.tasks refl i)

finish_from-IsStaffed :
    (s : AiService) (before after : List Task)
    → IsStaffed s
    → IsStaffed (finish_from s before after)
unfolding finish_from
finish_from-IsStaffed s before [] i = i
finish_from-IsStaffed s before (task ∷ after) i = staffed (omega arith)

stop-IsStaffed : (s : AiService) → IsStaffed s → IsStaffed (stop s)
unfolding stop
stop-IsStaffed s (staffed h) = if_elim IsStaffed s.running (staffed h) (staffed h)
stop-IsStaffed s (drained r e) = if_elim IsStaffed s.running (drained refl e) (drained r e)

infer_async-IsStaffed :
    (s : AiService) (prompt : List ℕ) (cb : Option ℕ)
    → IsStaffed s
    → IsStaffed (infer_async s prompt cb)
unfolding infer_async
infer_async-IsStaffed s prompt cb (staffed h) = if_elim IsStaffed s.running (staffed h) (staffed h)
infer_async-IsStaffed s prompt cb (drained r e) =
    let more = record s { tasks = s.tasks ++ (record { prompt = prompt; done = cb } ∷ []) } in
    subst (λ b. IsStaffed (if b then more else s)) (sym r) (drained r e)

run-IsStaffed : (s : AiService) (es : List Event) → IsStaffed s → IsStaffed (run s es)
unfolding run step finish_task
run-IsStaffed s [] i = i
run-IsStaffed s (infers prompt cb ∷ es) i =
    run-IsStaffed (infer_async s prompt cb) es (infer_async-IsStaffed s prompt cb i)
run-IsStaffed s (takes ∷ es) i = run-IsStaffed (take_task s) es (take_task-IsStaffed s i)
run-IsStaffed s (finishes k ∷ es) i =
    run-IsStaffed (finish_task s k) es
      (finish_from-IsStaffed s (split_at k s.busy).0 (split_at k s.busy).1 i)
run-IsStaffed s (stops ∷ es) i = run-IsStaffed (stop s) es (stop-IsStaffed s i)

no_tasks : (s : AiService) → IsStaffed s → s.waiting ≡ 0 → s.busy ≡ [] → s.tasks ≡ []
no_tasks s (staffed h) w b = absurd (omega (arith, ap length b))
no_tasks s (drained r e) w b = e

-- Over any prompts, turns of workers and stops of a new service, in any order, up to a point where no
-- worker is left, which is where `stop` returns: every accepted prompt that has a callback has been
-- answered exactly once, with what `execute` makes of it, and nothing else has been answered, as any
-- measure of the answers shows.
pub run-answers :
    (worker_count : ℕ) (es : List Event) (measure : ℕ × List ℕ → ℕ)
    → (run (new_service worker_count) es).waiting ≡ 0
    → (run (new_service worker_count) es).busy ≡ []
    → sum_of measure (run (new_service worker_count) es).answered
      ≡ sum_of (λ task. sum_of measure (answer task)) (accepted (new_service worker_count) es)
unfolding sum_of
run-answers worker_count es measure w b =
    let s = new_service worker_count in
    let i : IsStaffed s = staffed (ground arith) in
    let left = no_tasks (run s es) (run-IsStaffed s es i) w b in
    omega (
      arith,
      run-total measure s es,
      ap (sum_of (weight measure)) left,
      ap (sum_of (weight measure)) b,
    )
