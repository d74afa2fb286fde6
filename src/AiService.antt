-- ===== src/AiService.antt =====
-- include/AIService.h and src/AIService.cpp, with src/TaskCoordinator.cpp. A worker holds the lock from
-- its wake-up until it has a task, so that taking one is one step; a worker that finds neither a task
-- nor a stop goes on waiting. A callback is a number.
pub mod Answers
mod Tests
use my_rpc_project.Base.{
  ℕ, zero, suc, ◌+◌, ◌-◌, Bool, true, false, List, [], ◌∷◌, ◌++◌, Option, none, some, ◌==◌,
  if◌then◌else◌,
}

pub record Task : Type 0 where
  pub prompt : List ℕ
  pub done : Option ℕ

pub record AiService : Type 0 where
  pub running : Bool
  pub tasks : List Task
  pub waiting : ℕ
  pub busy : List Task
  pub answered : List (ℕ × List ℕ)

abbrev pub new_service : ℕ → AiService
new_service worker_count = record {
  running = true;
  tasks = [];
  waiting = if worker_count == 0 then 1 else worker_count;
  busy = [];
  answered = [];
}

-- "Intent(" and "Reasoning(", each with the prompt and ")".
abbrev pub run_sub_task_a : List ℕ → List ℕ
run_sub_task_a prompt = (73 ∷ 110 ∷ 116 ∷ 101 ∷ 110 ∷ 116 ∷ 40 ∷ []) ++ (prompt ++ (41 ∷ []))

abbrev pub run_sub_task_b : List ℕ → List ℕ
run_sub_task_b prompt =
    (82 ∷ 101 ∷ 97 ∷ 115 ∷ 111 ∷ 110 ∷ 105 ∷ 110 ∷ 103 ∷ 40 ∷ []) ++ (prompt ++ (41 ∷ []))

-- "AI: ", the parts of both futures, and " | " between them.
unfoldable pub execute : List ℕ → List ℕ
execute prompt =
    (65 ∷ 73 ∷ 58 ∷ 32 ∷ [])
    ++ (run_sub_task_a prompt ++ ((32 ∷ 124 ∷ 32 ∷ []) ++ run_sub_task_b prompt))

unfoldable pub infer_async : AiService → List ℕ → Option ℕ → AiService
infer_async s prompt cb =
    if s.running
    then record s { tasks = s.tasks ++ (record { prompt = prompt; done = cb } ∷ []) }
    else s

-- `stop` up to its joins: it returns once no worker is left.
unfoldable pub stop : AiService → AiService
stop s = if s.running then record s { running = false } else s

-- A worker that waits gets the lock, with the queue as it is.
unfoldable pub take_from : AiService → List Task → AiService
take_from s [] = if s.running then s else record s { waiting = s.waiting - 1 }
take_from s (task ∷ tasks) = record s {
  tasks = tasks;
  waiting = s.waiting - 1;
  busy = task ∷ s.busy;
}

unfoldable pub take_task : AiService → AiService
take_task s = if s.waiting == 0 then s else take_from s s.tasks

unfoldable pub answer : Task → List (ℕ × List ℕ)
answer task = elim task.done [ none ↦ [] | some cb ↦ (cb, execute task.prompt) ∷ [] ]

-- The worker at a place of `busy` finishes its task, and waits again.
unfoldable pub finish_from : AiService → List Task → List Task → AiService
finish_from s before [] = s
finish_from s before (task ∷ after) = record s {
  waiting = s.waiting + 1;
  busy = before ++ after;
  answered = answer task ++ s.answered;
}

-- The tasks that the worker at place `k` has before it, and those from it on.
unfoldable pub split_at : ℕ → List Task → List Task × List Task
split_at zero tasks = ([], tasks)
split_at (suc k) [] = ([], [])
split_at (suc k) (task ∷ tasks) = let (before, after) = split_at k tasks in (task ∷ before, after)

unfoldable pub finish_task : AiService → ℕ → AiService
finish_task s k = let (before, after) = split_at k s.busy in finish_from s before after
