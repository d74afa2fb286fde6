-- ===== src/AiService/Tests.antt =====
-- A run of the service of src/AIService.cpp with two workers, of which the second prompt is answered
-- first, and one prompt comes too late.
use my_rpc_project.Base.{ℕ, ◌≡◌, refl, List, [], ◌∷◌, none, some, sum_of, ◌+◌}
use my_rpc_project.AiService.{
  new_service, infer_async, stop, take_task, take_from, finish_task, finish_from, split_at, answer,
}
use my_rpc_project.AiService.Answers.{
  Event, infers, takes, finishes, stops, step, run, accepted, run-answers,
}

abbrev events : List Event
events =
    infers (1 ∷ []) (some 5)
    ∷ infers (2 ∷ []) (some 6)
    ∷ infers (3 ∷ []) none
    ∷ takes
    ∷ takes
    ∷ finishes 0
    ∷ stops
    ∷ infers (4 ∷ []) (some 7)
    ∷ takes
    ∷ finishes 0
    ∷ finishes 0
    ∷ takes
    ∷ takes
    ∷ []

all_left : ((run (new_service 2) events).waiting ≡ 0) × ((run (new_service 2) events).busy ≡ [])
unfolding run step infer_async stop take_task take_from finish_task finish_from split_at
all_left = (refl, refl)

run-answers_example :
    sum_of (λ (a : ℕ × List ℕ). a.0) (run (new_service 2) events).answered
    ≡ sum_of
        (λ task. sum_of (λ (a : ℕ × List ℕ). a.0) (answer task))
        (accepted (new_service 2) events)
run-answers_example = run-answers 2 events (λ a. a.0) all_left.0 all_left.1

-- The callbacks 5 and 6 have been called.
called : sum_of (λ (a : ℕ × List ℕ). a.0) (run (new_service 2) events).answered ≡ 5 + 6
unfolding run step infer_async stop take_task take_from finish_task finish_from split_at answer
    sum_of
called = refl
