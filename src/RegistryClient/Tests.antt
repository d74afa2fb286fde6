-- ===== src/RegistryClient/Tests.antt =====
-- A run of the client of src/RegistryClient.cpp against the server, with services named by one letter.
use my_rpc_project.Base.{ℕ, ◌≡◌, refl, List, [], ◌∷◌, arith}
use my_rpc_project.LocalRegistry.{LocalRegistry}
use my_rpc_project.LocalRegistry.Events.{run}
use my_rpc_project.RegistryClient.{watch_loop}
use my_rpc_project.RegistryClient.Remote.{
  Action, calls, sweep, registration, removal, renewal, query, poll, answered, unanswered, lost,
  reached_by, remote_run, given_by, remote_run-run,
}

abbrev name_of : ℕ → List ℕ
name_of service = service ∷ []

abbrev number_of : List ℕ → ℕ
number_of [] = 0
number_of (c ∷ cs) = c

abbrev actions : List Action
actions =
    calls (poll 5 9 0) answered
    ∷ calls
        (registration (record { service = 5; host = 104 ∷ []; port = 8080; instance_id = 1 }) 1000
          0)
        answered
    ∷ calls
        (registration (record { service = 5; host = 105 ∷ []; port = 8081; instance_id = 2 }) 100 0)
        unanswered
    ∷ calls (renewal 5 1 50) answered
    ∷ calls (query 5 200) answered
    ∷ calls (removal 5 1 300) lost
    ∷ sweep 400
    ∷ calls (query 5 400) answered
    ∷ []

remote_run-run_example :
    let r : LocalRegistry = record { services = []; notified = [] } in
    remote_run name_of number_of (λ service. refl) r actions
    ≡ (given_by name_of number_of (λ service. refl) r actions, run r (reached_by actions))
remote_run-run_example =
    remote_run-run name_of number_of (λ service. refl) actions
      (
        tt,
        (
          (omega arith, omega arith),
          ((omega arith, omega arith), (tt, (tt, (tt, (tt, (tt, tt)))))),
        ),
      )

-- A poll that times out calls nothing back.
timeouts : watch_loop (5 ∷ 0 ∷ 5 ∷ 0 ∷ []) ≡ 2
unfolding watch_loop
timeouts = refl
