-- ===== src/Buffer/Tests.antt =====
-- Runs of the buffer of src/Buffer.cpp on concrete bytes.
use my_rpc_project.Base.{◌≡◌, refl, List, [], ◌∷◌, arith}
use my_rpc_project.Buffer.{Buffer, IsValid, init, append, retrieve_as_string, contents}
use my_rpc_project.Buffer.Contents.{
  Request, appends, retrieves, reads, resets, run, run_queue, Agrees, run-run_queue,
}

abbrev window : Buffer
window = record { storage = 7 ∷ 8 ∷ 9 ∷ 0 ∷ []; read_index = 1; write_index = 3 }

window-IsValid : IsValid window
window-IsValid = record { ordered = omega arith; inside = omega arith }

abbrev requests : List Request
requests =
    reads 1 ∷ appends (1 ∷ 2 ∷ 3 ∷ []) ∷ retrieves 1 ∷ reads 9 ∷ resets ∷ appends (4 ∷ []) ∷ []

run-window : (run window requests).0 ≡ (8 ∷ []) ∷ (1 ∷ 2 ∷ 3 ∷ []) ∷ []
unfolding run retrieve_as_string append
run-window = refl

append_grows : (append (init 2) (5 ∷ 6 ∷ 7 ∷ [])).storage ≡ 5 ∷ 6 ∷ 7 ∷ 0 ∷ []
unfolding append init
append_grows = refl

run-run_queue_example : Agrees (run window requests) (run_queue (contents window) requests)
run-run_queue_example = run-run_queue window requests window-IsValid
