-- ===== src/Retry/Tests.antt =====
-- The retry policy of include/RetryPolicy.h on concrete values.
use my_rpc_project.Base.{◌+◌, ◌≤◌, ◌≡◌, refl, true, false, List, [], ◌∷◌}
use my_rpc_project.Protocol.{Status}
use my_rpc_project.Retry.{reset, should_retry}
use my_rpc_project.Retry.Budget.{Event, consumes, refunds, run, refunded, run-granted}

deadline-final : should_retry Status.deadline_exceeded true 0 3 ≡ false
unfolding should_retry
deadline-final = refl

abbrev events : List Event
events = consumes ∷ consumes ∷ refunds ∷ consumes ∷ []

run-granted_example :
    let (granted, last) = run (reset 1) events in
    (granted + last.tokens ≤ 1 + refunded events) × (last.tokens ≤ 1)
run-granted_example = run-granted 1 events
