-- ===== src/RpcServer/Events.antt =====
-- src/RpcServer.cpp: what happens to a server, as a run of events.
use my_rpc_project.Base.{ℕ, zero, suc, Bool, List, [], ◌∷◌, Option, none, some}
use my_rpc_project.Protocol.{Status}
use my_rpc_project.Framer.{Message}
use my_rpc_project.Serializer.{Value}
use my_rpc_project.RpcServer.{
  RpcServer, Delivery, RequestContext, on_message, handle_request, on_done, begin_stop,
}

abbrev pub put_back : {A : Type 0} → A → Option (A × List A) → Option (A × List A)
put_back x none = none
put_back x (some (y, ys)) = some (y, x ∷ ys)

-- The member at a position, and the list without it.
unfoldable pub take_at : {A : Type 0} → ℕ → List A → Option (A × List A)
take_at i [] = none
take_at zero (x ∷ xs) = some (x, xs)
take_at (suc i) (x ∷ xs) = put_back x (take_at i xs)

-- A frame is received; the executor runs one of its tasks; a handler calls its `done`; the shutdown
-- begins.
pub data Event : Type 0 where
  receives : (conn : ℕ) → Message → Event
  executes : (i fresh now : ℕ) → Event
  finishes : (i : ℕ) → Status → Value → (now : ℕ) → (alive : Bool) → Event
  begins_stop : Event

-- An executed task is taken off the list.
unfoldable pub execute : RpcServer → Option (Delivery × List Delivery) → ℕ → ℕ → RpcServer
execute s none fresh now = s
execute s (some (d, rest)) fresh now = handle_request (record s { tasks = rest }) d fresh now

unfoldable pub finish :
    RpcServer
    → Option (RequestContext × List RequestContext)
    → Status
    → Value
    → ℕ
    → Bool
    → RpcServer
finish s none status response now alive = s
finish s (some (ctx, rest)) status response now alive =
    on_done (record s { running = rest }) ctx status response now alive

unfoldable pub step : RpcServer → Event → RpcServer
unfolding execute finish
step s (receives conn m) = on_message s conn m
step s (executes i fresh now) = execute s (take_at i s.tasks) fresh now
step s (finishes i status response now alive) =
    finish s (take_at i s.running) status response now alive
step s begins_stop = begin_stop s

unfoldable pub run : RpcServer → List Event → RpcServer
unfolding step
run s [] = s
run s (e ∷ es) = run (step s e) es
