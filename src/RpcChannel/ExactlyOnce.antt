-- ===== src/RpcChannel/ExactlyOnce.antt =====
-- src/RpcChannel.cpp: over any run of events, the callback of each call runs exactly once.
use my_rpc_project.Base.{
  ℕ, ◌+◌, ◌^◌, ◌≤◌, ◌<◌, ◌≡◌, refl, ap, subst, ◌∙◌, List, [], ◌∷◌, Option, none, some, count, ◌==◌,
  if◌then◌else◌, arith, inl, inr, Option-cases,
}
use my_rpc_project.Protocol.{Status}
use my_rpc_project.RpcChannel.{RpcChannel, fresh, active, on_call_timeout, cancel_call}
use my_rpc_project.RpcChannel.Connection.{stop}
use my_rpc_project.RpcChannel.Events.{
  Event, calls, arms, sends, times_out, cancels, responds, ticks, closes, stops, connect_times_out,
  starts, becomes_writable, reconnects, step, run,
}
use my_rpc_project.RpcChannel.Table.{empty-IsTable}
use my_rpc_project.RpcChannel.Calls.{
  Keeps, finished, fail_pending-Keeps, dispatch_response-Keeps, handle_close-Keeps, stop-Keeps,
  async_call-Keeps,
}
use my_rpc_project.RpcChannel.Runs.{
  After, send_in_loop-Keeps, on_heartbeat_tick-Keeps, arm_deadline-Keeps, start-Keeps,
  handle_connect_write-Keeps, on_connect_timeout-Keeps, on_reconnect-Keeps,
}

-- How many calls an event issues, and how many of them are the call `c`.
abbrev pub issues : Event → ℕ
issues (calls call timeout_ms now) = 1
issues _ = 0

abbrev pub issues_of : ℕ → Event → ℕ
issues_of c (calls call timeout_ms now) = if call == c then 1 else 0
issues_of c _ = 0

unfoldable pub issued_calls : List Event → ℕ
issued_calls [] = 0
issued_calls (e ∷ es) = issues e + issued_calls es

unfoldable pub issued_of : ℕ → List Event → ℕ
issued_of c [] = 0
issued_of c (e ∷ es) = issues_of c e + issued_of c es

-- A ledger holds as well for a larger bound and an equal account.
relax :
    {a b : ℕ → ℕ} {m n : ℕ} (ch : RpcChannel)
    → m ≤ n
    → ((c : ℕ) → a c ≡ b c)
    → Keeps a m ch
    → Keeps b n ch
relax ch h e k = record {
  book = record {
    table = k.book.table;
    small = omega (arith, k.book.small);
    sum = λ c. k.book.sum c ∙ e c;
  };
}

relax-After :
    {a b : ℕ → ℕ} {m n : ℕ} (r : Option RpcChannel)
    → m ≤ n
    → ((c : ℕ) → a c ≡ b c)
    → After (Keeps a m) r
    → After (Keeps b n) r
relax-After none h e k = tt
relax-After (some ch) h e k = relax ch h e k

abbrev Next : (ℕ → ℕ) → ℕ → Event → Option RpcChannel → Type 0
Next issued n e r = After (Keeps (λ c. issued c + issues_of c e) (n + issues e)) r

module _ (issued : ℕ → ℕ) (n : ℕ) where
  -- An event that issues no call keeps the account.
  quiet :
      (r : Option RpcChannel)
      → After (Keeps issued n) r
      → After (Keeps (λ c. issued c + 0) (n + 0)) r
  quiet r k = relax-After r (omega arith) (λ c. omega arith) k

  step-Next :
      (ch : RpcChannel) (e : Event)
      → n + 1 < 2 ^ 32
      → Keeps issued n ch
      → Next issued n e (step ch e)
  unfolding step on_call_timeout cancel_call
  step-Next ch (calls call timeout_ms now) h k = async_call-Keeps ch call timeout_ms now h k
  step-Next ch (arms id now) h k = quiet (some _) (arm_deadline-Keeps ch id now k)
  step-Next ch (sends id method_id timeout_ms body trace_id w) h k =
      quiet (some _) (send_in_loop-Keeps ch id method_id timeout_ms body trace_id w k)
  step-Next ch (times_out id) h k =
      quiet (some _) (fail_pending-Keeps ch id Status.deadline_exceeded k)
  step-Next ch (cancels id status) h k = quiet (some _) (fail_pending-Keeps ch id status k)
  step-Next ch (responds m now) h k = quiet (some _) (dispatch_response-Keeps ch m now k)
  step-Next ch (ticks now w) h k = quiet (some _) (on_heartbeat_tick-Keeps ch now w k)
  step-Next ch closes h k = quiet (some _) (handle_close-Keeps ch k)
  step-Next ch stops h k = quiet (some _) (stop-Keeps ch k)
  step-Next ch connect_times_out h k = quiet (some _) (on_connect_timeout-Keeps ch k)
  step-Next ch (starts r now w) h k = quiet _ (start-Keeps ch ch.state r now w refl k)
  step-Next ch (becomes_writable so_error now w) h k =
      quiet _ (handle_connect_write-Keeps ch so_error now w k)
  step-Next ch (reconnects r now w) h k = quiet _ (on_reconnect-Keeps ch r now w k)

run-Keeps :
    (issued : ℕ → ℕ) (n : ℕ) (ch : RpcChannel) (es : List Event)
    → n + issued_calls es + 1 < 2 ^ 32
    → Keeps issued n ch
    → After (Keeps (λ c. issued c + issued_of c es) (n + issued_calls es)) (run ch es)
unfolding run issued_calls issued_of
run-Keeps issued n ch [] h k = relax ch (omega arith) (λ c. omega arith) k
run-Keeps issued n ch (e ∷ es) h k = elim (Option-cases (step ch e)) [
  | inl crash ↦ rw (crash, run) tt
  | inr (d, stepped) ↦
      let next : Keeps (λ c. issued c + issues_of c e) (n + issues e) d =
        subst (Next issued n e) stepped (step-Next issued n ch e (omega arith) k) in
      rw (stepped, run)
        (relax-After (run d es) (omega arith) (λ c. omega arith)
          (run-Keeps (λ c. issued c + issues_of c e) (n + issues e) d es (omega arith) next))
]

fresh-Keeps : Keeps (λ c. 0) 0 fresh
unfolding active finished
fresh-Keeps = record {
  book = record { table = empty-IsTable; small = omega arith; sum = λ c. refl };
}

stop-active : (ch : RpcChannel) → active (stop ch).pending ≡ []
unfolding stop active
stop-active ch = refl

-- From a new channel, over any events that do not crash it, in any order: each call was issued as
-- often as it stands in the table of pending calls or has had its callback run, so none is lost and
-- none is finished twice. Once the channel is stopped every issued call has been finished, as often
-- as it was issued.
pub run-exactly_once :
    (es : List Event) (ch : RpcChannel)
    → issued_calls es + 1 < 2 ^ 32
    → run fresh es ≡ some ch
    → (c : ℕ)
    → (count c (active ch.pending) + finished c ch.done ≡ issued_of c es)
      × (finished c (stop ch).done ≡ issued_of c es)
run-exactly_once es ch h e c =
    let k : Keeps (λ c. 0 + issued_of c es) (0 + issued_calls es) ch =
      subst (After (Keeps (λ c. 0 + issued_of c es) (0 + issued_calls es))) e
        (run-Keeps (λ c. 0) 0 fresh es (omega arith) fresh-Keeps) in
    let s = stop-Keeps ch k in
    (omega (arith, k.book.sum c), omega (arith, s.book.sum c, ap (count c) (stop-active ch)))
