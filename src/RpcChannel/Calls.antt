-- ===== src/RpcChannel/Calls.antt =====
-- src/RpcChannel.cpp: every call is in the table or finished, and finished once.
use my_rpc_project.Base.{
  ℕ, suc, ◌+◌, ◌%◌, ◌^◌, ◌≤◌, ◌<◌, ◌≡◌, refl, ap, List, [], ◌∷◌, ◌++◌, none, some, length, set,
  count, ◌==◌, if◌then◌else◌, arith, inl, inr, Option-cases, length-set, if_elim, Bool-cases,
}
use my_rpc_project.Protocol.{Status, status_code}
use my_rpc_project.Framer.{Message}
use my_rpc_project.RpcChannel.{
  RpcChannel, Completion, PendingCall, active, is_closed, slot_of, find_pending, release_slot,
  complete, observe_latency, fail_all, take_slot, fail_pending, dispatch_response, async_call,
}
use my_rpc_project.RpcChannel.Connection.{handle_close, stop}
use my_rpc_project.RpcChannel.Table.{
  IsTable, Slots, Taken, take_slot-Taken, count-active-set, find_pending-some, release-IsTable,
  empty-IsTable,
}

-- How often the callback of the call `c` has run.
unfoldable pub finished : ℕ → List Completion → ℕ
finished c [] = 0
finished c (d ∷ ds) = if d.call == c then suc (finished c ds) else finished c ds

-- The table is in order, it has at most `n` slots, and each call is in it or finished as often as
-- `issued` says.
pub record Ledger (issued : ℕ → ℕ) (n : ℕ) (p : Slots) (free : List ℕ) (done : List Completion)
    : Type 0 where
  pub table : IsTable p free
  pub small : length p ≤ n
  pub sum : (c : ℕ) → count c (active p) + finished c done ≡ issued c

pub record Keeps (issued : ℕ → ℕ) (n : ℕ) (ch : RpcChannel) : Type 0 where
  pub book : Ledger issued n ch.pending ch.free_slots ch.done

finished-append :
    (c : ℕ) (ds es : List Completion) → finished c (ds ++ es) ≡ finished c ds + finished c es
unfolding finished
finished-append c [] es = omega arith
finished-append c (d ∷ ds) es = ground (arith, finished-append c ds es)

finished-fail_all : (c : ℕ) (cs : List ℕ) → finished c (fail_all cs) ≡ count c cs
unfolding finished fail_all
finished-fail_all c [] = refl
finished-fail_all c (x ∷ cs) = ground (arith, finished-fail_all c cs)

module _ {issued : ℕ → ℕ} {n : ℕ} (p : Slots) (free : List ℕ) (done : List Completion)
    (k : Ledger issued n p free done) where
  -- A call that is found leaves the table as its callback runs.
  finish-Ledger :
      (id : ℕ) (pc : PendingCall) (status : ℕ) (body : List ℕ)
      → find_pending p id ≡ some pc
      → Ledger issued n
          (set p (slot_of id) none)
          (free ++ (slot_of id ∷ []))
          (done ++ (record { call = pc.call; status = status; body = body } ∷ []))
  unfolding finished
  finish-Ledger id pc status body e =
      let (found, own) = find_pending-some p id pc e in
      record {
        table = release-IsTable p free (slot_of id) pc found k.table;
        small = omega (arith, length-set p (slot_of id) none, k.small);
        sum = λ c. ground (
          arith,
          count-active-set c p (slot_of id) (some pc) none found,
          finished-append c done (record { call = pc.call; status = status; body = body } ∷ []),
          k.sum c,
        );
      }

  -- A table that is given up is finished as a whole.
  doom-Ledger : Ledger issued n [] [] (done ++ fail_all (active p))
  unfolding active
  doom-Ledger = record {
    table = empty-IsTable;
    small = omega arith;
    sum = λ c. omega (
      arith,
      finished-append c done (fail_all (active p)),
      finished-fail_all c (active p),
      k.sum c,
    );
  }

module _ {issued : ℕ → ℕ} {n : ℕ} where
  pub fail_pending-Keeps :
      (ch : RpcChannel) (id : ℕ) (status : Status)
      → Keeps issued n ch
      → Keeps issued n (fail_pending ch id status)
  unfolding fail_pending release_slot complete
  fail_pending-Keeps ch id status k = elim (Option-cases (find_pending ch.pending id)) [
    | inl e ↦ rw (e, fail_pending) k
    | inr (pc, e) ↦
        rw (e, fail_pending)
          (record { book = finish-Ledger ch.pending ch.free_slots ch.done k.book id pc _ [] e })
  ]

  pub dispatch_response-Keeps :
      (ch : RpcChannel) (m : Message) (now : ℕ)
      → Keeps issued n ch
      → Keeps issued n (dispatch_response ch m now)
  unfolding dispatch_response observe_latency release_slot complete
  dispatch_response-Keeps ch m now k =
      let status = m.header.status in
      let body = if status == 0 then m.body else [] in
      elim (Option-cases (find_pending ch.pending m.header.request_id)) [
        | inl e ↦ rw (e, dispatch_response) k
        | inr (pc, e) ↦
            let book =
              finish-Ledger ch.pending ch.free_slots ch.done k.book m.header.request_id pc status
                body e in
            rw (e, dispatch_response)
              (if_elim (λ c. Keeps issued n (complete c pc.call status body)) (status == 0)
                (record { book = book }) (record { book = book }))
      ]

  doom-Keeps :
      (ch : RpcChannel)
      → Keeps issued n ch
      → Ledger issued n [] [] (ch.done ++ fail_all (active ch.pending))
  doom-Keeps ch k = doom-Ledger ch.pending ch.free_slots ch.done k.book

  pub handle_close-Keeps : (ch : RpcChannel) → Keeps issued n ch → Keeps issued n (handle_close ch)
  unfolding handle_close
  handle_close-Keeps ch k = if_elim (Keeps issued n) (is_closed ch.state) k (
      if_elim (Keeps issued n) ch.reconnect_enabled (record { book = doom-Keeps ch k })
        (record { book = doom-Keeps ch k }))

  pub stop-Keeps : (ch : RpcChannel) → Keeps issued n ch → Keeps issued n (stop ch)
  unfolding stop
  stop-Keeps ch k = record { book = doom-Keeps ch k }

-- A new call is in the table, or finished at once if the channel is closed.
pub async_call-Keeps :
    {issued : ℕ → ℕ} {n : ℕ} (ch : RpcChannel) (call timeout_ms now : ℕ)
    → n + 1 < 2 ^ 32
    → Keeps issued n ch
    → Keeps
        (λ c. issued c + (if call == c then 1 else 0))
        (n + 1)
        (async_call ch call timeout_ms now).1
unfolding async_call complete finished
async_call-Keeps {issued} {n} ch call timeout_ms now room k =
    elim (Bool-cases (is_closed ch.state)) [
      | inl shut ↦
          let book : Ledger (λ c. issued c + (if call == c then 1 else 0)) (n + 1) ch.pending
              ch.free_slots
              (ch.done
                ++ (record { call = call; status = status_code Status.unknown; body = [] } ∷ [])) =
            record {
              table = k.book.table;
              small = omega (arith, k.book.small);
              sum = λ c. ground (
                arith,
                finished-append c ch.done
                    (record { call = call; status = status_code Status.unknown; body = [] } ∷ []),
                k.book.sum c,
              );
            } in
          rw (shut, async_call) (record { book = book })
      | inr live ↦
          let (slot, pending, free) = take_slot ch.pending ch.free_slots in
          let pc : PendingCall = record {
            id = (slot + 1) % 2 ^ 32;
            call = call;
            timeout_ms = timeout_ms;
            start = now;
          } in
          let t : Taken ch.pending pc slot pending free =
            take_slot-Taken ch.pending ch.free_slots pc k.book.table in
          rw (live, async_call)
            (record {
              book = record {
                table = t.in_order (omega (arith, t.below, k.book.small));
                small = omega (arith, t.size, k.book.small, length-set pending slot (some pc));
                sum = λ c. ground (
                  arith,
                  count-active-set c pending slot none (some pc) t.empty,
                  ap (count c) t.same,
                  k.book.sum c,
                );
              };
            })
    ]
