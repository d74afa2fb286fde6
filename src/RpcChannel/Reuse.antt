-- ===== src/RpcChannel/Reuse.antt =====
-- src/RpcChannel.cpp: request ids are slot numbers, and a freed slot is used again under its old id.
use my_rpc_project.Base.{
  ℕ, ◌+◌, ◌%◌, ◌^◌, ◌≤◌, ◌<◌, ◌≡◌, refl, ap, ◌∙◌, false, [], ◌∷◌, ◌++◌, Option, none, some, set,
  get_elem?, ◌==◌, ==_self, ==_iff, if◌then◌else◌, Bool-cases, inl, inr, arith,
}
use my_rpc_project.Protocol.{Status, status_code}
use my_rpc_project.Framer.{Message}
use my_rpc_project.RpcChannel.{
  RpcChannel, PendingCall, Completion, is_closed, slot_of, find_pending, release_slot, complete,
  observe_latency, take_slot, fail_pending, on_call_timeout, dispatch_response, async_call,
}
use my_rpc_project.RpcChannel.Table.{Slots, get_elem?-set, find_pending-some}

find_pending-set :
    (p : Slots) (id : ℕ) (old : Option PendingCall) (pc : PendingCall)
    → get_elem? p (slot_of id) ≡ some old
    → pc.id ≡ id
    → find_pending (set p (slot_of id) (some pc)) id ≡ some pc
unfolding find_pending
find_pending-set p id old pc e own =
    let s = slot_of id in
    let stored : get_elem? (set p s (some pc)) s ≡ some (some pc) =
      get_elem?-set p s s old (some pc) e ∙ rw (==_self s) in
    rw (stored, find_pending, (==_iff pc.id id).1 own)

-- A channel whose one empty slot is the one that `id` has just given back.
record Freed (id : ℕ) (c : RpcChannel) : Type 0 where
  empty : get_elem? c.pending (slot_of id) ≡ some none
  only : c.free_slots ≡ slot_of id ∷ []
  live : is_closed c.state ≡ false

-- The next call gets the id again, and is what the id stands for from then on.
reuse :
    (id : ℕ) (c : RpcChannel) (b timeout_ms now : ℕ)
    → Freed id c
    → 1 ≤ id
    → id < 2 ^ 32
    → let (id', d) = async_call c b timeout_ms now in
      (id' ≡ id)
      × (find_pending d.pending id
          ≡ some (record { id = id; call = b; timeout_ms = timeout_ms; start = now }))
      × (d.done ≡ c.done)
      × (d.deadlines ≡ c.deadlines)
unfolding async_call take_slot
reuse id c b timeout_ms now f lo hi =
    let pc = λ (k : ℕ).
      let r : PendingCall = record { id = k; call = b; timeout_ms = timeout_ms; start = now } in
      r in
    let own : (slot_of id + 1) % 2 ^ 32 ≡ id = omega arith in
    rw (f.live, f.only, take_slot)
      (
        own,
        ap (λ k. find_pending (set c.pending (slot_of id) (some (pc k))) id) own
            ∙ find_pending-set c.pending id none (pc id) f.empty refl,
        refl,
        refl,
      )

-- A call leaves its slot, the only empty one.
freed :
    (ch c : RpcChannel) (id : ℕ) (pc : PendingCall)
    → find_pending ch.pending id ≡ some pc
    → ch.free_slots ≡ []
    → is_closed ch.state ≡ false
    → c.pending ≡ set ch.pending (slot_of id) none
    → c.free_slots ≡ ch.free_slots ++ (slot_of id ∷ [])
    → c.state ≡ ch.state
    → Freed id c
freed ch c id pc e full live p f s =
    let found = (find_pending-some ch.pending id pc e).0 in
    record {
      empty =
          ap (λ q. get_elem? q (slot_of id)) p
          ∙ get_elem?-set ch.pending (slot_of id) (slot_of id) (some pc) none found
          ∙ rw (==_self (slot_of id));
      only = f ∙ ap (λ q. q ++ (slot_of id ∷ [])) full;
      live = ap is_closed s ∙ live;
    }

dispatch-Freed :
    (ch : RpcChannel) (pc : PendingCall) (resp : Message) (now : ℕ)
    → find_pending ch.pending resp.header.request_id ≡ some pc
    → ch.free_slots ≡ []
    → is_closed ch.state ≡ false
    → Freed resp.header.request_id (dispatch_response ch resp now)
      × ((dispatch_response ch resp now).deadlines ≡ ch.deadlines)
unfolding dispatch_response observe_latency complete release_slot
dispatch-Freed ch pc resp now e full live = elim (Bool-cases (resp.header.status == 0)) [
  | inl fine ↦ rw (e, dispatch_response, fine) (freed ch _ _ pc e full live refl refl refl, refl)
  | inr bad ↦ rw (e, dispatch_response, bad) (freed ch _ _ pc e full live refl refl refl, refl)
]

fail_pending-found :
    (ch : RpcChannel) (id : ℕ) (pc : PendingCall) (status : Status)
    → find_pending ch.pending id ≡ some pc
    → (fail_pending ch id status).done
      ≡ ch.done ++ (record { call = pc.call; status = status_code status; body = [] } ∷ [])
unfolding fail_pending complete release_slot
fail_pending-found ch id pc status e = rw (e, fail_pending)

-- How a call ends whose deadline has passed.
abbrev pub late_end : ℕ → Completion
late_end call = record { call = call; status = status_code Status.deadline_exceeded; body = [] }

-- A deadline outlives its call. Where a call is answered in time and the next one takes its slot (no
-- other being empty), that one has the same id, the first call's timer is still set, and when the
-- timer runs out it finishes the new call with `deadline_exceeded`, whatever timeout that call has.
pub stale_deadline :
    (ch : RpcChannel) (pc : PendingCall) (resp : Message) (b timeout_ms t now : ℕ)
    → find_pending ch.pending resp.header.request_id ≡ some pc
    → ch.free_slots ≡ []
    → is_closed ch.state ≡ false
    → 1 ≤ resp.header.request_id
    → resp.header.request_id < 2 ^ 32
    → let c = dispatch_response ch resp t in
      let (id, d) = async_call c b timeout_ms now in
      (id ≡ resp.header.request_id)
      × (d.deadlines ≡ ch.deadlines)
      × ((on_call_timeout d id).done ≡ c.done ++ (late_end b ∷ []))
unfolding on_call_timeout
stale_deadline ch pc resp b timeout_ms t now e full live lo hi =
    let c = dispatch_response ch resp t in
    let (f, kept) = dispatch-Freed ch pc resp t e full live in
    let (same, found, quiet, timers) = reuse resp.header.request_id c b timeout_ms now f lo hi in
    let d = (async_call c b timeout_ms now).1 in
    (
      same,
      timers ∙ kept,
      ap (λ k. (fail_pending d k Status.deadline_exceeded).done) same
          ∙ fail_pending-found d resp.header.request_id _ Status.deadline_exceeded found
          ∙ ap (λ l. l ++ (late_end b ∷ [])) quiet,
    )

timeout-Freed :
    (ch : RpcChannel) (pc : PendingCall) (id : ℕ)
    → find_pending ch.pending id ≡ some pc
    → ch.free_slots ≡ []
    → is_closed ch.state ≡ false
    → Freed id (on_call_timeout ch id)
unfolding on_call_timeout fail_pending complete release_slot
timeout-Freed ch pc id e full live =
    rw (e, fail_pending) (freed ch _ _ pc e full live refl refl refl)

timeout-done :
    (ch : RpcChannel) (pc : PendingCall) (id : ℕ)
    → find_pending ch.pending id ≡ some pc
    → (on_call_timeout ch id).done ≡ ch.done ++ (late_end pc.call ∷ [])
unfolding on_call_timeout
timeout-done ch pc id e = fail_pending-found ch id pc Status.deadline_exceeded e

dispatch-found :
    (ch : RpcChannel) (pc : PendingCall) (resp : Message) (now : ℕ)
    → find_pending ch.pending resp.header.request_id ≡ some pc
    → (dispatch_response ch resp now).done
      ≡ ch.done
        ++ (record {
          call = pc.call;
          status = resp.header.status;
          body = if resp.header.status == 0 then resp.body else [];
        }
            ∷ [])
unfolding dispatch_response complete release_slot observe_latency
dispatch-found ch pc resp now e = elim (Bool-cases (resp.header.status == 0)) [
  | inl fine ↦ rw (e, dispatch_response, fine)
  | inr bad ↦ rw (e, dispatch_response, bad)
]

-- A late response is not dropped once its slot is in use again. Where a call runs into its deadline
-- and the next one takes its slot (no other being empty), the response to the first call finishes
-- the second, with the first's status and body.
pub late_response :
    (ch : RpcChannel) (pc : PendingCall) (resp : Message) (b timeout_ms now t : ℕ)
    → find_pending ch.pending resp.header.request_id ≡ some pc
    → ch.free_slots ≡ []
    → is_closed ch.state ≡ false
    → 1 ≤ resp.header.request_id
    → resp.header.request_id < 2 ^ 32
    → let c = on_call_timeout ch resp.header.request_id in
      let d = (async_call c b timeout_ms now).1 in
      (c.done ≡ ch.done ++ (late_end pc.call ∷ []))
      × ((dispatch_response d resp t).done
          ≡ c.done
            ++ (record {
              call = b;
              status = resp.header.status;
              body = if resp.header.status == 0 then resp.body else [];
            }
                ∷ []))
late_response ch pc resp b timeout_ms now t e full live lo hi =
    let id = resp.header.request_id in
    let c = on_call_timeout ch id in
    let end : Completion = record {
      call = b;
      status = resp.header.status;
      body = if resp.header.status == 0 then resp.body else [];
    } in
    let f = timeout-Freed ch pc id e full live in
    let (same, found, quiet, timers) = reuse id c b timeout_ms now f lo hi in
    (
      timeout-done ch pc id e,
      dispatch-found (async_call c b timeout_ms now).1 _ resp t found
          ∙ ap (λ l. l ++ (end ∷ [])) quiet,
    )
