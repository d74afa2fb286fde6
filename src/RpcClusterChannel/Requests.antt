-- ===== src/RpcClusterChannel/Requests.antt =====
-- src/RpcClusterChannel.cpp: how many requests a call makes.
use my_rpc_project.Base.{
  ℕ, suc, ◌+◌, ◌-◌, ◌*◌, ◌≤◌, ◌≡◌, refl, sym, subst, Bool, true, false, List, [], ◌∷◌, some,
  get_elem?, All, sum_of, ltb, ◌==◌, if◌then◌else◌, inl, inr, Option-cases, arith,
}
use my_rpc_project.Base.Maps.{insert}
use my_rpc_project.Protocol.{Status}
use my_rpc_project.RpcClusterChannel.{
  Cluster, add_instance, remove_instance, apply_instances, set_retry_options,
}
use my_rpc_project.RpcClusterChannel.Attempts.{
  no_index, Call, Attempt, Sleeping, Hedge, Client, Round, attempt_once, call_async, on_answer,
  on_hedge,
}
use my_rpc_project.RpcClusterChannel.Events.{
  Event, calls, answers, wakes, hedges, adds, removes, refreshes, configures, drop_at, set_cluster,
  new_client, step, run,
}
use my_rpc_project.RpcClusterChannel.Credit.{
  sum_of-drop_at, All-drop_at, All-get, of_attempt, of_sleeping, of_hedge, held, IsNumbered, IsDue,
  Spares, Spares-less,
}
use my_rpc_project.RpcClusterChannel.Spending.{
  attempt_once-Spares, on_answer-Spares, on_hedge-Spares,
}

-- Twice the largest number of attempts for each call that has begun.
abbrev bound_of : ℕ → ℕ → ℕ → ℕ
bound_of m next d = if ltb d next then 2 * m else 0

-- Within the bounds, with nothing to spare.
abbrev IsWithin : ℕ → Client → Type 0
IsWithin m s = Spares m s.next_call (bound_of m s.next_call) 0 0 s

-- An event sets no options that allow more than `m` attempts.
abbrev pub IsLimited : {D : Type 0} → ℕ → Event D → Type 0
IsLimited m (configures options) = options.max_attempts ≤ m
IsLimited m _ = Unit

module _ (m : ℕ) where
  at_next : (n : ℕ) (c : ℕ) (s : Client) → Spares m n (bound_of m n) c 0 s → IsWithin m s
  at_next n c s h =
      subst (λ k. Spares m k (bound_of m k) 0 0 s) (sym h.next_call)
        (Spares-less m n (bound_of m n) c 0 0 0 s h (inl refl))

  cluster-IsWithin :
      (s : Client) (c : Cluster)
      → c.retry_options.max_attempts ≤ m
      → IsWithin m s
      → IsWithin m (set_cluster s c)
  cluster-IsWithin s c small h = record {
    numbered = h.numbered;
    due = h.due;
    next_call = refl;
    limited = small;
    below = λ d. unfold held in h.below d;
  }

module _ {D : Type 0} (m : ℕ) (some_allowed : 1 ≤ m) where
  call_async-IsWithin :
      (r : Round D) (s : Client) (idempotent : Bool) (request_key : ℕ)
      → IsWithin m s
      → IsWithin m (call_async r s idempotent request_key)
  unfolding call_async
  call_async-IsWithin r s idempotent request_key h =
      let n = s.next_call in
      let call : Call = record {
        idempotent = idempotent;
        request_key = request_key;
        status = Status.ok;
        completed = false;
        done = 0;
      } in
      let begun : Client = record s { calls = insert n call s.calls; next_call = suc n } in
      let credit : Spares m (suc n) (bound_of m (suc n)) n (m + (suc m - 1)) begun = record {
        numbered = h.numbered;
        due = h.due;
        next_call = refl;
        limited = h.limited;
        below = λ d. unfold held in ground (arith, h.below d);
      } in
      at_next m (suc n) n _ (
        attempt_once-Spares m (suc n) r (bound_of m (suc n)) begun n 1 no_index true some_allowed
          credit)

  answers-IsWithin :
      (r : Round D) (s : Client) (k : ℕ) (a : Attempt) (status : Status)
      → get_elem? s.sent k ≡ some a
      → IsWithin m s
      → IsWithin m (on_answer r (record s { sent = drop_at k s.sent }) a status)
  answers-IsWithin r s k a status e h =
      let small = All-get (IsNumbered m) k s.sent a h.numbered e in
      at_next m s.next_call a.call _ (
        on_answer-Spares m s.next_call r (bound_of m s.next_call)
          (record s { sent = drop_at k s.sent }) a status small.1
          (record {
            numbered = All-drop_at (IsNumbered m) k s.sent h.numbered;
            due = h.due;
            next_call = refl;
            limited = h.limited;
            below = λ d.
                unfold held in
                ground (arith, h.below d, sum_of-drop_at (of_attempt m d) k s.sent a e);
          }))

  wakes-IsWithin :
      (r : Round D) (s : Client) (k : ℕ) (w : Sleeping)
      → get_elem? s.sleeping k ≡ some w
      → IsWithin m s
      → IsWithin m (
          attempt_once r
            (record s { sleeping = drop_at k s.sleeping })
            w.call
            w.number
            no_index
            false)
  wakes-IsWithin r s k w e h =
      let small = All-get (IsDue m) k s.sleeping w h.due e in
      at_next m s.next_call w.call _ (
        attempt_once-Spares m s.next_call r (bound_of m s.next_call)
          (record s { sleeping = drop_at k s.sleeping }) w.call w.number no_index false small
          (record {
            numbered = h.numbered;
            due = All-drop_at (IsDue m) k s.sleeping h.due;
            next_call = refl;
            limited = h.limited;
            below = λ d.
                unfold held in
                ground (arith, h.below d, sum_of-drop_at (of_sleeping m d) k s.sleeping w e);
          }))

  hedges-IsWithin :
      (r : Round D) (s : Client) (k : ℕ) (g : Hedge)
      → get_elem? s.hedges k ≡ some g
      → IsWithin m s
      → IsWithin m (on_hedge r (record s { hedges = drop_at k s.hedges }) g)
  hedges-IsWithin r s k g e h = at_next m s.next_call g.call _ (
      on_hedge-Spares m s.next_call r (bound_of m s.next_call)
        (record s { hedges = drop_at k s.hedges }) g some_allowed
        (record {
          numbered = h.numbered;
          due = h.due;
          next_call = refl;
          limited = h.limited;
          below = λ d.
              unfold held in
              ground (arith, h.below d, sum_of-drop_at (of_hedge m d) k s.hedges g e);
        }))

  step-IsWithin : (s : Client) (e : Event D) → IsLimited m e → IsWithin m s → IsWithin m (step s e)
  unfolding step
  step-IsWithin s (calls idempotent request_key r) l h =
      call_async-IsWithin r s idempotent request_key h
  step-IsWithin s (answers k status r) l h = elim (Option-cases (get_elem? s.sent k)) [
    | inl gone ↦ rw (gone, step) h
    | inr (a, there) ↦ rw (there, step) (answers-IsWithin r s k a status there h)
  ]
  step-IsWithin s (wakes k r) l h = elim (Option-cases (get_elem? s.sleeping k)) [
    | inl gone ↦ rw (gone, step) h
    | inr (w, there) ↦ rw (there, step) (wakes-IsWithin r s k w there h)
  ]
  step-IsWithin s (hedges k r) l h = elim (Option-cases (get_elem? s.hedges k)) [
    | inl gone ↦ rw (gone, step) h
    | inr (g, there) ↦ rw (there, step) (hedges-IsWithin r s k g there h)
  ]
  step-IsWithin s (adds host port) l h =
      cluster-IsWithin m s (add_instance s.cluster host port)
        (unfold add_instance in ground (arith, h.limited)) h
  step-IsWithin s (removes host port) l h =
      cluster-IsWithin m s (remove_instance s.cluster host port)
        (unfold remove_instance in h.limited) h
  step-IsWithin s (refreshes infos) l h =
      cluster-IsWithin m s (apply_instances s.cluster infos) (unfold apply_instances in h.limited) h
  step-IsWithin s (configures options) l h =
      cluster-IsWithin m s (set_retry_options s.cluster options) (unfold set_retry_options in l) h

  run-IsWithin :
      (s : Client) (es : List (Event D))
      → All (IsLimited m) es
      → IsWithin m s
      → IsWithin m (run s es)
  unfolding run
  run-IsWithin s [] l h = h
  run-IsWithin s (e ∷ es) l h = run-IsWithin (step s e) es l.1 (step-IsWithin s e l.0 h)

-- How many requests of a call have been handed to channels.
unfoldable pub requests_of : ℕ → List Attempt → ℕ
requests_of c xs = sum_of (λ a. if a.call == c then 1 else 0) xs

requests_of-le : (m : ℕ) (s : Client) (c : ℕ) → requests_of c s.requests ≤ held m s c
unfolding requests_of held
requests_of-le m s c = omega arith

-- Over any events of a new client whose options never allow more than `m` attempts, `m` at least the
-- default of 3: no call makes more than 2 · m requests, retries and backup requests included.
pub run-requests :
    {D : Type 0} (m : ℕ) (es : List (Event D)) (c : ℕ)
    → 3 ≤ m
    → All (IsLimited m) es
    → requests_of c (run new_client es).requests ≤ 2 * m
run-requests m es c default l =
    let start : IsWithin m new_client = record {
      numbered = tt;
      due = tt;
      next_call = refl;
      limited = default;
      below = λ d. unfold held sum_of in ground arith;
    } in
    let h = run-IsWithin m (omega arith) new_client es l start in
    ground (arith, h.below c, requests_of-le m (run new_client es) c)
