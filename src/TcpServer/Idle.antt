-- ===== src/TcpServer/Idle.antt =====
-- src/TcpServer.cpp: the check for idle connections.
use my_rpc_project.Base.{
  ℕ, ◌≡◌, refl, sym, ap, ◌∙◌, Bool, true, false, not, ◌&&◌, List, [], ◌∷◌, Option, none, some, All,
  inl, inr, Bool-cases, ◌==◌, if◌then◌else◌, arith,
}
use my_rpc_project.ThreadPool.{is_alive}
use my_rpc_project.TcpServer.{
  TcpServer, Connection, force_closes, Dispatch, dispatch, erase, holds, set_connections,
  force_close, force_close_in_loop, check_from, check_idle_connections,
}
use my_rpc_project.TcpServer.Serving.{
  IsOfPool, IsServing, IsOnce, erase-IsServing, dispatch-IsServing,
}

-- The dispatches of a check that visits these entries, after others.
unfoldable pub forced : (ℕ → Bool) → List Connection → List Dispatch → List Dispatch
forced idle [] ds = ds
forced idle (c ∷ cs) ds =
    let closing : Dispatch = record { alive = true; loop = c.loop; job = force_closes c.id } in
    forced idle cs (if idle c.id then closing ∷ ds else ds)

holds-erase :
    (i j : ℕ) (cs : List Connection)
    → IsOnce cs
    → holds j (erase i cs) ≡ (holds j cs && not (i == j))
unfolding holds erase IsOnce
holds-erase i j [] o = refl
holds-erase i j (c ∷ cs) o = ground (arith, o.0, holds-erase i j cs o.1)

-- What a check does to the entries that it visits.
record Checks (n : ℕ) (idle : ℕ → Bool) (s : TcpServer) (cs : List Connection) (t : TcpServer)
    : Type 0 where
  pub serving : IsServing n t
  pub left : (j : ℕ) → holds j t.connections ≡ (holds j s.connections && not (holds j cs && idle j))
  pub told : t.dispatched ≡ forced idle cs s.dispatched

-- The entry that is idle.
unfoldable visited : TcpServer → Connection → TcpServer
visited s c =
    let told = dispatch s c.loop (force_closes c.id) in
    set_connections told (erase c.id told.connections)

pub force_close_tells :
    (s : TcpServer) (c : Connection)
    → (c.loop == 0) ≡ false
    → force_close s c ≡ dispatch s c.loop (force_closes c.id)
unfolding force_close
force_close_tells s c apart =
    let told = dispatch s c.loop (force_closes c.id) in
    ap (λ b. if b then force_close_in_loop told c else told) apart

check_from-idle :
    (idle : ℕ → Bool) (s : TcpServer) (c : Connection) (cs : List Connection)
    → (c.loop == 0) ≡ false
    → holds c.id s.connections ≡ true
    → check_from idle s (c ∷ cs)
      ≡ (if idle c.id then check_from idle (visited s c) cs else check_from idle s cs)
unfolding check_from visited dispatch
check_from-idle idle s c cs apart here =
    let next : TcpServer → Option TcpServer =
      λ t. check_from idle (set_connections t (erase c.id t.connections)) cs in
    let rest = check_from idle s cs in
    ap
      (λ (t : TcpServer).
        if idle c.id then if holds c.id t.connections then next t else none else rest)
      (force_close_tells s c apart)
    ∙ ap
        (λ b.
          if idle c.id
          then if b then next (dispatch s c.loop (force_closes c.id)) else none
          else rest)
        here

visited-IsServing :
    (n : ℕ) (s : TcpServer) (c : Connection)
    → IsOfPool s.thread_pool c.loop
    → IsServing n s
    → IsServing n (visited s c)
unfolding visited
visited-IsServing n s c p v =
    erase-IsServing n (dispatch s c.loop (force_closes c.id)) c.id
      (dispatch-IsServing n s c.loop (force_closes c.id) p v)

-- Entries that are in the map stay there when another one is erased.
All-erase_other :
    (c : Connection) (cs ds : List Connection)
    → IsOnce ds
    → holds c.id cs ≡ false
    → All (λ (d : Connection). holds d.id ds ≡ true) cs
    → All (λ (d : Connection). holds d.id (erase c.id ds) ≡ true) cs
unfolding holds
All-erase_other c [] ds o h a = tt
All-erase_other c (d ∷ cs) ds o h a =
    (ground (arith, a.0, holds-erase c.id d.id ds o), All-erase_other c cs ds o (ground arith) a.1)

idle_same : (idle : ℕ → Bool) (i j : ℕ) → (i == j) ≡ true → idle i ≡ idle j
idle_same idle i j e = ap idle (ground arith)

check_from-Checks :
    (n : ℕ) (idle : ℕ → Bool) (s : TcpServer) (cs : List Connection)
    → IsServing n s
    → IsOnce cs
    → All (λ (c : Connection). IsOfPool s.thread_pool c.loop) cs
    → All (λ (c : Connection). holds c.id s.connections ≡ true) cs
    → (t : TcpServer) × (check_from idle s cs ≡ some t) × Checks n idle s cs t
unfolding IsOnce holds forced visited dispatch set_connections is_alive
check_from-Checks n idle s [] v o p h =
    (s, unfold check_from in refl, record { serving = v; left = λ j. ground arith; told = refl })
check_from-Checks n idle s (c ∷ cs) v o p h =
    let branches = check_from-idle idle s c cs p.0.apart h.0 in
    let branch : Bool → Option TcpServer =
      λ b. if b then check_from idle (visited s c) cs else check_from idle s cs in
    let closing : Bool → Dispatch =
      λ b. record { alive = b; loop = c.loop; job = force_closes c.id } in
    elim (Bool-cases (idle c.id)) [
      | inl yes_idle ↦
          let (t, e, r) =
            check_from-Checks n idle (visited s c) cs (visited-IsServing n s c p.0 v) o.1 p.1
              (All-erase_other c cs s.connections v.once o.0 h.1) in
          (
            t,
            branches ∙ ap branch yes_idle ∙ e,
            record {
              serving = r.serving;
              left = λ j.
                  ground (
                    arith,
                    r.left j,
                    holds-erase c.id j s.connections v.once,
                    idle_same idle c.id j,
                  );
              told =
                  r.told
                  ∙ ap (λ b. forced idle cs (closing b ∷ s.dispatched)) (ground (arith, p.0.inside))
                  ∙ ap
                      (λ b.
                        forced idle cs (if b then closing true ∷ s.dispatched else s.dispatched))
                      (sym yes_idle);
            },
          )
      | inr not_idle ↦
          let (t, e, r) = check_from-Checks n idle s cs v o.1 p.1 h.1 in
          (
            t,
            branches ∙ ap branch not_idle ∙ e,
            record {
              serving = r.serving;
              left = λ j. ground (arith, r.left j, idle_same idle c.id j);
              told =
                  r.told
                  ∙ ap
                      (λ b.
                        forced idle cs (if b then closing true ∷ s.dispatched else s.dispatched))
                      (sym not_idle);
            },
          )
    ]

All-holds_more :
    (c : Connection) (cs ds : List Connection)
    → All (λ (d : Connection). holds d.id ds ≡ true) cs
    → All (λ (d : Connection). holds d.id (c ∷ ds) ≡ true) cs
unfolding holds
All-holds_more c [] ds a = tt
All-holds_more c (d ∷ cs) ds a = (ground (arith, a.0), All-holds_more c cs ds a.1)

All-holds : (cs : List Connection) → All (λ (c : Connection). holds c.id cs ≡ true) cs
All-holds [] = tt
All-holds (c ∷ cs) = (unfold holds in ground arith, All-holds_more c cs cs (All-holds cs))

-- On a server with loops of its own that serves: the check returns, with no use of an iterator to an
-- erased entry; the map has lost exactly the idle connections, and each of them, in the order of the
-- map, has been told to close on its loop.
pub check_idle_connections-IsServing :
    (n : ℕ) (idle : ℕ → Bool) (s : TcpServer)
    → IsServing n s
    → (t : TcpServer) × (check_idle_connections idle s ≡ some t)
      × IsServing n t
      × ((j : ℕ) → holds j t.connections ≡ (holds j s.connections && not (idle j)))
      × (t.dispatched ≡ forced idle s.connections s.dispatched)
unfolding check_idle_connections
check_idle_connections-IsServing n idle s v =
    let (t, e, r) =
      check_from-Checks n idle s s.connections v v.once v.listed (All-holds s.connections) in
    (t, e, r.serving, λ j. ground (arith, r.left j), r.told)
