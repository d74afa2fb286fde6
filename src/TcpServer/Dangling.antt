-- ===== src/TcpServer/Dangling.antt =====
-- src/TcpServer.cpp: the check for idle connections where they live on the base loop.
use my_rpc_project.Base.{
  ℕ, ◌≡◌, ap, ap₂, ◌∙◌, Bool, true, false, List, [], ◌∷◌, none, All, inl, inr, Bool-cases, ◌==◌,
  ◌||◌, if◌then◌else◌, arith,
}
use my_rpc_project.ThreadPool.{among}
use my_rpc_project.TcpServer.{
  TcpServer, Connection, dispatch, erase, holds, set_connections, force_close, force_close_in_loop,
  handle_close, remove_connection, remove_connection_in_loop, check_from, check_idle_connections,
}
use my_rpc_project.TcpServer.Serving.{IsOnce, holds-erase_same}

-- Whether one of the connections is idle.
unfoldable pub any_idle : (ℕ → Bool) → List Connection → Bool
any_idle idle [] = false
any_idle idle (c ∷ cs) = idle c.id || any_idle idle cs

-- A connection on the base loop that is not closed.
unfoldable pub IsOpenOnBase : TcpServer → Connection → Type 0
IsOpenOnBase s c = ((c.loop == 0) ≡ true) × (among c.id s.closed ≡ false)

force_close-erases :
    (s : TcpServer) (c : Connection)
    → s.stopping ≡ false
    → IsOpenOnBase s c
    → (force_close s c).connections ≡ erase c.id s.connections
unfolding force_close force_close_in_loop handle_close remove_connection remove_connection_in_loop
    dispatch set_connections IsOpenOnBase
force_close-erases s c going o = ground (arith, going, o.0, o.1)

check_from-none :
    (idle : ℕ → Bool) (s : TcpServer) (cs : List Connection)
    → s.stopping ≡ false
    → IsOnce s.connections
    → All (IsOpenOnBase s) cs
    → any_idle idle cs ≡ true
    → check_from idle s cs ≡ none
unfolding any_idle check_from
check_from-none idle s [] g o a i = absurd (grind arith)
check_from-none idle s (c ∷ cs) g o a i =
    let t = force_close s c in
    let next = check_from idle (set_connections t (erase c.id t.connections)) cs in
    let rest = check_from idle s cs in
    elim (Bool-cases (idle c.id)) [
      | inl yes_idle ↦
          let gone : holds c.id t.connections ≡ false =
            ap (holds c.id) (force_close-erases s c g a.0)
            ∙ holds-erase_same c.id s.connections o in
          ap₂ (λ p q. if p then if q then next else none else rest) yes_idle gone
      | inr not_idle ↦
          ap (λ p. if p then if holds c.id t.connections then next else none else rest) not_idle
          ∙ check_from-none idle s cs g o a.1 (ground arith)
    ]

-- On a server whose connections live on the base loop, are open and have different names, and that is
-- not stopping: a check that finds any idle connection uses an iterator to an erased entry, since the
-- close callback removes the connection while the loop over the map stands on it.
pub check_idle_connections-dangles :
    (idle : ℕ → Bool) (s : TcpServer)
    → s.stopping ≡ false
    → IsOnce s.connections
    → All (IsOpenOnBase s) s.connections
    → any_idle idle s.connections ≡ true
    → check_idle_connections idle s ≡ none
unfolding check_idle_connections
check_idle_connections-dangles idle s g o a i = check_from-none idle s s.connections g o a i
