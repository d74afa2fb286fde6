-- ===== src/Pollers/Delivery.antt =====
-- src/PollPoller.cpp: the events that `poll` hands out.
use my_rpc_project.Base.{
  ℕ, ◌+◌, ◌-◌, ◌≡◌, refl, sym, ==_iff, List, [], ◌∷◌, none, some, ltb, ◌==◌, if◌then◌else◌,
  Bool-cases, inl, inr, arith,
}
use my_rpc_project.Base.Maps.{Map, find}
use my_rpc_project.Pollers.Poll.{PollFd, PollPoller, collect, with_revents, poll}

-- How many entries have events.
unfoldable pub with_events : List PollFd → ℕ
with_events [] = 0
with_events (f ∷ fs) = (if ltb 0 f.revents then 1 else 0) + with_events fs

-- The channels of the entries that have events, with these, all of them and in order.
unfoldable pub active : Map ℕ → List PollFd → List (ℕ × ℕ)
active channels [] = []
active channels (f ∷ fs) =
    let rest = active channels fs in
    if ltb 0 f.revents
    then elim (find f.fd channels) [ none ↦ rest | some id ↦ (id, f.revents) ∷ rest ]
    else rest

active-none : (channels : Map ℕ) (fs : List PollFd) → with_events fs ≡ 0 → active channels fs ≡ []
unfolding with_events active
active-none channels [] h = refl
active-none channels (f ∷ fs) h = ground (arith, active-none channels fs)

collect-active :
    (channels : Map ℕ) (n : ℕ) (fs : List PollFd)
    → n ≡ with_events fs
    → collect channels n fs ≡ active channels fs
unfolding collect with_events active
collect-active channels n [] h = refl
collect-active channels n (f ∷ fs) h = ground (
  arith,
  collect-active channels (n - 1) fs,
  collect-active channels n fs,
  active-none channels fs,
)

-- `poll` hands out the channels of exactly the entries that have events, in order, each with these
-- events, where the kernel returns how many entries have any: it counts them down and stops at the last.
pub poll-active :
    (p : PollPoller) (revents : List ℕ)
    → let fs = with_revents p.poll_fds revents in
      (poll p (with_events fs) revents).0 ≡ active p.channels fs
unfolding poll
poll-active p revents =
    let fs = with_revents p.poll_fds revents in
    elim (Bool-cases (with_events fs == 0)) [
      | inl silent ↦
          rw silent (sym (active-none p.channels fs ((==_iff (with_events fs) 0).0 silent)))
      | inr some_event ↦ rw some_event (collect-active p.channels (with_events fs) fs refl)
    ]
