-- ===== src/Pollers/Watching.antt =====
-- src/PollPoller.cpp and src/EpollPoller.cpp: the events that the two pollers watch a descriptor for.
use my_rpc_project.Base.{
  ℕ, ◌%◌, ◌^◌, ◌≡◌, refl, true, List, [], ◌∷◌, ◌++◌, Option, none, some, ◌==◌, if◌then◌else◌, arith,
}
use my_rpc_project.Pollers.{Channel}
use my_rpc_project.Pollers.Poll.{PollFd, PollPoller, set_events, without_fd}
use my_rpc_project.Pollers.Poll
use my_rpc_project.Pollers.Epoll.{
  EpollPoller, Ctl, add, modify, delete, channel_mask_to_epoll, drop, new_epoll,
}
use my_rpc_project.Pollers.Epoll

-- The events of a descriptor's first entry.
unfoldable pub poll_entry : ℕ → List PollFd → Option ℕ
poll_entry fd [] = none
poll_entry fd (f ∷ fs) = if f.fd == fd then some f.events else poll_entry fd fs

abbrev pub or_zero : Option ℕ → ℕ
or_zero none = 0
or_zero (some n) = n

-- What a call of `epoll_ctl` makes of the events that the kernel watches a descriptor for, 0 for none.
unfoldable pub applied : ℕ → Ctl → ℕ → ℕ
applied fd (add f events) n = if f == fd then events else n
applied fd (modify f events) n = if f == fd then events else n
applied fd (delete f) n = if f == fd then 0 else n

unfoldable pub watched : ℕ → ℕ → List Ctl → ℕ
watched fd n [] = n
watched fd n (c ∷ cs) = watched fd (applied fd c n) cs

-- Channels change and are removed. Every ADD succeeds.
pub data Change : Type 0 where
  updates removes : (c : Channel) → Change

abbrev pub channel_of : Change → Channel
channel_of (updates c) = c
channel_of (removes c) = c

unfoldable pub run_poll : PollPoller → List Change → PollPoller
run_poll p [] = p
run_poll p (updates c ∷ cs) = run_poll (Poll.update_channel p c) cs
run_poll p (removes c ∷ cs) = run_poll (Poll.remove_channel p c) cs

unfoldable pub run_epoll : EpollPoller → List Change → EpollPoller
run_epoll p [] = p
run_epoll p (updates c ∷ cs) = run_epoll (Epoll.update_channel p c true) cs
run_epoll p (removes c ∷ cs) = run_epoll (Epoll.remove_channel p c) cs

abbrev pub new_poll : PollPoller
new_poll = record { poll_fds = []; channels = [] }

-- What the kernel should watch for, given a channel's events.
abbrev pub wanted : ℕ → ℕ
wanted events = if events == 0 then 0 else channel_mask_to_epoll (events % 2 ^ 16)

pub poll_entry-set_events :
    (fd f events : ℕ) (fs : List PollFd) (old : ℕ)
    → poll_entry f fs ≡ some old
    → poll_entry fd (set_events f events fs) ≡ (if f == fd then some events else poll_entry fd fs)
unfolding poll_entry set_events
poll_entry-set_events fd f events [] old e = absurd (grind arith)
poll_entry-set_events fd f events (g ∷ gs) old e =
    ground (arith, poll_entry-set_events fd f events gs old)

pub poll_entry-snoc :
    (fd : ℕ) (f : PollFd) (fs : List PollFd)
    → poll_entry f.fd fs ≡ none
    → poll_entry fd (fs ++ (f ∷ [])) ≡ (if f.fd == fd then some f.events else poll_entry fd fs)
unfolding poll_entry
poll_entry-snoc fd f [] e = refl
poll_entry-snoc fd f (g ∷ gs) e = ground (arith, poll_entry-snoc fd f gs)

pub poll_entry-without_fd :
    (fd f : ℕ) (fs : List PollFd)
    → poll_entry fd (without_fd f fs) ≡ (if f == fd then none else poll_entry fd fs)
unfolding poll_entry without_fd
poll_entry-without_fd fd f [] = ground arith
poll_entry-without_fd fd f (g ∷ gs) = ground (arith, poll_entry-without_fd fd f gs)

pub watched-snoc :
    (fd n : ℕ) (cs : List Ctl) (c : Ctl)
    → watched fd n (cs ++ (c ∷ [])) ≡ applied fd c (watched fd n cs)
unfolding watched
watched-snoc fd n [] c = refl
watched-snoc fd n (d ∷ cs) c = watched-snoc fd (applied fd d n) cs c
