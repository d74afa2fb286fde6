-- ===== src/Pollers/Poll.antt =====
-- include/PollPoller.h and src/PollPoller.cpp. The kernel's answer to `poll`, the events of each
-- descriptor in the order of the list, is an argument.
use my_rpc_project.Base.{
  ℕ, ◌-◌, Bool, false, List, [], ◌∷◌, ◌++◌, none, some, ltb, ◌==◌, if◌then◌else◌,
}
use my_rpc_project.Base.Maps.{Map, find, insert, erase}
use my_rpc_project.Pollers.{Channel}

pub record PollFd : Type 0 where
  pub fd : ℕ
  pub events : ℕ
  pub revents : ℕ

-- `channels` maps a descriptor to the address of its channel.
pub record PollPoller : Type 0 where
  pub poll_fds : List PollFd
  pub channels : Map ℕ

unfoldable pub has_channel : PollPoller → Channel → Bool
has_channel p c = elim (find c.fd p.channels) [ none ↦ false | some id ↦ id == c.id ]

-- The first entry of the descriptor gets the channel's events.
unfoldable pub set_events : ℕ → ℕ → List PollFd → List PollFd
set_events fd events [] = []
set_events fd events (f ∷ fs) =
    if f.fd == fd
    then record f { events = events; revents = 0 } ∷ fs
    else f ∷ set_events fd events fs

unfoldable pub update_channel : PollPoller → Channel → PollPoller
update_channel p c =
    if has_channel p c
    then record p { poll_fds = set_events c.fd c.events p.poll_fds }
    else record {
      poll_fds = p.poll_fds ++ (record { fd = c.fd; events = c.events; revents = 0 } ∷ []);
      channels = insert c.fd c.id p.channels;
    }

unfoldable pub without_fd : ℕ → List PollFd → List PollFd
without_fd fd [] = []
without_fd fd (f ∷ fs) = if f.fd == fd then without_fd fd fs else f ∷ without_fd fd fs

unfoldable pub remove_channel : PollPoller → Channel → PollPoller
remove_channel p c = record {
  poll_fds = without_fd c.fd p.poll_fds;
  channels = erase c.fd p.channels;
}

-- The active channels, each with its events. `remaining` descriptors are still to be found, and the
-- loop ends when there are none.
unfoldable pub collect : Map ℕ → ℕ → List PollFd → List (ℕ × ℕ)
collect channels remaining [] = []
collect channels remaining (f ∷ fs) =
    let rest = collect channels remaining fs in
    let left = collect channels (remaining - 1) fs in
    let more = if remaining - 1 == 0 then [] else left in
    if ltb 0 f.revents
    then elim (find f.fd channels) [ none ↦ more | some id ↦ (id, f.revents) ∷ more ]
    else rest

-- The kernel writes the events of each entry.
unfoldable pub with_revents : List PollFd → List ℕ → List PollFd
with_revents [] rs = []
with_revents (f ∷ fs) [] = f ∷ fs
with_revents (f ∷ fs) (r ∷ rs) = record f { revents = r } ∷ with_revents fs rs

-- `poll`, where the kernel returns `event_count` and writes `revents`.
unfoldable pub poll : PollPoller → ℕ → List ℕ → List (ℕ × ℕ) × PollPoller
poll p event_count revents =
    let written = record p { poll_fds = with_revents p.poll_fds revents } in
    if event_count == 0 then ([], p) else (collect p.channels event_count written.poll_fds, written)
