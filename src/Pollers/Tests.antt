-- ===== src/Pollers/Tests.antt =====
-- The pollers of src/PollPoller.cpp and src/EpollPoller.cpp, and a channel's events.
use my_rpc_project.Base.{ℕ, ◌+◌, ◌≡◌, refl, true, List, [], ◌∷◌}
use my_rpc_project.Pollers.{
  Channel, on_read, on_close, handle_event, enable_reading, enable_writing, disable_writing,
}
use my_rpc_project.Pollers.Poll.{PollPoller}
use my_rpc_project.Pollers.Epoll.{new_epoll, revents_to_poll_mask}
use my_rpc_project.Pollers.Watching.{
  Change, updates, removes, watched, poll_entry, wanted, or_zero, run_poll, run_epoll, new_poll,
}
use my_rpc_project.Pollers.Agreement.{watched-poll_entry}

abbrev idle_channel : ℕ → Channel
idle_channel fd = record { id = fd + 100; fd = fd; events = 0; revents = 0 }

reads_and_writes : (enable_writing (enable_reading (idle_channel 3))).events ≡ 5
unfolding enable_writing enable_reading
reads_and_writes = refl

reads_only : (disable_writing (record (idle_channel 3) { events = 5 })).events ≡ 1
unfolding disable_writing
reads_only = refl

-- The peer has closed its side, and there are bytes left.
hang_up :
    handle_event (record (idle_channel 3) { revents = 17 }) (λ c. true) ≡ on_close ∷ on_read ∷ []
unfolding handle_event
hang_up = refl

rdhup : revents_to_poll_mask 0x2001 ≡ 17
unfolding revents_to_poll_mask
rdhup = refl

abbrev changes : List Change
changes =
    updates (record (idle_channel 3) { events = 1 })
    ∷ updates (record (idle_channel 4) { events = 1 })
    ∷ updates (record (idle_channel 3) { events = 5 })
    ∷ removes (idle_channel 4)
    ∷ []

watched-poll_entry_example :
    watched 3 0 (run_epoll new_epoll changes).ctl
    ≡ wanted (or_zero (poll_entry 3 (run_poll new_poll changes).poll_fds))
watched-poll_entry_example =
    watched-poll_entry (λ fd. fd + 100) changes 3 (refl, (refl, (refl, (refl, tt))))

abbrev two : PollPoller
two = record {
  poll_fds =
      record { fd = 3; events = 1; revents = 0 } ∷ record { fd = 4; events = 1; revents = 0 } ∷ [];
  channels = (3, 103) ∷ (4, 104) ∷ [];
}
