-- ===== src/Pollers/Epoll.antt =====
-- include/EpollPoller.h and src/EpollPoller.cpp. `ctl` records the calls of `epoll_ctl` that have
-- succeeded, in order; whether an ADD does is an argument, and so are the events that `epoll_wait`
-- returns.
use my_rpc_project.Base.{
  ℕ, ◌+◌, ◌*◌, ◌%◌, ◌^◌, max, Bool, false, List, [], ◌∷◌, ◌++◌, none, some, length, ◌==◌,
  if◌then◌else◌,
}
use my_rpc_project.Base.Maps.{Map, find, insert, erase}
use my_rpc_project.Pollers.{Channel, poll_in, poll_out, poll_err, poll_hup, has_any, is_none_event}

-- The bits of <sys/epoll.h>.
abbrev pub epoll_in : ℕ
epoll_in = 1

abbrev pub epoll_out : ℕ
epoll_out = 4

abbrev pub epoll_err : ℕ
epoll_err = 8

abbrev pub epoll_hup : ℕ
epoll_hup = 16

abbrev pub epoll_rdhup : ℕ
epoll_rdhup = 0x2000

abbrev pub epoll_et : ℕ
epoll_et = 2 ^ 31

abbrev pub k_min_event_batch : ℕ
k_min_event_batch = 32

abbrev bits_if : Bool → ℕ → ℕ
bits_if b bits = if b then bits else 0

-- The bits that are joined are different ones, so `|` is a sum.
unfoldable pub channel_mask_to_epoll : ℕ → ℕ
channel_mask_to_epoll mask =
    epoll_et
    + (bits_if (has_any mask poll_in) (epoll_in + epoll_rdhup)
        + bits_if (has_any mask poll_out) epoll_out)

unfoldable pub revents_to_poll_mask : ℕ → ℕ
revents_to_poll_mask events =
    bits_if (has_any events epoll_in) poll_in
    + (bits_if (has_any events epoll_out) poll_out
        + (bits_if (has_any events epoll_err) poll_err
            + bits_if (has_any events (epoll_hup + epoll_rdhup)) poll_hup))

pub data Ctl : Type 0 where
  add modify : (fd events : ℕ) → Ctl
  delete : (fd : ℕ) → Ctl

pub record EpollPoller : Type 0 where
  pub channels : Map ℕ
  pub ctl : List Ctl
  pub buffer_size : ℕ

abbrev pub new_epoll : EpollPoller
new_epoll = record { channels = []; ctl = []; buffer_size = k_min_event_batch }

unfoldable pub has_channel : EpollPoller → Channel → Bool
has_channel p c = elim (find c.fd p.channels) [ none ↦ false | some id ↦ id == c.id ]

unfoldable pub drop : EpollPoller → ℕ → EpollPoller
drop p fd = record p { channels = erase fd p.channels; ctl = p.ctl ++ (delete fd ∷ []) }

unfoldable pub update_channel : EpollPoller → Channel → Bool → EpollPoller
unfolding drop
update_channel p c added =
    let events = channel_mask_to_epoll (c.events % 2 ^ 16) in
    if is_none_event c
    then (if has_channel p c then drop p c.fd else p)
    else if has_channel p c
    then record p { ctl = p.ctl ++ (modify c.fd events ∷ []) }
    else if added
    then record p { channels = insert c.fd c.id p.channels; ctl = p.ctl ++ (add c.fd events ∷ []) }
    else p

unfoldable pub remove_channel : EpollPoller → Channel → EpollPoller
unfolding drop
remove_channel p c = if has_channel p c then drop p c.fd else p

-- The active channels, each with its events.
unfoldable pub collect : Map ℕ → List (ℕ × ℕ) → List (ℕ × ℕ)
collect channels [] = []
collect channels ((fd, events) ∷ es) = elim (find fd channels) [
  | none ↦ collect channels es
  | some id ↦ (id, revents_to_poll_mask events) ∷ collect channels es
]

-- `poll`: a full buffer is doubled.
unfoldable pub poll : EpollPoller → List (ℕ × ℕ) → List (ℕ × ℕ) × EpollPoller
unfolding collect
poll p events = (
  collect p.channels events,
  if length events == p.buffer_size
      then record p { buffer_size = max (p.buffer_size * 2) k_min_event_batch }
      else p,
)
