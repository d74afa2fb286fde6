-- ===== src/Pollers.antt =====
-- include/Channel.h and src/Channel.cpp: what a descriptor is watched for, and what its events call.
-- `id` stands for the channel's address. A channel hands itself to its poller after each change.
pub mod Poll
pub mod Epoll
pub mod Watching
pub mod Changes
pub mod Agreement
pub mod Delivery
mod Tests
use my_rpc_project.Base.{
  ℕ, ◌+◌, ◌≡◌, Bool, true, false, not, ◌&&◌, List, [], ◌∷◌, ◌++◌, ◌==◌, if◌then◌else◌,
}
use Prim.Native.Nat.{bit_and, bit_or}

-- The bits of <poll.h>.
abbrev pub poll_in : ℕ
poll_in = 1

abbrev pub poll_pri : ℕ
poll_pri = 2

abbrev pub poll_out : ℕ
poll_out = 4

abbrev pub poll_err : ℕ
poll_err = 8

abbrev pub poll_hup : ℕ
poll_hup = 16

abbrev pub poll_nval : ℕ
poll_nval = 32

pub record Channel : Type 0 where
  pub id : ℕ
  pub fd : ℕ
  pub events : ℕ
  pub revents : ℕ

pub data Callback : Type 0 where
  on_read on_write on_close on_error : Callback

abbrev pub has_any : ℕ → ℕ → Bool
has_any mask bits = not (bit_and mask bits == 0)

unfoldable pub is_none_event : Channel → Bool
is_none_event c = c.events == 0

unfoldable pub is_writing : Channel → Bool
is_writing c = has_any c.events poll_out

unfoldable pub set_revents : Channel → ℕ → Channel
set_revents c revents = record c { revents = revents }

unfoldable pub enable_reading : Channel → Channel
enable_reading c = record c { events = bit_or c.events poll_in }

unfoldable pub enable_writing : Channel → Channel
enable_writing c = record c { events = bit_or c.events poll_out }

-- `events_ & ~POLLOUT`, over 16 bits.
unfoldable pub disable_writing : Channel → Channel
disable_writing c = record c { events = bit_and c.events 0xfffb }

unfoldable pub disable_all : Channel → Channel
disable_all c = record c { events = 0 }

abbrev pub called : Bool → Callback → List Callback
called b callback = if b then callback ∷ [] else []

-- The callbacks that `handleEvent` calls, in order; `is_set` says which of them are there.
unfoldable pub handle_event : Channel → (Callback → Bool) → List Callback
handle_event c is_set =
    called (has_any c.revents (poll_err + poll_nval) && is_set on_error) on_error
    ++ (called (has_any c.revents poll_hup && is_set on_close) on_close
        ++ (called (has_any c.revents (poll_in + poll_pri + poll_hup) && is_set on_read) on_read
            ++ called (has_any c.revents poll_out && is_set on_write) on_write))
