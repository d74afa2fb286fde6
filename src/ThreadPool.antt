-- ===== src/ThreadPool.antt =====
-- include/ThreadPool.h and src/ThreadPool.cpp. An event loop is a number, the base loop is 0, and each
-- one that a thread makes gets a number of its own. `start` waits for its threads, `stop` joins them.
use my_rpc_project.Base.{
  ℕ, zero, suc, ◌+◌, ◌%◌, ◌^◌, Bool, true, false, List, [], ◌∷◌, length, get_or, ◌==◌, ◌||◌,
  if◌then◌else◌,
}

pub record ThreadPool : Type 0 where
  pub num_threads : ℕ
  pub started : Bool
  pub next : ℕ
  pub loops : List ℕ
  pub loops_made : ℕ

abbrev pub new_pool : ℕ → ThreadPool
new_pool num_threads = record {
  num_threads = num_threads;
  started = false;
  next = 0;
  loops = [];
  loops_made = 0;
}

-- The loops of `n` threads, after `made` others.
unfoldable pub new_loops : ℕ → ℕ → List ℕ
new_loops zero made = []
new_loops (suc n) made = suc made ∷ new_loops n (suc made)

unfoldable pub start : ThreadPool → ThreadPool
start p =
    if p.started then p else if p.num_threads == 0 then record p { started = true } else record p {
      started = true;
      loops = new_loops p.num_threads p.loops_made;
      loops_made = p.loops_made + p.num_threads;
    }

unfoldable pub stop : ThreadPool → ThreadPool
stop p = if p.started then record p { started = false; next = 0; loops = [] } else p

unfoldable pub get_next_loop : ThreadPool → ℕ × ThreadPool
get_next_loop p =
    if p.num_threads == 0
    then (0, p)
    else if length p.loops == 0
    then (0, p)
    else (get_or p.loops (p.next % length p.loops) 0, record p { next = (p.next + 1) % 2 ^ 64 })

-- Whether an event loop is in a list.
unfoldable pub among : ℕ → List ℕ → Bool
among i [] = false
among i (j ∷ js) = (j == i) || among i js

-- Whether an event loop has not been destroyed.
unfoldable pub is_alive : ThreadPool → ℕ → Bool
is_alive p loop = (loop == 0) || among loop p.loops
