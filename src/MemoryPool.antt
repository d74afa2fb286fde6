-- ===== src/MemoryPool.antt =====
-- include/MemoryPool.h. An object is its place in `storage`; the last element of the free list, which
-- is taken next, stands first here. `held` has the objects that callers have, whose deleter puts them
-- back. The lock makes each operation one step.
pub mod Sharing
mod Tests
use my_rpc_project.Base.{
  ℕ, zero, suc, ◌+◌, Bool, true, false, List, [], ◌∷◌, ◌++◌, Option, none, some, length, get_elem?,
  replicate,
}
use my_rpc_project.Buffer.{Buffer}
use my_rpc_project.Buffer

pub record MemoryPool (T : Type 0) : Type 0 where
  pub storage : List T
  pub free_list : List ℕ
  pub held : List ℕ

-- The numbers below `n`, the last one first.
abbrev pub down_from : ℕ → List ℕ
down_from zero = []
down_from (suc n) = n ∷ down_from n

-- What happens to the element at an index.
unfoldable pub modify {ℓ} : {A : Type ℓ} → (A → A) → ℕ → List A → List A
modify f i [] = []
modify f zero (x ∷ xs) = f x ∷ xs
modify f (suc i) (x ∷ xs) = x ∷ modify f i xs

-- A list without its element at an index.
unfoldable pub drop_at : ℕ → List ℕ → List ℕ
drop_at k [] = []
drop_at zero (x ∷ xs) = xs
drop_at (suc k) (x ∷ xs) = x ∷ drop_at k xs

-- `fresh` is a new object, and `reset` the method of that name.
module _ {T : Type 0} (fresh : T) (reset : T → T) where
  abbrev pub new_pool : ℕ → MemoryPool T
  new_pool initial_size = record {
    storage = replicate initial_size fresh;
    free_list = down_from initial_size;
    held = [];
  }

  unfoldable pub take_from : MemoryPool T → List ℕ → ℕ × MemoryPool T
  take_from p [] = (
    length p.storage,
    record p { storage = p.storage ++ (fresh ∷ []); held = length p.storage ∷ p.held },
  )
  take_from p (i ∷ rest) = (i, record p { free_list = rest; held = i ∷ p.held })

  unfoldable pub acquire : MemoryPool T → ℕ × MemoryPool T
  acquire p = take_from p p.free_list

  -- The deleter, for the object that stands at place `k` of `held`.
  unfoldable pub give_back : MemoryPool T → ℕ → Option ℕ → MemoryPool T
  give_back p k none = p
  give_back p k (some i) = record {
    storage = modify reset i p.storage;
    free_list = i ∷ p.free_list;
    held = drop_at k p.held;
  }

  unfoldable pub release : MemoryPool T → ℕ → MemoryPool T
  release p k = give_back p k (get_elem? p.held k)

  unfoldable pub available : MemoryPool T → ℕ
  available p = length p.free_list

-- `BufferMemoryPool::instance()`.
unfoldable pub buffer_pool : MemoryPool Buffer
buffer_pool = new_pool (Buffer.init 1024) Buffer.reset 4096
