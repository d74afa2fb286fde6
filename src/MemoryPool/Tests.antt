-- ===== src/MemoryPool/Tests.antt =====
-- Concrete runs of the pool of buffers.
use my_rpc_project.Base.{◌≡◌, refl, List, [], ◌∷◌, some, get_elem?, count}
use my_rpc_project.Buffer.{Buffer, readable_bytes}
use my_rpc_project.Buffer
use my_rpc_project.MemoryPool.{new_pool, acquire}
use my_rpc_project.MemoryPool.Sharing.{Event, acquires, releases, writes, run, acquire-IsClean}

abbrev small : Buffer
small = Buffer.init 4

-- Two buffers are taken, one is written to, and both are given back.
abbrev used : List (Event Buffer)
used =
    acquires ∷ acquires ∷ writes 1 (Buffer.append small (7 ∷ 8 ∷ [])) ∷ releases 0 ∷ releases 0 ∷ []

abbrev IsEmpty : Buffer → Type 0
IsEmpty b = readable_bytes b ≡ 0

small-IsEmpty : IsEmpty small
unfolding Buffer.init readable_bytes
small-IsEmpty = refl

reset-IsEmpty : (b : Buffer) → IsEmpty (Buffer.reset b)
unfolding Buffer.reset Buffer.retrieve_all readable_bytes
reset-IsEmpty b = refl

acquire-IsClean_example :
    let p =
      run small Buffer.reset IsEmpty small-IsEmpty reset-IsEmpty
        (new_pool small Buffer.reset 2)
        used in
    let (i, q) = acquire small Buffer.reset p in
    count i p.held ≡ 0 × (b : Buffer) × (get_elem? q.storage i ≡ some b) × IsEmpty b
acquire-IsClean_example =
    acquire-IsClean small Buffer.reset IsEmpty small-IsEmpty reset-IsEmpty 2 used
