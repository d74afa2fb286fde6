-- ===== src/Buffer.antt =====
-- include/Buffer.h and src/Buffer.cpp: a byte vector with a read and a write index.
-- A byte is a number; sizes are those of vectors in memory, which size_t never wraps.
pub mod Contents
mod Tests
use my_rpc_project.Base.{
  ℕ, ◌+◌, ◌-◌, ◌*◌, ◌≤◌, min, max, List, ◌++◌, length, take, drop, replicate, leb, ◌==◌,
  if◌then◌else◌,
}

pub record Buffer : Type 0 where
  pub storage : List ℕ
  pub read_index : ℕ
  pub write_index : ℕ

-- `Buffer(initialSize)`.
unfoldable pub init : ℕ → Buffer
init size = record { storage = replicate size 0; read_index = 0; write_index = 0 }

unfoldable pub readable_bytes : Buffer → ℕ
readable_bytes b = b.write_index - b.read_index

unfoldable pub writable_bytes : Buffer → ℕ
writable_bytes b = length b.storage - b.write_index

-- The memory that the pointer `peek()` gives access to.
unfoldable pub peek : Buffer → List ℕ
peek b = drop b.read_index b.storage

unfoldable pub retrieve_all : Buffer → Buffer
retrieve_all b = record b { read_index = 0; write_index = 0 }

unfoldable pub reset : Buffer → Buffer
unfolding retrieve_all
reset b = retrieve_all b

unfoldable pub retrieve : Buffer → ℕ → Buffer
unfolding retrieve_all readable_bytes
retrieve b len =
    if leb (readable_bytes b) len
    then retrieve_all b
    else record b { read_index = b.read_index + len }

unfoldable pub retrieve_as_string : Buffer → ℕ → List ℕ × Buffer
unfolding retrieve peek readable_bytes
retrieve_as_string b len = let n = min len (readable_bytes b) in (take n (peek b), retrieve b n)

unfoldable pub retrieve_all_as_string : Buffer → List ℕ × Buffer
unfolding retrieve_as_string
retrieve_all_as_string b = retrieve_as_string b (readable_bytes b)

-- `std::vector::resize`, with the value-initialised tail.
abbrev pub resize : List ℕ → ℕ → List ℕ
resize xs n = take n xs ++ replicate (n - length xs) 0

unfoldable pub ensure_writable_bytes : Buffer → ℕ → Buffer
unfolding writable_bytes
ensure_writable_bytes b len =
    if leb len (writable_bytes b)
    then b
    else record b { storage = resize b.storage (max (b.write_index + len) (length b.storage * 2)) }

-- `memcpy` of `xs` to position `at`.
abbrev pub overwrite : List ℕ → ℕ → List ℕ → List ℕ
overwrite storage at xs = take at storage ++ (xs ++ drop (at + length xs) storage)

unfoldable pub append : Buffer → List ℕ → Buffer
unfolding ensure_writable_bytes
append b xs =
    if length xs == 0
    then b
    else let c = ensure_writable_bytes b (length xs) in
      record c {
        storage = overwrite c.storage c.write_index xs;
        write_index = c.write_index + length xs;
      }

-- The indices are in order and inside the vector.
pub record IsValid (b : Buffer) : Type 0 where
  pub ordered : b.read_index ≤ b.write_index
  pub inside : b.write_index ≤ length b.storage

-- The bytes that are written and not yet read.
unfoldable pub contents : Buffer → List ℕ
contents b = take (b.write_index - b.read_index) (drop b.read_index b.storage)
