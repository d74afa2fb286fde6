-- ===== src/Serializer/Varint.antt =====
-- src/Serializer.cpp, round trips of the codecs of numbers and of byte strings.
use my_rpc_project.Base.{
  ℕ, zero, suc, ◌+◌, ◌*◌, ◌/◌, ◌%◌, ◌^◌, ◌≤◌, ◌<◌, ◌≡◌, refl, ap, ap₂, ◌∙◌, true, List, ◌++◌,
  append_assoc, length, take-append, drop-append, length-append, le→ltb, leb, leb→le, Bool-cases,
  inl, inr, arith,
}
use native.Mathlib.Nat.{pow-suc}
use my_rpc_project.Serializer.{
  write_varint_loop, write_varint, zigzag_encode, write_bits, write_delimited, zigzag_decode,
}
use my_rpc_project.Serializer.Reader.{
  gives, read_varint_loop, read_varint, read_length_delimited, load_bits, read_bytes,
}

distrib : (q r m : ℕ) → r * m + q * (m * 128) ≡ (q * 128 + r) * m
distrib q r m = omega arith

split_group : (v m : ℕ) → v % 128 * m + v / 128 * (m * 128) ≡ v * m
split_group v m =
    let whole : v / 128 * 128 + v % 128 ≡ v = omega arith in
    distrib (v / 128) (v % 128) m ∙ ap (λ x. x * m) whole

-- One round reads one group.
group_sum :
    (value v shift : ℕ)
    → value + v * 2 ^ shift < 2 ^ 64
    → value + v % 128 * 2 ^ shift % 2 ^ 64 ≡ value + v % 128 * 2 ^ shift
group_sum value v shift k = omega (arith, split_group v (2 ^ shift))

next_shift : (shift : ℕ) → 2 ^ (shift + 7) ≡ 2 ^ shift * 128
next_shift shift =
    ap (λ k. 2 ^ k) seven
    ∙ omega (
      arith,
      pow-suc 2 (suc (suc (suc (suc (suc (suc shift)))))),
      pow-suc 2 (suc (suc (suc (suc (suc shift))))),
      pow-suc 2 (suc (suc (suc (suc shift)))),
      pow-suc 2 (suc (suc (suc shift))),
      pow-suc 2 (suc (suc shift)),
      pow-suc 2 (suc shift),
      pow-suc 2 shift,
    )
  where
    seven : shift + 7 ≡ suc (suc (suc (suc (suc (suc (suc shift))))))
    seven = omega arith

more_rounds : (rounds v : ℕ) → v < 128 ^ suc rounds → 128 ≤ v → 1 ≤ rounds
more_rounds zero v h k = absurd (omega arith)
more_rounds (suc rounds) v h k = omega arith

varint_loop_lem :
    (rounds v value shift : ℕ) (rest : List ℕ)
    → 1 ≤ rounds
    → v < 128 ^ rounds
    → value + v * 2 ^ shift < 2 ^ 64
    → read_varint_loop rounds value shift (write_varint_loop rounds v ++ rest)
      ≡ gives (value + v * 2 ^ shift, rest)
unfolding write_varint_loop read_varint_loop
varint_loop_lem zero v value shift rest p h k = absurd (omega arith)
varint_loop_lem (suc rounds) v value shift rest p h k = elim (Bool-cases (leb 128 v)) [
  | inl big ↦
      let byte : leb 128 (v % 128 + 128) ≡ true = ground arith in
      let low : (v % 128 + 128) % 128 ≡ v % 128 = omega arith in
      let sum : value + v % 128 * 2 ^ shift + v / 128 * 2 ^ (shift + 7) ≡ value + v * 2 ^ shift =
        omega (arith, split_group v (2 ^ shift), ap (λ x. v / 128 * x) (next_shift shift)) in
      rw (big, write_varint_loop, byte, low, group_sum value v shift k, read_varint_loop)
        (varint_loop_lem rounds (v / 128) (value + v % 128 * 2 ^ shift) (shift + 7) rest
            (more_rounds rounds v h (leb→le 128 v big)) (omega arith) (omega (arith, sum))
          ∙ ap (λ x. gives (x, rest)) sum)
  | inr small ↦
      let low : v % 128 ≡ v = ground arith in
      rw (small, write_varint_loop, small, read_varint_loop)
        (ap (λ x. gives (x, rest))
          (group_sum value v shift k ∙ ap (λ x. value + x * 2 ^ shift) low))
]

-- A 64-bit number is read back from its varint, whatever follows.
pub read_varint-write_varint :
    (v : ℕ) (rest : List ℕ) → v < 2 ^ 64 → read_varint (write_varint v ++ rest) ≡ gives (v, rest)
unfolding read_varint write_varint
read_varint-write_varint v rest h =
    varint_loop_lem 10 v 0 0 rest (omega arith) (omega arith) (omega arith)
    ∙ ap (λ x. gives (x, rest)) (omega arith)

-- A signed 64-bit number is read back from its zigzag code, which has 64 bits.
pub zigzag_decode-zigzag_encode :
    (v : ℕ) → v < 2 ^ 64 → (zigzag_decode (zigzag_encode v) ≡ v) × (zigzag_encode v < 2 ^ 64)
unfolding zigzag_decode zigzag_encode
zigzag_decode-zigzag_encode v h = ground arith

pub load_bits-write_bits : (n v : ℕ) → v < 256 ^ n → load_bits (write_bits n v) ≡ v
unfolding load_bits write_bits
load_bits-write_bits zero v h = omega arith
load_bits-write_bits (suc n) v h = omega (arith, load_bits-write_bits n (v / 256) (omega arith))

pub length-write_bits : (n v : ℕ) → length (write_bits n v) ≡ n
unfolding write_bits
length-write_bits zero v = refl
length-write_bits (suc n) v = ap suc (length-write_bits n (v / 256))

pub read_bytes-append : (xs rest : List ℕ) → read_bytes (length xs) (xs ++ rest) ≡ gives (xs, rest)
read_bytes-append xs rest =
    rw (le→ltb (length (xs ++ rest)) (length xs) (omega (arith, length-append xs rest))) (
      ap₂ (λ a b. gives (a, b)) (take-append (length xs) xs rest refl)
        (drop-append (length xs) xs rest refl))

-- A byte string is read back from its delimited form.
pub read_length_delimited-write_delimited :
    (xs rest : List ℕ)
    → length xs < 2 ^ 64
    → read_length_delimited (write_delimited xs ++ rest) ≡ gives (xs, rest)
unfolding read_length_delimited write_delimited
read_length_delimited-write_delimited xs rest h =
    let prefix : read_varint ((write_varint (length xs) ++ xs) ++ rest)
        ≡ gives (length xs, xs ++ rest) =
      ap read_varint (append_assoc (write_varint (length xs)) xs rest)
      ∙ read_varint-write_varint (length xs) (xs ++ rest) h in
    rw prefix (read_bytes-append xs rest)
