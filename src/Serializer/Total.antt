-- ===== src/Serializer/Total.antt =====
-- src/Serializer.cpp, `Serializer::decode` on any bytes.
use my_rpc_project.Base.{
  ℕ, zero, suc, ◌+◌, ◌*◌, ◌≤◌, ◌<◌, subst, ◌≢◌, List, [], ◌∷◌, length, ltb, leb, Bool-cases, inl,
  inr, Option, none, some, get_elem?, length-take, length-drop, arith,
}
use my_rpc_project.Serializer.{
  Value, bool, int64, uint64, double, string, array, structure, Elements, Entries, Fields,
}
use my_rpc_project.Serializer.Reader.{
  Read, exhausted, malformed, gives, after, read_bytes, read_varint_loop, read_varint,
  read_length_delimited, nested, read_payload, key_of, read_typed, read_elements, read_entries,
  read_fields, decode, Kind, is_null, is_bool, is_int64, is_uint64, is_double, is_string, is_array,
  is_map, is_struct, kinds,
}

-- The read ends within its fuel, and what it gives has the property.
pub Holds : {A : Type 0} → (A → Type 0) → Read A → Type 0
Holds P exhausted = ⊥
Holds P malformed = Unit
Holds P (gives a) = P a

after-Holds :
    {A B : Type 0} (P : A → Type 0) (Q : B → Type 0) (r : Read A) (k : A → Read B)
    → Holds P r
    → ((a : A) → P a → Holds Q (k a))
    → Holds Q (after r k)
unfolding Holds
after-Holds P Q exhausted k h next = h
after-Holds P Q malformed k h next = h
after-Holds P Q (gives a) k h next = next a h

weaken :
    {A : Type 0} (P Q : A → Type 0) (r : Read A) → ((a : A) → P a → Q a) → Holds P r → Holds Q r
unfolding Holds
weaken P Q exhausted k h = h
weaken P Q malformed k h = h
weaken P Q (gives a) k h = k a h

-- At most `n` bytes are left, or fewer than `n`.
abbrev Leaves : {A : Type 0} → ℕ → A × List ℕ → Type 0
Leaves n x = length x.1 ≤ n

abbrev LeavesLess : {A : Type 0} → ℕ → A × List ℕ → Type 0
LeavesLess n x = length x.1 < n

varint_loop-Holds :
    (rounds value shift : ℕ) (bs : List ℕ)
    → Holds (LeavesLess (length bs)) (read_varint_loop rounds value shift bs)
unfolding read_varint_loop Holds
varint_loop-Holds zero value shift bs = tt
varint_loop-Holds (suc rounds) value shift [] = tt
varint_loop-Holds (suc rounds) value shift (b ∷ bs) = elim (Bool-cases (leb 128 b)) [
  | inl more ↦
      rw (more, read_varint_loop)
        (weaken (LeavesLess (length bs)) (LeavesLess (suc (length bs))) _ (λ a h. omega arith)
          (varint_loop-Holds rounds _ (shift + 7) bs))
  | inr last ↦ rw (last, read_varint_loop) (omega arith)
]

varint-Holds : (bs : List ℕ) → Holds (LeavesLess (length bs)) (read_varint bs)
unfolding read_varint
varint-Holds bs = varint_loop-Holds 10 0 0 bs

bytes-Holds :
    (n : ℕ) (bs : List ℕ)
    → Holds (λ x. (length x.0 ≤ length bs) × (length x.1 ≤ length bs)) (read_bytes n bs)
unfolding Holds
bytes-Holds n bs = elim (Bool-cases (ltb (length bs) n)) [
  | inl short ↦ rw short tt
  | inr long ↦ rw long (omega (arith, length-take n bs), omega (arith, length-drop n bs))
]

-- A nested payload and what is behind it are not longer than the bytes that they are read from.
delimited-Holds :
    (bs : List ℕ)
    → Holds (λ x. (length x.0 ≤ length bs) × (length x.1 ≤ length bs)) (read_length_delimited bs)
unfolding read_length_delimited
delimited-Holds bs =
    after-Holds (LeavesLess (length bs)) _ (read_varint bs) _ (varint-Holds bs) λ a less.
      weaken _ _ (read_bytes a.0 a.1) (λ x h. (omega (arith, h.0), omega (arith, h.1)))
        (bytes-Holds a.0 a.1)

abbrev Ends : {A : Type 0} → ℕ → (List ℕ → Read A) → Type 0
Ends n loop = (bs : List ℕ) → length bs ≤ n → Holds (λ a. Unit) (loop bs)

nested-Holds :
    {A : Type 0} (n : ℕ) (loop : List ℕ → Read A) (make : A → Value) (bs : List ℕ)
    → length bs ≤ n
    → Ends n loop
    → Holds (Leaves (length bs)) (nested loop make bs)
unfolding nested Holds
nested-Holds n loop make bs fits ends =
    after-Holds _ _ (read_length_delimited bs) _ (delimited-Holds bs)
      λ r h. after-Holds _ _ (loop r.0) _ (ends r.0 (omega (arith, h.0))) λ a u. h.1

module _ (n : ℕ) (elements : List ℕ → Read Elements) (entries : List ℕ → Read Entries)
    (fields : List ℕ → Read Fields) (e : Ends n elements) (m : Ends n entries)
    (f : Ends n fields) where
  payload-Holds :
      (kind : Option Kind) (bs : List ℕ)
      → length bs ≤ n
      → Holds (Leaves (length bs)) (read_payload elements entries fields kind bs)
  unfolding read_payload Holds
  payload-Holds none bs h = tt
  payload-Holds (some is_null) bs h = omega arith
  payload-Holds (some is_bool) [] h = tt
  payload-Holds (some is_bool) (b ∷ bs) h = omega arith
  payload-Holds (some is_int64) bs h =
      after-Holds _ _ (read_varint bs) _ (varint-Holds bs) λ r less. omega arith
  payload-Holds (some is_uint64) bs h =
      after-Holds _ _ (read_varint bs) _ (varint-Holds bs) λ r less. omega arith
  payload-Holds (some is_double) bs h =
      after-Holds _ _ (read_bytes 8 bs) _ (bytes-Holds 8 bs) λ r k. k.1
  payload-Holds (some is_string) bs h =
      after-Holds _ _ (read_length_delimited bs) _ (delimited-Holds bs) λ r k. k.1
  payload-Holds (some is_array) bs h = nested-Holds n elements array bs h e
  payload-Holds (some is_map) bs h = nested-Holds n entries Value.map bs h m
  payload-Holds (some is_struct) bs h = nested-Holds n fields structure bs h f

key-Holds : (v : Value) → Holds (λ a. Unit) (key_of v)
unfolding key_of Holds
key-Holds (string s) = tt
key-Holds Value.null = tt
key-Holds (bool b) = tt
key-Holds (int64 n) = tt
key-Holds (uint64 n) = tt
key-Holds (double n) = tt
key-Holds (array es) = tt
key-Holds (Value.map es) = tt
key-Holds (structure fs) = tt

mutual
  unfolding read_typed read_elements read_entries read_fields key_of Holds

  typed-Holds :
      (fuel : ℕ) (bs : List ℕ)
      → length bs * 2 + 1 ≤ fuel
      → Holds (LeavesLess (length bs)) (read_typed fuel bs)
  typed-Holds zero bs h = absurd (omega arith)
  typed-Holds (suc fuel) [] h = tt
  typed-Holds (suc fuel) (b ∷ bs) h =
      weaken (Leaves (length bs)) (LeavesLess (suc (length bs))) _ (λ a k. omega arith)
        (payload-Holds (length bs) (read_elements fuel) (read_entries fuel) (read_fields fuel)
          (λ xs k. elements-Holds fuel xs (omega arith))
          (λ xs k. entries-Holds fuel xs (omega arith)) (λ xs k. fields-Holds fuel xs (omega arith))
          (get_elem? kinds b) bs (omega arith))

  elements-Holds :
      (fuel : ℕ) (bs : List ℕ)
      → length bs * 2 + 2 ≤ fuel
      → Holds (λ a. Unit) (read_elements fuel bs)
  elements-Holds zero bs h = absurd (omega arith)
  elements-Holds (suc fuel) [] h = tt
  elements-Holds (suc fuel) (b ∷ bs) h =
      after-Holds _ _ (read_typed fuel (b ∷ bs)) _ (typed-Holds fuel (b ∷ bs) (omega arith))
        λ r less.
          after-Holds _ _ (read_elements fuel r.1) _ (elements-Holds fuel r.1 (omega (arith, less)))
            λ es u. tt

  entries-Holds :
      (fuel : ℕ) (bs : List ℕ) → length bs * 2 + 2 ≤ fuel → Holds (λ a. Unit) (read_entries fuel bs)
  entries-Holds zero bs h = absurd (omega arith)
  entries-Holds (suc fuel) [] h = tt
  entries-Holds (suc fuel) (b ∷ bs) h =
      after-Holds _ _ (read_typed fuel (b ∷ bs)) _ (typed-Holds fuel (b ∷ bs) (omega arith))
        λ k less.
          after-Holds _ _ (read_typed fuel k.1) _ (typed-Holds fuel k.1 (omega (arith, less)))
            λ r fewer. after-Holds _ _ (key_of k.0) _ (key-Holds k.0) λ key u.
              after-Holds _ _ (read_entries fuel r.1) _
                (entries-Holds fuel r.1 (omega (arith, less, fewer))) λ es w. tt

  fields-Holds :
      (fuel : ℕ) (bs : List ℕ) → length bs * 2 + 2 ≤ fuel → Holds (λ a. Unit) (read_fields fuel bs)
  fields-Holds zero bs h = absurd (omega arith)
  fields-Holds (suc fuel) [] h = tt
  fields-Holds (suc fuel) (b ∷ bs) h =
      after-Holds _ _ (read_varint (b ∷ bs)) _ (varint-Holds (b ∷ bs)) λ t less.
        after-Holds _ _ (read_typed fuel t.1) _ (typed-Holds fuel t.1 (omega (arith, less)))
          λ r fewer.
            after-Holds _ _ (read_fields fuel r.1) _
              (fields-Holds fuel r.1 (omega (arith, less, fewer))) λ fs u. tt

-- On any bytes `decode` ends, with a value or with its refusal, within its fuel of twice the number of
-- bytes and two.
pub decode-ends : (bs : List ℕ) → decode bs ≢ exhausted
unfolding decode Holds
decode-ends bs e = subst (Holds (λ v. Unit)) e (
    after-Holds _ (λ v. Unit) (read_fields (length bs * 2 + 2) bs) _
      (fields-Holds (length bs * 2 + 2) bs (omega arith)) λ fs u. tt)
