-- ===== src/Serializer/Reader.antt =====
-- src/Serializer.cpp, the cursor over received bytes and the reader of values.
-- A `Reader` is the list of the bytes that remain. Each function gives what it reads and the rest.
use my_rpc_project.Base.{
  ℕ, zero, suc, ◌+◌, ◌*◌, ◌/◌, ◌%◌, ◌^◌, true, false, not, List, [], ◌∷◌, length, get_elem?, Option,
  none, some, take, drop, ltb, leb, ◌==◌, if◌then◌else◌,
}
use my_rpc_project.Serializer.{
  Value, bool, int64, uint64, double, string, array, structure, Elements, no_elements, element,
  Entries, no_entries, entry, Fields, no_fields, field, zigzag_decode,
}

-- How a read ends. `exhausted` is the model's: no fuel is left.
pub data Read {ℓ} (A : Type ℓ) : Type ℓ where
  exhausted : Read A
  malformed : Read A
  gives : A → Read A

-- The next read, or the early return.
abbrev pub after {ℓ κ} : {A : Type ℓ} {B : Type κ} → Read A → (A → Read B) → Read B
after exhausted k = exhausted
after malformed k = malformed
after (gives a) k = k a

abbrev pub read_byte : List ℕ → Read (ℕ × List ℕ)
read_byte [] = malformed
read_byte (b ∷ bs) = gives (b, bs)

abbrev pub read_bytes : ℕ → List ℕ → Read (List ℕ × List ℕ)
read_bytes len bs = if ltb (length bs) len then malformed else gives (take len bs, drop len bs)

-- The loop of `readVarint`, with the rounds that are left. The bits that `|=` adds are above those
-- of `value`, so it is a sum; what `<<` shifts out of 64 bits is lost.
unfoldable pub read_varint_loop : ℕ → ℕ → ℕ → List ℕ → Read (ℕ × List ℕ)
read_varint_loop zero value shift bs = malformed
read_varint_loop (suc rounds) value shift [] = malformed
read_varint_loop (suc rounds) value shift (b ∷ bs) =
    let sum = value + b % 128 * 2 ^ shift % 2 ^ 64 in
    elim (leb 128 b) [ true ↦ read_varint_loop rounds sum (shift + 7) bs | false ↦ gives (sum, bs) ]

unfoldable pub read_varint : List ℕ → Read (ℕ × List ℕ)
unfolding read_varint_loop
read_varint bs = read_varint_loop 10 0 0 bs

unfoldable pub read_length_delimited : List ℕ → Read (List ℕ × List ℕ)
read_length_delimited bs = after (read_varint bs) λ (r : ℕ × List ℕ). read_bytes r.0 r.1

-- The `memcpy` of 8 bytes into a number, lowest first.
unfoldable pub load_bits : List ℕ → ℕ
load_bits [] = 0
load_bits (b ∷ bs) = b + load_bits bs * 256

-- A payload that is read by a loop over its own cursor.
unfoldable pub nested :
    {A : Type 0} → (List ℕ → Read A) → (A → Value) → List ℕ → Read (Value × List ℕ)
unfolding read_length_delimited
nested loop make bs =
    after (read_length_delimited bs)
      λ (r : List ℕ × List ℕ). after (loop r.0) λ (a : _). gives (make a, r.1)

-- The enumerators of `Type`, and the cast of a byte to it.
pub data Kind : Type 0 where
  is_null is_bool is_int64 is_uint64 is_double is_string is_array is_map is_struct : Kind

abbrev pub kinds : List Kind
kinds =
    is_null ∷ is_bool ∷ is_int64 ∷ is_uint64 ∷ is_double ∷ is_string ∷ is_array ∷ is_map ∷ is_struct
    ∷ []

-- The `switch` of `readTyped`; the loops that it calls are arguments.
unfoldable pub read_payload :
    (List ℕ → Read Elements)
    → (List ℕ → Read Entries)
    → (List ℕ → Read Fields)
    → Option Kind
    → List ℕ
    → Read (Value × List ℕ)
read_payload elements entries fields kind bs = elim kind [
  | some is_null ↦ gives (Value.null, bs)
  | some is_bool ↦ after (read_byte bs) λ (r : ℕ × List ℕ). gives (bool (not (r.0 == 0)), r.1)
  | some is_int64 ↦
      after (read_varint bs) λ (r : ℕ × List ℕ). gives (int64 (zigzag_decode r.0), r.1)
  | some is_uint64 ↦ after (read_varint bs) λ (r : ℕ × List ℕ). gives (uint64 r.0, r.1)
  | some is_double ↦
      after (read_bytes 8 bs) λ (r : List ℕ × List ℕ). gives (double (load_bits r.0), r.1)
  | some is_string ↦
      after (read_length_delimited bs) λ (r : List ℕ × List ℕ). gives (string r.0, r.1)
  | some is_array ↦ nested elements array bs
  | some is_map ↦ nested entries Value.map bs
  | some is_struct ↦ nested fields structure bs
  | none ↦ malformed
]

-- The key of an entry, if the value read for it is a string.
unfoldable pub key_of : Value → Read (List ℕ)
key_of (string s) = gives s
key_of _ = malformed

-- Every call takes one unit of fuel.
unfoldable mutual
  pub read_typed : ℕ → List ℕ → Read (Value × List ℕ)
  read_typed zero bs = exhausted
  read_typed (suc fuel) bs = after (read_byte bs) λ (r : ℕ × List ℕ).
      read_payload (read_elements fuel) (read_entries fuel) (read_fields fuel) (get_elem? kinds r.0)
        r.1

  pub read_elements : ℕ → List ℕ → Read Elements
  read_elements zero bs = exhausted
  read_elements (suc fuel) [] = gives no_elements
  read_elements (suc fuel) (b ∷ bs) = after (read_typed fuel (b ∷ bs)) λ (r : Value × List ℕ).
      after (read_elements fuel r.1) λ (es : Elements). gives (element r.0 es)

  pub read_entries : ℕ → List ℕ → Read Entries
  read_entries zero bs = exhausted
  read_entries (suc fuel) [] = gives no_entries
  read_entries (suc fuel) (b ∷ bs) = after (read_typed fuel (b ∷ bs)) λ (k : Value × List ℕ).
      after (read_typed fuel k.1) λ (r : Value × List ℕ).
        after (key_of k.0)
          λ (key : List ℕ). after (read_entries fuel r.1) λ (es : Entries). gives (entry key r.0 es)

  -- The field number is `tag >> 3`, as a uint32_t.
  pub read_fields : ℕ → List ℕ → Read Fields
  read_fields zero bs = exhausted
  read_fields (suc fuel) [] = gives no_fields
  read_fields (suc fuel) (b ∷ bs) = after (read_varint (b ∷ bs)) λ (t : ℕ × List ℕ).
      after (read_typed fuel t.1) λ (r : Value × List ℕ).
        after (read_fields fuel r.1) λ (fs : Fields). gives (field (t.0 / 8 % 2 ^ 32) r.0 fs)

-- `Serializer::decode`.
unfoldable pub decode : List ℕ → Read Value
decode bs = after (read_fields (length bs * 2 + 2) bs) λ (fs : Fields). gives (structure fs)
