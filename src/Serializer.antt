-- ===== src/Serializer.antt =====
-- include/Serializer.h and src/Serializer.cpp: values to bytes and back.
-- A byte is a number below 256. An int64_t is its two's complement pattern and a double its 64 bits.
pub mod Reader
pub mod Varint
pub mod Total
pub mod RoundTrip
mod Tests
use my_rpc_project.Base.{
  ℕ, zero, suc, ◌+◌, ◌-◌, ◌*◌, ◌/◌, ◌%◌, ◌^◌, Bool, true, false, List, [], ◌∷◌, ◌++◌, length, take,
  drop, ltb, leb, ◌==◌, if◌then◌else◌,
}

-- The alternatives of the variant, with vectors as lists.
mutual
  pub data Value : Type 0 where
    null : Value
    bool : Bool → Value
    int64 uint64 double : ℕ → Value
    string : List ℕ → Value
    array : Elements → Value
    map : Entries → Value
    structure : Fields → Value

  pub data Elements : Type 0 where
    no_elements : Elements
    element : Value → Elements → Elements

  -- `MapEntry`s.
  pub data Entries : Type 0 where
    no_entries : Entries
    entry : (key : List ℕ) → Value → Entries → Entries

  -- `Field`s.
  pub data Fields : Type 0 where
    no_fields : Fields
    field : (id : ℕ) → Value → Fields → Fields

-- `static_cast<Type>(data_.index())`.
unfoldable pub type_of : Value → ℕ
type_of Value.null = 0
type_of (bool b) = 1
type_of (int64 n) = 2
type_of (uint64 n) = 3
type_of (double n) = 4
type_of (string s) = 5
type_of (array es) = 6
type_of (Value.map es) = 7
type_of (structure fs) = 8

-- The loop of `writeVarint`, a group of 7 bits a round.
pub write_varint_loop : ℕ → ℕ → List ℕ
write_varint_loop zero v = []
write_varint_loop (suc rounds) v = elim (leb 128 v) [
  | true ↦ (v % 128 + 128) ∷ write_varint_loop rounds (v / 128)
  | false ↦ v ∷ []
]

-- Ten groups hold 64 bits.
unfoldable pub write_varint : ℕ → List ℕ
write_varint v = write_varint_loop 10 v

-- XOR with 0, or with the pattern of -1.
abbrev pub xor_mask : Bool → ℕ → ℕ
xor_mask negative v = if negative then 2 ^ 64 - 1 - v else v

unfoldable pub zigzag_encode : ℕ → ℕ
zigzag_encode v = xor_mask (leb (2 ^ 63) v) (v * 2 % 2 ^ 64)

unfoldable pub zigzag_decode : ℕ → ℕ
zigzag_decode v = xor_mask (v % 2 == 1) (v / 2)

-- The bytes of a double, lowest first.
unfoldable pub write_bits : ℕ → ℕ → List ℕ
write_bits zero bits = []
write_bits (suc n) bits = (bits % 256) ∷ write_bits n (bits / 256)

-- A length and the bytes.
unfoldable pub write_delimited : List ℕ → List ℕ
write_delimited payload = write_varint (length payload) ++ payload

unfoldable mutual
  unfolding type_of

  pub write_typed : Value → List ℕ
  write_typed Value.null = 0 ∷ []
  write_typed (bool b) = 1 ∷ (if b then 1 else 0) ∷ []
  write_typed (int64 n) = 2 ∷ write_varint (zigzag_encode n)
  write_typed (uint64 n) = 3 ∷ write_varint n
  write_typed (double bits) = 4 ∷ write_bits 8 bits
  write_typed (string s) = 5 ∷ write_delimited s
  write_typed (array es) = 6 ∷ write_delimited (write_elements es)
  write_typed (Value.map es) = 7 ∷ write_delimited (write_entries es)
  write_typed (structure fs) = 8 ∷ write_delimited (write_fields fs)

  pub write_elements : Elements → List ℕ
  write_elements no_elements = []
  write_elements (element v es) = write_typed v ++ write_elements es

  -- The key is written as a string value.
  pub write_entries : Entries → List ℕ
  write_entries no_entries = []
  write_entries (entry key v es) = (5 ∷ write_delimited key) ++ (write_typed v ++ write_entries es)

  -- The tag is `(id << 3) | 2`.
  pub write_fields : Fields → List ℕ
  write_fields no_fields = []
  write_fields (field id v fs) = write_varint (id * 8 + 2) ++ (write_typed v ++ write_fields fs)

-- `Serializer::encode`.
unfoldable pub encode : Value → List ℕ
encode (structure fs) = write_fields fs
encode v = write_fields (field 1 v no_fields)
