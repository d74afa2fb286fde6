-- ===== src/Serializer/RoundTrip.antt =====
-- src/Serializer.cpp, from values to bytes and back.
use my_rpc_project.Base.{
  ℕ, zero, suc, ◌+◌, ◌*◌, ◌/◌, ◌%◌, ◌^◌, ◌≤◌, ◌<◌, ◌≡◌, refl, sym, ap, ◌∙◌, true, false, List, [],
  ◌∷◌, ◌++◌, length, length-append, arith,
}
use my_rpc_project.Serializer.{
  Value, bool, int64, uint64, double, string, array, structure, Elements, no_elements, element,
  Entries, no_entries, entry, Fields, no_fields, field, write_varint, write_varint_loop,
  zigzag_encode, zigzag_decode, write_bits, write_delimited, write_typed, write_elements,
  write_entries, write_fields, encode,
}
use my_rpc_project.Serializer.Reader.{
  Read, gives, after, read_bytes, read_varint, load_bits, nested, read_payload, key_of, read_typed,
  read_elements, read_entries, read_fields, decode,
}
use my_rpc_project.Serializer.Varint.{
  read_varint-write_varint, zigzag_decode-zigzag_encode, load_bits-write_bits, length-write_bits,
  read_bytes-append, read_length_delimited-write_delimited,
}

-- The numbers in a value fit their types, and the lengths that are written fit 64 bits.
unfoldable mutual
  pub IsEncodable : Value → Type 0
  IsEncodable (int64 n) = n < 2 ^ 64
  IsEncodable (uint64 n) = n < 2 ^ 64
  IsEncodable (double n) = n < 2 ^ 64
  IsEncodable (string s) = length s < 2 ^ 64
  IsEncodable (array es) = (length (write_elements es) < 2 ^ 64) × AreElements es
  IsEncodable (Value.map es) = (length (write_entries es) < 2 ^ 64) × AreEntries es
  IsEncodable (structure fs) = (length (write_fields fs) < 2 ^ 64) × AreFields fs
  IsEncodable _ = Unit

  pub AreElements : Elements → Type 0
  AreElements no_elements = Unit
  AreElements (element v es) = IsEncodable v × AreElements es

  pub AreEntries : Entries → Type 0
  AreEntries no_entries = Unit
  AreEntries (entry key v es) = (length key < 2 ^ 64) × IsEncodable v × AreEntries es

  pub AreFields : Fields → Type 0
  AreFields no_fields = Unit
  AreFields (field id v fs) = (id < 2 ^ 32) × IsEncodable v × AreFields fs

length-write_varint : (v : ℕ) → 1 ≤ length (write_varint v)
unfolding write_varint write_varint_loop
length-write_varint v = ground arith

length-write_delimited : (xs : List ℕ) → length xs + 1 ≤ length (write_delimited xs)
unfolding write_delimited
length-write_delimited xs =
    omega (arith, length-append (write_varint (length xs)) xs, length-write_varint (length xs))

length-write_typed : (v : Value) → 1 ≤ length (write_typed v)
unfolding write_typed
length-write_typed Value.null = omega arith
length-write_typed (bool b) = omega arith
length-write_typed (int64 n) = omega arith
length-write_typed (uint64 n) = omega arith
length-write_typed (double n) = omega arith
length-write_typed (string n) = omega arith
length-write_typed (array es) = omega arith
length-write_typed (Value.map es) = omega arith
length-write_typed (structure fs) = omega arith

nested-write_delimited :
    {A : Type 0} (loop : List ℕ → Read A) (make : A → Value) (payload rest : List ℕ) (a : A)
    → length payload < 2 ^ 64
    → loop payload ≡ gives a
    → nested loop make (write_delimited payload ++ rest) ≡ gives (make a, rest)
unfolding nested
nested-write_delimited loop make payload rest a h e =
    rw (read_length_delimited-write_delimited payload rest h, e)

-- The loops on bytes that remain.
more_elements :
    (fuel : ℕ) (bs : List ℕ) (v : Value) (rest : List ℕ) (es : Elements)
    → 1 ≤ length bs
    → read_typed fuel bs ≡ gives (v, rest)
    → read_elements fuel rest ≡ gives es
    → read_elements (suc fuel) bs ≡ gives (element v es)
unfolding read_elements
more_elements fuel [] v rest es h p q = absurd (omega arith)
more_elements fuel (b ∷ bs) v rest es h p q = rw (p, q)

more_entries :
    (fuel : ℕ) (bs key mid rest : List ℕ) (v : Value) (es : Entries)
    → 1 ≤ length bs
    → read_typed fuel bs ≡ gives (string key, mid)
    → read_typed fuel mid ≡ gives (v, rest)
    → read_entries fuel rest ≡ gives es
    → read_entries (suc fuel) bs ≡ gives (entry key v es)
unfolding read_entries key_of
more_entries fuel [] key mid rest v es h p q r = absurd (omega arith)
more_entries fuel (b ∷ bs) key mid rest v es h p q r = rw (p, q, r)

more_fields :
    (fuel : ℕ) (bs : List ℕ) (tag id : ℕ) (mid rest : List ℕ) (v : Value) (fs : Fields)
    → 1 ≤ length bs
    → read_varint bs ≡ gives (tag, mid)
    → tag / 8 % 2 ^ 32 ≡ id
    → read_typed fuel mid ≡ gives (v, rest)
    → read_fields fuel rest ≡ gives fs
    → read_fields (suc fuel) bs ≡ gives (field id v fs)
unfolding read_fields
more_fields fuel [] tag id mid rest v fs h p s q r = absurd (omega arith)
more_fields fuel (b ∷ bs) tag id mid rest v fs h p s q r = rw (p, q, r, s)

zigzag_read :
    (n : ℕ) (rest : List ℕ)
    → n < 2 ^ 64
    → after {B = Value × List ℕ}
        (read_varint (write_varint (zigzag_encode n) ++ rest))
        (λ (r : ℕ × List ℕ). gives (int64 (zigzag_decode r.0), r.1))
      ≡ gives (int64 n, rest)
zigzag_read n rest h =
    let z = zigzag_decode-zigzag_encode n h in
    rw (read_varint-write_varint (zigzag_encode n) rest z.1) (ap (λ k. gives (int64 k, rest)) z.0)

double_read :
    (n : ℕ) (rest : List ℕ)
    → n < 2 ^ 64
    → after {B = Value × List ℕ}
        (read_bytes 8 (write_bits 8 n ++ rest))
        (λ (r : List ℕ × List ℕ). gives (double (load_bits r.0), r.1))
      ≡ gives (double n, rest)
double_read n rest h =
    let bytes : read_bytes 8 (write_bits 8 n ++ rest) ≡ gives (write_bits 8 n, rest) =
      ap (λ k. read_bytes k (write_bits 8 n ++ rest)) (sym (length-write_bits 8 n))
      ∙ read_bytes-append (write_bits 8 n) rest in
    ap
      (λ r.
        after {B = Value × List ℕ} r (λ (r : List ℕ × List ℕ). gives (double (load_bits r.0), r.1)))
      bytes
    ∙ ap (λ k. gives (double k, rest)) (load_bits-write_bits 8 n (omega arith))

mutual
  unfolding IsEncodable read_typed read_payload write_typed read_elements read_entries read_fields

  typed-round :
      (fuel : ℕ) (v : Value) (rest : List ℕ)
      → IsEncodable v
      → length (write_typed v) * 2 ≤ fuel
      → read_typed fuel (write_typed v ++ rest) ≡ gives (v, rest)
  typed-round zero v rest fits h = absurd (omega (arith, length-write_typed v))
  typed-round (suc fuel) Value.null rest fits h = refl
  typed-round (suc fuel) (bool true) rest fits h = refl
  typed-round (suc fuel) (bool false) rest fits h = refl
  typed-round (suc fuel) (int64 n) rest fits h = zigzag_read n rest fits
  typed-round (suc fuel) (uint64 n) rest fits h = rw (read_varint-write_varint n rest fits)
  typed-round (suc fuel) (double n) rest fits h = double_read n rest fits
  typed-round (suc fuel) (string s) rest fits h =
      rw (read_length_delimited-write_delimited s rest fits)
  typed-round (suc fuel) (array es) rest fits h =
      nested-write_delimited (read_elements fuel) array (write_elements es) rest es fits.0
        (elements-round fuel es fits.1 (omega (arith, length-write_delimited (write_elements es))))
  typed-round (suc fuel) (Value.map es) rest fits h =
      nested-write_delimited (read_entries fuel) Value.map (write_entries es) rest es fits.0
        (entries-round fuel es fits.1 (omega (arith, length-write_delimited (write_entries es))))
  typed-round (suc fuel) (structure fs) rest fits h =
      nested-write_delimited (read_fields fuel) structure (write_fields fs) rest fs fits.0
        (fields-round fuel fs fits.1 (omega (arith, length-write_delimited (write_fields fs))))

  elements-round :
      (fuel : ℕ) (es : Elements)
      → AreElements es
      → length (write_elements es) * 2 + 1 ≤ fuel
      → read_elements fuel (write_elements es) ≡ gives es
  elements-round zero es fits h = absurd (omega arith)
  elements-round (suc fuel) no_elements fits h = refl
  elements-round (suc fuel) (element v es) fits h =
      let size = length-append (write_typed v) (write_elements es) in
      let some_byte = length-write_typed v in
      more_elements fuel (write_typed v ++ write_elements es) v (write_elements es) es
        (omega (arith, size, some_byte))
        (typed-round fuel v (write_elements es) fits.0 (omega (arith, size)))
        (elements-round fuel es fits.1 (omega (arith, size, some_byte)))

  entries-round :
      (fuel : ℕ) (es : Entries)
      → AreEntries es
      → length (write_entries es) * 2 + 1 ≤ fuel
      → read_entries fuel (write_entries es) ≡ gives es
  entries-round zero es fits h = absurd (omega arith)
  entries-round (suc fuel) no_entries fits h = refl
  entries-round (suc fuel) (entry key v es) fits h =
      let back = write_typed v ++ write_entries es in
      let size = length-append (write_typed (string key)) back in
      let size_back = length-append (write_typed v) (write_entries es) in
      let some_byte = length-write_typed v in
      let key_byte = length-write_typed (string key) in
      more_entries fuel (write_typed (string key) ++ back) key back (write_entries es) v es
        (omega (arith, size, key_byte))
        (typed-round fuel (string key) back fits.0 (omega (arith, size)))
        (typed-round fuel v (write_entries es) fits.1 (omega (arith, size, size_back)))
        (entries-round fuel es fits.2 (omega (arith, size, size_back, some_byte)))

  fields-round :
      (fuel : ℕ) (fs : Fields)
      → AreFields fs
      → length (write_fields fs) * 2 + 1 ≤ fuel
      → read_fields fuel (write_fields fs) ≡ gives fs
  fields-round zero fs fits h = absurd (omega arith)
  fields-round (suc fuel) no_fields fits h = refl
  fields-round (suc fuel) (field id v fs) fits h =
      let back = write_typed v ++ write_fields fs in
      let size = length-append (write_varint (id * 8 + 2)) back in
      let size_back = length-append (write_typed v) (write_fields fs) in
      let some_byte = length-write_typed v in
      let tag_byte = length-write_varint (id * 8 + 2) in
      more_fields fuel (write_varint (id * 8 + 2) ++ back) (id * 8 + 2) id back (write_fields fs) v
        fs (omega (arith, size, tag_byte))
        (read_varint-write_varint (id * 8 + 2) back (omega (arith, fits.0))) (omega (arith, fits.0))
        (typed-round fuel v (write_fields fs) fits.1 (omega (arith, size, size_back)))
        (fields-round fuel fs fits.2 (omega (arith, size, size_back, some_byte)))

-- What a value is decoded to: a struct as it is, any other value as field 1 of a struct.
unfoldable pub fields_of : Value → Fields
fields_of (structure fs) = fs
fields_of v = field 1 v no_fields

encode-fields_of : (v : Value) → encode v ≡ write_fields (fields_of v)
unfolding encode fields_of
encode-fields_of Value.null = refl
encode-fields_of (bool b) = refl
encode-fields_of (int64 n) = refl
encode-fields_of (uint64 n) = refl
encode-fields_of (double n) = refl
encode-fields_of (string s) = refl
encode-fields_of (array es) = refl
encode-fields_of (Value.map es) = refl
encode-fields_of (structure fs) = refl

fields_of-AreFields : (v : Value) → IsEncodable v → AreFields (fields_of v)
unfolding fields_of IsEncodable
fields_of-AreFields Value.null fits = (omega arith, tt, tt)
fields_of-AreFields (bool b) fits = (omega arith, tt, tt)
fields_of-AreFields (int64 n) fits = (omega arith, fits, tt)
fields_of-AreFields (uint64 n) fits = (omega arith, fits, tt)
fields_of-AreFields (double n) fits = (omega arith, fits, tt)
fields_of-AreFields (string s) fits = (omega arith, fits, tt)
fields_of-AreFields (array es) fits = (omega arith, fits, tt)
fields_of-AreFields (Value.map es) fits = (omega arith, fits, tt)
fields_of-AreFields (structure fs) fits = fits.1

-- An encodable value, however deeply nested, is decoded to itself if it is a struct, and to a struct
-- with the value as field 1 if it is not.
pub decode-encode :
    (v : Value) → IsEncodable v → decode (encode v) ≡ gives (structure (fields_of v))
unfolding decode
decode-encode v fits =
    let bs = write_fields (fields_of v) in
    ap decode (encode-fields_of v)
    ∙ rw (fields-round (length bs * 2 + 2) (fields_of v) (fields_of-AreFields v fits) (omega arith))
