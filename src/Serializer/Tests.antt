-- ===== src/Serializer/Tests.antt =====
-- The serializer of src/Serializer.cpp on concrete values.
use my_rpc_project.Base.{◌≡◌, ◌≢◌, ◌^◌, ◌-◌, refl, [], ◌∷◌, arith}
use my_rpc_project.Serializer.{
  Value, int64, string, structure, array, no_elements, element, no_entries, entry, no_fields, field,
  encode, write_fields, write_varint, write_varint_loop, zigzag_encode, write_delimited,
}
use my_rpc_project.Serializer.Reader.{
  exhausted, malformed, gives, decode, read_fields, read_varint, read_payload, nested, key_of,
}
use my_rpc_project.Serializer.Total.{decode-ends}
use my_rpc_project.Serializer.RoundTrip.{IsEncodable, fields_of, decode-encode}

-- -2 and "hi" in a list under key "k", in field 20.
abbrev sample : Value
sample = structure (
    field 20
      (Value.map (
        entry (107 ∷ [])
          (array (element (int64 (2 ^ 64 - 2)) (element (string (104 ∷ 105 ∷ [])) no_elements)))
          no_entries))
      no_fields)

write_varint_two_bytes : write_varint 300 ≡ 172 ∷ 2 ∷ []
unfolding write_varint write_varint_loop
write_varint_two_bytes = refl

encode-sample :
    encode sample ≡ 162 ∷ 1 ∷ 7 ∷ 11 ∷ 5 ∷ 1 ∷ 107 ∷ 6 ∷ 6 ∷ 2 ∷ 3 ∷ 5 ∷ 2 ∷ 104 ∷ 105 ∷ []
unfolding encode write_varint write_varint_loop zigzag_encode write_delimited write_fields
encode-sample = refl

-- A map whose key is no string, and a varint of more than ten bytes.
decode_bad_key : decode (10 ∷ 7 ∷ 2 ∷ 0 ∷ 0 ∷ []) ≡ malformed
unfolding decode read_fields read_varint read_payload nested key_of
decode_bad_key = refl

sample-IsEncodable : IsEncodable sample
unfolding IsEncodable write_varint write_varint_loop zigzag_encode write_delimited write_fields
sample-IsEncodable = (
  omega arith,
  (
    omega arith,
    (omega arith, (omega arith, (omega arith, (omega arith, (omega arith, tt))), tt)),
    tt,
  ),
)

decode-encode_example : decode (encode sample) ≡ gives (structure (fields_of sample))
decode-encode_example = decode-encode sample sample-IsEncodable

decode-ends_example : decode (10 ∷ 6 ∷ 200 ∷ 1 ∷ []) ≢ exhausted
decode-ends_example = decode-ends (10 ∷ 6 ∷ 200 ∷ 1 ∷ [])
