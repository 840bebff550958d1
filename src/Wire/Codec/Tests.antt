-- ===== src/Wire/Codec/Tests.antt =====
-- Concrete runs of the codec, and its theorems at concrete inputs.
use peer_application_runtime.Base.{ℕ, List, [], ◌∷◌, ◌≡◌, refl, arith, ◌↔◌}
use peer_application_runtime.Wire.Error.{ok, raised, non_minimal, map_order, trailing, map_key}
use peer_application_runtime.Wire.Value.{
  nat, other_key, Value, null, uint, text, array, dict, nil, cons, end, field,
}
use peer_application_runtime.Wire.Utf8.{
  encode_char, utf8_encode, decode_char, decode_chars, utf8_decode, two_bytes,
}
use peer_application_runtime.Wire.Head.{head, take_bytes, wide_argument, argument}
use peer_application_runtime.Wire.Head.RoundTrip.{more}
use peer_application_runtime.Base.Bits.{to_bytes, from_bytes}
use peer_application_runtime.Wire.Encode.{
  insert, sorted, bad_key, put, put_head, put_text, put_items, put_fields, put_value, put_item,
  encode,
}
use peer_application_runtime.Wire.Decode.{
  take_initial, simple, read_items, as_key, out_of_order, read_fields, check_needed, read_major,
  read_initial, read_value, read_item, at_end, decode,
}
use peer_application_runtime.Wire.Canonical.{code, weight, levels, IsCanonical}
use peer_application_runtime.Wire.Normal.{normal, IsObject, has_key}
use peer_application_runtime.Wire.Codec.{
  IsEncodable, encode-code, decode-iff-code, encode-decode, decode-encode,
}

-- {2: "é", 1: [None, 300]}
abbrev sample : Value
sample =
    dict (
      field (nat 2) (text (0xe9 ∷ []))
        (field (nat 1) (array (cons null (cons (uint 300) nil))) end))

abbrev ordered : Value
ordered =
    dict (
      field (nat 1) (array (cons null (cons (uint 300) nil)))
        (field (nat 2) (text (0xe9 ∷ [])) end))

abbrev wire : List ℕ
wire = 0xa2 ∷ 1 ∷ 0x82 ∷ 0xf6 ∷ 0x19 ∷ 0x01 ∷ 0x2c ∷ 2 ∷ 0x62 ∷ 0xc3 ∷ 0xa9 ∷ []

abbrev big : ℕ
big = 1000

encodes : encode 1000 100 sample ≡ ok wire
unfolding encode put_item put_value put_fields put_items put_head put_text put head utf8_encode
    encode_char insert sorted bad_key to_bytes
encodes = refl

decodes : decode 1000 100 wire ≡ ok ordered
unfolding decode read_item read_value take_initial read_initial simple read_items as_key
    out_of_order read_fields check_needed read_major at_end argument wide_argument take_bytes
    from_bytes utf8_decode decode_chars decode_char two_bytes
decodes = refl

-- 24 in two bytes is accepted, 23 in two bytes is not.
not_minimal : decode 1000 100 (0x18 ∷ 23 ∷ []) ≡ raised non_minimal
unfolding decode read_item read_value take_initial read_initial argument wide_argument take_bytes
    from_bytes
not_minimal = refl

swapped_keys : decode 1000 100 (0xa2 ∷ 2 ∷ 0xf6 ∷ 1 ∷ 0xf6 ∷ []) ≡ raised map_order
unfolding decode read_item read_value take_initial read_initial simple as_key out_of_order
    read_fields check_needed read_major argument
swapped_keys = refl

two_items : decode 1000 100 (1 ∷ 1 ∷ []) ≡ raised trailing
unfolding decode read_item read_value take_initial read_initial read_major argument at_end
two_items = refl

text_key : encode 1000 100 (dict (field other_key null end)) ≡ raised map_key
unfolding encode put_item put_value bad_key
text_key = refl

sample-IsObject : IsObject sample
unfolding IsObject has_key
sample-IsObject = (refl, tt, (refl, (tt, (tt, tt)), tt))

decode-encode_example : decode 1000 100 wire ≡ ok (normal sample)
decode-encode_example = decode-encode 1000 100 sample wire sample-IsObject encodes

encode-decode_example : encode 1000 100 ordered ≡ ok wire
encode-decode_example = encode-decode 1000 100 wire ordered (omega arith) decodes

decode-iff-code_example :
    (decode 1000 100 wire ≡ ok ordered) ↔ (IsEncodable 1000 100 ordered × (code ordered ≡ wire))
decode-iff-code_example = decode-iff-code 1000 100 wire ordered (omega arith)

number-IsEncodable : IsEncodable 9 1 (uint 300)
unfolding IsCanonical levels weight code more to_bytes
number-IsEncodable = record {
  canonical = omega arith;
  shallow = omega arith;
  fits = omega arith;
  counted = omega arith;
}

encode-code_example : encode 9 1 (uint 300) ≡ ok (code (uint 300))
encode-code_example = encode-code 9 1 (uint 300) number-IsEncodable
