-- ===== src/Wire/Session/Tests.antt =====
-- Concrete runs of the session construction, and its theorems at concrete inputs. Every frame
-- counts as valid, and the digest of some bytes is their last four.
use peer_application_runtime.Base.{ℕ, ◌-◌, [], ◌∷◌, drop, length, false, ◌≡◌, refl}
use peer_application_runtime.Base.Bits.{to_bytes, from_bytes}
use peer_application_runtime.Base.Bytes.{Bytes, bytes_eq}
use peer_application_runtime.Wire.Error.{Result, ok, raised}
use peer_application_runtime.Wire.Value.{
  nat, Value, uint, bytes, text, array, dict, nil, cons, end, field,
}
use peer_application_runtime.Wire.Normal.{normal_values, IsObject, AllObjects}
use peer_application_runtime.Wire.Utf8.{
  encode_char, utf8_encode, decode_char, decode_chars, utf8_decode,
}
use peer_application_runtime.Wire.Head.{head, take_bytes, wide_argument, argument}
use peer_application_runtime.Wire.Encode.{
  insert, sorted, bad_key, put, put_head, put_text, put_items, put_fields, put_value, put_item,
  encode,
}
use peer_application_runtime.Wire.Decode.{
  take_initial, read_items, as_key, out_of_order, read_fields, check_needed, read_major,
  read_initial, read_value, read_item, at_end, decode,
}
use peer_application_runtime.Wire.Framing.{encode_frame, decode_body, decode_frame}
use peer_application_runtime.Wire.Paging.{entry}
use peer_application_runtime.Wire.Session.{
  domain, session_auth, initiator_role, draft_2, Transcript, signing_bytes, Expected, kind_of,
  hello_of, lists_text, lists_uint, check_hellos, payload, build_transcript,
}
use peer_application_runtime.Wire.Session.Binding.{
  SameHandshake, domain-injective, signing_bytes-injective, build_transcript-injective,
}

abbrev anything : Value → Result (Unit {0})
anything v = ok tt

abbrev digest : Bytes → Bytes
digest b = drop (length b - 4) b

abbrev value_of : Result Bytes → Bytes
value_of (ok b) = b
value_of (raised c) = []

abbrev transcript : Transcript
transcript = record { canonical = 1 ∷ 2 ∷ []; candidate_session_id = []; authenticated = false }

abbrev signed : Bytes
signed =
    0x84 ∷ 0x63 ∷ 80 ∷ 65 ∷ 82 ∷ 1 ∷ 0x6c ∷ 115 ∷ 101 ∷ 115 ∷ 115 ∷ 105 ∷ 111 ∷ 110 ∷ 45 ∷ 97 ∷ 117
    ∷ 116 ∷ 104 ∷ 0x82 ∷ 0x42 ∷ 1 ∷ 2 ∷ 0x69 ∷ 105 ∷ 110 ∷ 105 ∷ 116 ∷ 105 ∷ 97 ∷ 116 ∷ 111 ∷ 114
    ∷ []

signs : signing_bytes transcript initiator_role ≡ ok signed
unfolding signing_bytes domain bytes_eq encode put_item put_value put_items put_head put_text put
    head utf8_encode encode_char to_bytes
signs = refl

signing_bytes-injective_example :
    (transcript.canonical ≡ transcript.canonical) × (initiator_role ≡ initiator_role)
signing_bytes-injective_example =
    signing_bytes-injective transcript transcript initiator_role initiator_role signed signs signs

abbrev profile : Bytes
profile =
    7 ∷ 0 ∷ 0 ∷ 0 ∷ 0 ∷ 0 ∷ 0 ∷ 0 ∷ 0 ∷ 0 ∷ 0 ∷ 0 ∷ 0 ∷ 0 ∷ 0 ∷ 0 ∷ 0 ∷ 0 ∷ 0 ∷ 0 ∷ 0 ∷ 0 ∷ 0 ∷ 0
    ∷ 0 ∷ 0 ∷ 0 ∷ 0 ∷ 0 ∷ 0 ∷ 0 ∷ 0 ∷ []

abbrev hello : ℕ → Value
hello n = dict (
    field (nat 1) (uint 1) (
      field (nat 4)
        (dict (
          field (nat 0) (text (97 ∷ [])) (
            field (nat 2) (bytes (n ∷ [])) (
              field (nat 3) (array (cons (text draft_2) nil)) (
                field (nat 4) (array (cons (uint 1) nil))
                  (field (nat 5) (bytes profile) (field (nat 6) (bytes (n ∷ n ∷ [])) end)))))))
        end))

abbrev sent : ℕ → Bytes
sent n = value_of (encode_frame anything (hello n))

abbrev expected : Expected
expected = record {
  profile = profile;
  initiator_peer = 3 ∷ 3 ∷ [];
  responder_peer = 4 ∷ 4 ∷ [];
  wire = draft_2;
  suite = 1;
}

abbrev built_or : Result Transcript → Transcript
built_or (ok t) = t
built_or (raised c) = transcript

abbrev agreed : Transcript
agreed = built_or (build_transcript anything digest (sent 3) (sent 4) expected)

builds : build_transcript anything digest (sent 3) (sent 4) expected ≡ ok agreed
unfolding build_transcript kind_of hello_of entry check_hellos lists_text lists_uint payload domain
    bytes_eq encode_frame encode put_item put_value put_items put_fields put_head put_text put head
    insert sorted bad_key utf8_encode encode_char to_bytes decode_frame decode_body decode read_item
    read_value take_initial read_initial read_items as_key out_of_order read_fields check_needed
    read_major argument wide_argument take_bytes at_end from_bytes utf8_decode decode_chars
    decode_char
builds = refl

build_transcript-injective_example :
    SameHandshake anything digest (sent 3) (sent 4) expected (sent 3) (sent 4) expected
build_transcript-injective_example =
    build_transcript-injective anything digest (sent 3) (sent 4) (sent 3) (sent 4) expected expected
      agreed agreed builds builds refl

tags :
    domain session_auth (cons (uint 5) nil)
    ≡ ok (
        0x84 ∷ 0x63 ∷ 80 ∷ 65 ∷ 82 ∷ 1 ∷ 0x6c ∷ 115 ∷ 101 ∷ 115 ∷ 115 ∷ 105 ∷ 111 ∷ 110 ∷ 45 ∷ 97
        ∷ 117 ∷ 116 ∷ 104 ∷ 0x81 ∷ 5 ∷ [])
unfolding domain bytes_eq encode put_item put_value put_items put_head put_text put head utf8_encode
    encode_char
tags = refl

five-AllObjects : AllObjects (cons (uint 5) nil)
unfolding IsObject
five-AllObjects = (tt, tt)

domain-injective_example :
    (session_auth ≡ session_auth)
    × (normal_values (cons (uint 5) nil) ≡ normal_values (cons (uint 5) nil))
domain-injective_example =
    domain-injective session_auth session_auth (cons (uint 5) nil) (cons (uint 5) nil) _
      five-AllObjects five-AllObjects tags tags
