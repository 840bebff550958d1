-- ===== src/Wire/Framing/Tests.antt =====
-- Concrete runs of the framing, and its theorems at concrete inputs. The frames are any values.
use peer_application_runtime.Base.{ℕ, List, map, [], ◌∷◌, ◌++◌, none, some, ◌≡◌, refl, arith}
use peer_application_runtime.Base.Bits.{to_bytes}
use peer_application_runtime.Wire.Error.{Result, ok}
use peer_application_runtime.Wire.Value.{Value, uint, nat, null, dict, end, field}
use peer_application_runtime.Wire.Head.{head}
use peer_application_runtime.Wire.Encode.{
  insert, sorted, bad_key, put, put_head, put_fields, put_value, put_item, encode,
}
use peer_application_runtime.Wire.Normal.{normal, IsObject, has_key}
use peer_application_runtime.Wire.Framing.{Reader, fresh, encode_frame, decode_frame, feed}
use peer_application_runtime.Wire.Framing.Stream.{Fed, fresh-IsReader, feed_total}
use peer_application_runtime.Wire.Framing.RoundTrip.{
  idle, encode_all, decode_frame-encode_frame, feed-encode_all,
}

abbrev anything : Value → Result (Unit {0})
anything v = ok tt

-- {2: None, 1: 7}
abbrev frame : Value
frame = dict (field (nat 2) null (field (nat 1) (uint 7) end))

abbrev wire : List ℕ
wire = 0 ∷ 0 ∷ 0 ∷ 5 ∷ 0xa2 ∷ 1 ∷ 7 ∷ 2 ∷ 0xf6 ∷ []

written : encode_frame anything frame ≡ ok wire
unfolding encode_frame encode put_item put_value put_fields put_head put head insert sorted bad_key
    to_bytes
written = refl

all_written : encode_all anything (frame ∷ frame ∷ []) ≡ ok (wire ++ wire)
unfolding encode_all encode_frame encode put_item put_value put_fields put_head put head insert
    sorted bad_key to_bytes
all_written = refl

frame-IsObject : IsObject frame
unfolding IsObject has_key
frame-IsObject = (refl, tt, (refl, tt, tt))

decode_frame-encode_frame_example : decode_frame anything wire ≡ ok (normal frame)
decode_frame-encode_frame_example =
    decode_frame-encode_frame anything frame wire (frame-IsObject, refl) written

feed-encode_all_example :
    feed anything (wire ++ wire) (some 3) (idle anything 30 64 none)
    ≡ some (idle anything 30 64 (some 3), ok (map normal (frame ∷ frame ∷ [])))
feed-encode_all_example =
    feed-encode_all anything 30 64 3 none (frame ∷ frame ∷ []) (wire ++ wire)
      ((frame-IsObject, refl), ((frame-IsObject, refl), tt)) all_written (omega arith) (omega arith)
      refl

feed_total_example :
    (p : Reader × Result (List Value)) × (feed anything wire (some 3) (fresh 30 64) ≡ some p)
    × Fed anything p
feed_total_example = feed_total anything wire (some 3) (fresh 30 64) (fresh-IsReader 30 64)
