-- ===== src/Wire/Head.antt =====
-- The head of a CBOR item: `_head` and `argument` of experiments/g0-wire/par_wire/codec.py.
pub mod RoundTrip
use peer_application_runtime.Base.{
  ℕ, ◌+◌, ◌-◌, ◌*◌, ◌/◌, ◌^◌, List, [], ◌∷◌, bit_and, bit_or, ltb, leb, ◌==◌, if◌then◌else◌, length,
  take, drop,
}
use peer_application_runtime.Base.Bits.{to_bytes, from_bytes}
use peer_application_runtime.Wire.Error.{
  Result, ok, raised, ◌>>=◌, uint_range, indefinite, reserved, non_minimal, truncated,
}

abbrev pub u64_max : ℕ
u64_max = 2 ^ 64 - 1

-- One row of the table of widths: the five low bits say how many bytes follow.
abbrev pub wide : ℕ → ℕ → ℕ → ℕ → List ℕ
wide major ai width value = bit_or (major * 32) ai ∷ to_bytes width value

unfoldable pub head : ℕ → ℕ → Result (List ℕ)
head major value =
    if ltb u64_max value
    then raised uint_range
    else if ltb value 24
    then ok (bit_or (major * 32) value ∷ [])
    else if ltb value (2 ^ 8)
    then ok (wide major 24 1 value)
    else if ltb value (2 ^ 16)
    then ok (wide major 25 2 value)
    else if ltb value (2 ^ 32)
    then ok (wide major 26 4 value)
    else if ltb value (2 ^ 64)
    then ok (wide major 27 8 value)
    else raised uint_range

-- `take(n)`: `input` is what stands behind the position.
unfoldable pub take_bytes : ℕ → List ℕ → Result (List ℕ × List ℕ)
take_bytes n input =
    if ltb (length input) n then raised truncated else ok (take n input, drop n input)

-- A number of `width` bytes that no shorter form holds.
unfoldable pub wide_argument : ℕ → ℕ → List ℕ → Result (ℕ × List ℕ)
wide_argument width minimum input = do
  (raw, rest) ← take_bytes width input
  if ltb (from_bytes raw) minimum then raised non_minimal else ok (from_bytes raw, rest)

unfoldable pub argument : ℕ → List ℕ → Result (ℕ × List ℕ)
argument ai input =
    if ltb ai 24
    then ok (ai, input)
    else if ai == 31
    then raised indefinite
    else if ai == 24
    then wide_argument 1 24 input
    else if ai == 25
    then wide_argument 2 256 input
    else if ai == 26
    then wide_argument 4 65536 input
    else if ai == 27
    then wide_argument 8 4294967296 input
    else raised reserved

-- `initial >> 5` and `initial & 31`.
abbrev pub major_of : ℕ → ℕ
major_of initial = initial / 32

abbrev pub low_of : ℕ → ℕ
low_of initial = bit_and initial 31
