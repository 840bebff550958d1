-- ===== src/Wire/Utf8.antt =====
-- `str.encode('utf-8', 'strict')` and `bytes.decode('utf-8', 'strict')`, which codec.py uses for
-- text: the shortest form of each Unicode scalar value, and nothing else.
pub mod RoundTrip
use peer_application_runtime.Base.{
  ℕ, zero, suc, ◌+◌, ◌-◌, ◌*◌, ◌/◌, ◌%◌, List, [], ◌∷◌, ◌++◌, Bool, true, false, ◌&&◌, ◌||◌, Option,
  none, some, ltb, leb, if◌then◌else◌, length,
}

-- A code point of a Python `str` is below 0x110000; the surrogates have no UTF-8 form.
abbrev pub is_scalar : ℕ → Bool
is_scalar c = ltb c 0xd800 || (leb 0xe000 c && ltb c 0x110000)

unfoldable pub encode_char : ℕ → List ℕ
encode_char c =
    if ltb c 0x80
    then c ∷ []
    else if ltb c 0x800
    then (0xc0 + c / 64) ∷ (0x80 + c % 64) ∷ []
    else if ltb c 0x10000
    then (0xe0 + c / 4096) ∷ (0x80 + c / 64 % 64) ∷ (0x80 + c % 64) ∷ []
    else (0xf0 + c / 262144) ∷ (0x80 + c / 4096 % 64) ∷ (0x80 + c / 64 % 64) ∷ (0x80 + c % 64) ∷ []

-- `none` is UnicodeEncodeError.
unfoldable pub utf8_encode : List ℕ → Option (List ℕ)
utf8_encode [] = some []
utf8_encode (c ∷ cs) =
    if is_scalar c
    then elim (utf8_encode cs) [ none ↦ none | some bs ↦ some (encode_char c ++ bs) ]
    else none

abbrev pub is_tail : ℕ → Bool
is_tail b = leb 0x80 b && ltb b 0xc0

abbrev pub checked : Bool → ℕ → List ℕ → Option (ℕ × List ℕ)
checked test c rest = if test then some (c, rest) else none

-- The forms of two, three and four bytes behind their first byte.
unfoldable pub two_bytes : ℕ → List ℕ → Option (ℕ × List ℕ)
two_bytes b0 [] = none
two_bytes b0 (b1 ∷ rest) =
    let c = (b0 - 0xc0) * 64 + (b1 - 0x80) in checked (is_tail b1 && leb 0x80 c) c rest

unfoldable pub three_bytes : ℕ → List ℕ → Option (ℕ × List ℕ)
three_bytes b0 [] = none
three_bytes b0 (b1 ∷ []) = none
three_bytes b0 (b1 ∷ b2 ∷ rest) =
    let c = (b0 - 0xe0) * 4096 + (b1 - 0x80) * 64 + (b2 - 0x80) in
    checked (is_tail b1 && is_tail b2 && leb 0x800 c && is_scalar c) c rest

unfoldable pub four_bytes : ℕ → List ℕ → Option (ℕ × List ℕ)
four_bytes b0 [] = none
four_bytes b0 (b1 ∷ []) = none
four_bytes b0 (b1 ∷ b2 ∷ []) = none
four_bytes b0 (b1 ∷ b2 ∷ b3 ∷ rest) =
    let c = (b0 - 0xf0) * 262144 + (b1 - 0x80) * 4096 + (b2 - 0x80) * 64 + (b3 - 0x80) in
    checked (is_tail b1 && is_tail b2 && is_tail b3 && leb 0x10000 c && is_scalar c) c rest

-- One character from the front.
unfoldable pub decode_char : List ℕ → Option (ℕ × List ℕ)
decode_char [] = none
decode_char (b0 ∷ rest) =
    if ltb b0 0x80
    then some (b0, rest)
    else if ltb b0 0xc0
    then none
    else if ltb b0 0xe0
    then two_bytes b0 rest
    else if ltb b0 0xf0
    then three_bytes b0 rest
    else if ltb b0 0xf8
    then four_bytes b0 rest
    else none

-- The loop takes a byte at least in every round.
unfoldable pub decode_chars : ℕ → List ℕ → Option (List ℕ)
decode_chars fuel [] = some []
decode_chars zero (b ∷ bs) = none
decode_chars (suc fuel) (b ∷ bs) = elim (decode_char (b ∷ bs)) [
  | none ↦ none
  | some (c, rest) ↦ elim (decode_chars fuel rest) [ none ↦ none | some cs ↦ some (c ∷ cs) ]
]

-- `none` is UnicodeDecodeError.
unfoldable pub utf8_decode : List ℕ → Option (List ℕ)
unfolding decode_chars
utf8_decode bs = decode_chars (length bs) bs
