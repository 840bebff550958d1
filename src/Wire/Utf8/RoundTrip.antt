-- ===== src/Wire/Utf8/RoundTrip.antt =====
-- UTF-8 decoding inverts encoding, and accepts only what encoding writes.
use peer_application_runtime.Base.{
  ℕ, zero, suc, ◌≤◌, ◌<◌, List, [], ◌∷◌, ◌++◌, true, some, ◌≡◌, arith, length, length-append, ap,
  sym, ◌∙◌, Option-cases, Bool-cases, ltb, inl, inr,
}
use peer_application_runtime.Wire.Utf8.{
  is_scalar, encode_char, utf8_encode, decode_chars, utf8_decode, decode_char, two_bytes,
  three_bytes, four_bytes,
}

-- One character is read back, whatever follows it.
decode-encode_char :
    (c : ℕ) (rest : List ℕ)
    → is_scalar c ≡ true
    → decode_char (encode_char c ++ rest) ≡ some (c, rest)
unfolding encode_char decode_char two_bytes three_bytes four_bytes
decode-encode_char c rest h = elim (Bool-cases (ltb c 0x80)) [
  | inl one ↦ rw one (ground arith)
  | inr more ↦ elim (Bool-cases (ltb c 0x800)) [
    | inl two ↦ rw (more, two) (ground arith)
    | inr more' ↦ elim (Bool-cases (ltb c 0x10000)) [
      | inl three ↦ rw (more, more', three) (ground arith)
      | inr more'' ↦ rw (more, more', more'') (ground arith)
    ]
  ]
]

record Reads (c : ℕ) (bs rest : List ℕ) : Type 0 where
  scalar : is_scalar c ≡ true
  split : bs ≡ encode_char c ++ rest
  shorter : length rest < length bs

one_Reads : (b : ℕ) (bs : List ℕ) → b < 0x80 → Reads b (b ∷ bs) bs
unfolding encode_char
one_Reads b bs h = record { scalar = ground arith; split = ground arith; shorter = ground arith }

two_Reads :
    (b : ℕ) (bs : List ℕ) (c : ℕ) (rest : List ℕ)
    → 0xc0 ≤ b
    → b < 0xe0
    → two_bytes b bs ≡ some (c, rest)
    → Reads c (b ∷ bs) rest
unfolding two_bytes encode_char
two_Reads b [] c rest lo hi e = cc
two_Reads b (b1 ∷ bs) c rest lo hi e = record {
  scalar = ground arith;
  split = ground arith;
  shorter = ground arith;
}

three_Reads :
    (b : ℕ) (bs : List ℕ) (c : ℕ) (rest : List ℕ)
    → 0xe0 ≤ b
    → b < 0xf0
    → three_bytes b bs ≡ some (c, rest)
    → Reads c (b ∷ bs) rest
unfolding three_bytes encode_char
three_Reads b [] c rest lo hi e = cc
three_Reads b (b1 ∷ []) c rest lo hi e = cc
three_Reads b (b1 ∷ b2 ∷ bs) c rest lo hi e = record {
  scalar = ground arith;
  split = ground arith;
  shorter = ground arith;
}

four_Reads :
    (b : ℕ) (bs : List ℕ) (c : ℕ) (rest : List ℕ)
    → 0xf0 ≤ b
    → b < 0xf8
    → four_bytes b bs ≡ some (c, rest)
    → Reads c (b ∷ bs) rest
unfolding four_bytes encode_char
four_Reads b [] c rest lo hi e = cc
four_Reads b (b1 ∷ []) c rest lo hi e = cc
four_Reads b (b1 ∷ b2 ∷ []) c rest lo hi e = cc
four_Reads b (b1 ∷ b2 ∷ b3 ∷ bs) c rest lo hi e = record {
  scalar = ground arith;
  split = ground arith;
  shorter = ground arith;
}

-- A decoded character is a scalar value, and the input is its encoding followed by the rest.
encode-decode_char :
    (bs : List ℕ) (c : ℕ) (rest : List ℕ) → decode_char bs ≡ some (c, rest) → Reads c bs rest
unfolding decode_char
encode-decode_char [] c rest e = cc
encode-decode_char (b ∷ bs) c rest e =
    ground (
      arith,
      one_Reads b bs,
      two_Reads b bs c rest,
      three_Reads b bs c rest,
      four_Reads b bs c rest,
    )

length-encode_char : (c : ℕ) → 1 ≤ length (encode_char c)
unfolding encode_char
length-encode_char c = ground arith

decode_chars_step :
    (fuel : ℕ) (bs : List ℕ) (c : ℕ) (rest cs : List ℕ)
    → decode_char bs ≡ some (c, rest)
    → decode_chars fuel rest ≡ some cs
    → decode_chars (suc fuel) bs ≡ some (c ∷ cs)
unfolding decode_chars
decode_chars_step fuel [] c rest cs e r = unfold decode_char in cc
decode_chars_step fuel (b ∷ bs) c rest cs e r = rw (e, decode_chars) (rw (r, decode_chars))

-- What a successful encoding of `c ∷ cs` is made of.
encode_cons :
    (c : ℕ) (cs bs : List ℕ)
    → utf8_encode (c ∷ cs) ≡ some bs
    → (is_scalar c ≡ true)
      × (tail : List ℕ) × (utf8_encode cs ≡ some tail)
      × (bs ≡ encode_char c ++ tail)
unfolding utf8_encode
encode_cons c cs bs e = ground arith

decode_chars-nil :
    (bs : List ℕ) (fuel : ℕ) → utf8_encode [] ≡ some bs → decode_chars fuel bs ≡ some []
unfolding decode_chars utf8_encode
decode_chars-nil bs fuel e = ground arith

decode_chars-utf8_encode :
    (cs bs : List ℕ) (fuel : ℕ)
    → utf8_encode cs ≡ some bs
    → length bs ≤ fuel
    → decode_chars fuel bs ≡ some cs
decode_chars-utf8_encode [] bs fuel e h = decode_chars-nil bs fuel e
decode_chars-utf8_encode (c ∷ cs) bs zero e h =
    let (sc, tail, et, split) = encode_cons c cs bs e in
    absurd
      (omega (arith, ap length split, length-append (encode_char c) tail, length-encode_char c))
decode_chars-utf8_encode (c ∷ cs) bs (suc fuel) e h =
    let (sc, tail, et, split) = encode_cons c cs bs e in
    decode_chars_step fuel bs c tail cs (ap decode_char split ∙ decode-encode_char c tail sc) (
      decode_chars-utf8_encode cs tail fuel et
        (omega (arith, ap length split, length-append (encode_char c) tail, length-encode_char c)))

-- Strict UTF-8 decoding returns the text that was encoded.
pub utf8_decode-utf8_encode : (cs bs : List ℕ) → utf8_encode cs ≡ some bs → utf8_decode bs ≡ some cs
unfolding utf8_decode
utf8_decode-utf8_encode cs bs e = decode_chars-utf8_encode cs bs (length bs) e (omega arith)

utf8_encode-nil :
    (fuel : ℕ) (cs : List ℕ)
    → decode_chars fuel [] ≡ some cs
    → (utf8_encode cs ≡ some []) × (length cs ≤ 0)
unfolding utf8_encode decode_chars
utf8_encode-nil fuel cs e = ground arith

decode_chars_cons :
    (fuel b : ℕ) (bs cs : List ℕ)
    → decode_chars (suc fuel) (b ∷ bs) ≡ some cs
    → (c : ℕ) × (rest tail : List ℕ) × (decode_char (b ∷ bs) ≡ some (c, rest))
      × (decode_chars fuel rest ≡ some tail)
      × (cs ≡ c ∷ tail)
unfolding decode_chars
decode_chars_cons fuel b bs cs e = elim (Option-cases (decode_char (b ∷ bs))) [
  | inl bad ↦ absurd (ground arith)
  | inr ((c, rest), read) ↦ elim (Option-cases (decode_chars fuel rest)) [
    | inl bad ↦ absurd (ground arith)
    | inr (tail, more) ↦ (c, rest, tail, read, more, ground arith)
  ]
]

utf8_encode_step :
    (c : ℕ) (cs tail : List ℕ)
    → is_scalar c ≡ true
    → utf8_encode cs ≡ some tail
    → utf8_encode (c ∷ cs) ≡ some (encode_char c ++ tail)
unfolding utf8_encode
utf8_encode_step c cs tail h e = ground arith

utf8_encode-decode_chars :
    (fuel : ℕ) (bs cs : List ℕ)
    → decode_chars fuel bs ≡ some cs
    → (utf8_encode cs ≡ some bs) × (length cs ≤ length bs)
utf8_encode-decode_chars fuel [] cs e = utf8_encode-nil fuel cs e
utf8_encode-decode_chars zero (b ∷ bs) cs e = unfold decode_chars in cc
utf8_encode-decode_chars (suc fuel) (b ∷ bs) cs e =
    let (c, rest, tail, read, more, split) = decode_chars_cons fuel b bs cs e in
    let (again, len) = utf8_encode-decode_chars fuel rest tail more in
    let r = encode-decode_char (b ∷ bs) c rest read in
    (
      rw split (utf8_encode_step c tail rest r.scalar again ∙ ap some (sym r.split)),
      rw split (omega (arith, r.shorter)),
    )

-- Strict UTF-8 decoding accepts only what encoding writes.
pub utf8_encode-utf8_decode :
    (bs cs : List ℕ)
    → utf8_decode bs ≡ some cs
    → (utf8_encode cs ≡ some bs) × (length cs ≤ length bs)
unfolding utf8_decode
utf8_encode-utf8_decode bs cs = utf8_encode-decode_chars (length bs) bs cs
