-- ===== src/Wire/Head/RoundTrip.antt =====
-- A head is read back by `argument`, and a head that `argument` accepts is the one `_head` writes.
use peer_application_runtime.Base.{
  ℕ, ◌+◌, ◌*◌, ◌^◌, ◌≤◌, ◌<◌, List, [], ◌∷◌, ◌++◌, ◌≡◌, refl, subst, ◌∙◌, arith, false, ltb,
  if◌then◌else◌, length, length-append, length-take, take-append, drop-append, take-append-drop,
  All, All-append, inl, inr,
}
use peer_application_runtime.Base.Bits.{
  IsByte, to_bytes, low_bits, or_bits, length-to_bytes, from_bytes-to_bytes, to_bytes-from_bytes,
  from_bytes-lt,
}
use peer_application_runtime.Wire.Error.{Result-cases, ok}
use peer_application_runtime.Wire.Head.{
  u64_max, head, take_bytes, wide_argument, argument, low_of, major_of,
}

-- The five low bits and the bytes behind them, for a number below 2 ^ 64.
unfoldable pub low : ℕ → ℕ
low v =
    if ltb v 24
    then v
    else if ltb v 256
    then 24
    else if ltb v 65536
    then 25
    else if ltb v 4294967296
    then 26
    else 27

unfoldable pub more : ℕ → List ℕ
more v =
    if ltb v 24
    then []
    else if ltb v 256
    then to_bytes 1 v
    else if ltb v 65536
    then to_bytes 2 v
    else if ltb v 4294967296
    then to_bytes 4 v
    else to_bytes 8 v

abbrev pub first : ℕ → ℕ → ℕ
first major v = major * 32 + low v

pub low-lt : (v : ℕ) → low v < 28
unfolding low
low-lt v = ground arith

pub head-code : (m v : ℕ) → m < 8 → v ≤ u64_max → head m v ≡ ok (first m v ∷ more v)
unfolding head low more
head-code m v hm h =
    ground (arith, or_bits m v, or_bits m 24, or_bits m 25, or_bits m 26, or_bits m 27)

pub head_bound : (m v : ℕ) (bs : List ℕ) → head m v ≡ ok bs → v ≤ u64_max
unfolding head
head_bound m v bs e = ground arith

pub first_parts : (m v : ℕ) → m < 8 → (major_of (first m v) ≡ m) × (low_of (first m v) ≡ low v)
first_parts m v h =
    let b = low-lt v in (omega arith, low_bits (first m v) (omega arith) ∙ omega arith)

pub take_bytes-append :
    (xs rest : List ℕ) (n : ℕ) → length xs ≡ n → take_bytes n (xs ++ rest) ≡ ok (xs, rest)
unfolding take_bytes
take_bytes-append xs rest n e =
    let enough : ltb (length (xs ++ rest)) (length xs) ≡ false =
      ground (arith, length-append xs rest) in
    rw (← e) (rw (enough, take-append, drop-append) refl)

pub take_bytes_ok :
    (n : ℕ) (input raw rest : List ℕ)
    → take_bytes n input ≡ ok (raw, rest)
    → (input ≡ raw ++ rest) × (length raw ≡ n)
unfolding take_bytes
take_bytes_ok n input raw rest e = ground (arith, take-append-drop n input, length-take n input)

wide_argument-to_bytes :
    (width minimum value : ℕ) (rest : List ℕ)
    → minimum ≤ value
    → value < 256 ^ width
    → wide_argument width minimum (to_bytes width value ++ rest) ≡ ok (value, rest)
unfolding wide_argument
wide_argument-to_bytes width minimum value rest lo hi = ground (
  arith,
  take_bytes-append (to_bytes width value) rest width (length-to_bytes width value),
  from_bytes-to_bytes width value,
)

wide_argument_ok :
    (width minimum v : ℕ) (input rest : List ℕ)
    → All IsByte input
    → wide_argument width minimum input ≡ ok (v, rest)
    → (minimum ≤ v) × (v < 256 ^ width) × (input ≡ to_bytes width v ++ rest)
unfolding wide_argument
wide_argument_ok width minimum v input rest h e = elim (Result-cases (take_bytes width input)) [
  | inr (c, bad) ↦ absurd (ground arith)
  | inl ((raw, tail), took) ↦
      let (split, len) = take_bytes_ok width input raw tail took in
      let (bytes, _) = All-append IsByte raw tail (subst (All IsByte) split h) in
      ground (arith, from_bytes-lt width raw len bytes, to_bytes-from_bytes width raw len bytes)
]

pub argument-more :
    (v : ℕ) (rest : List ℕ) → v ≤ u64_max → argument (low v) (more v ++ rest) ≡ ok (v, rest)
unfolding argument low more
argument-more v rest h = ground (
  arith,
  wide_argument-to_bytes 1 24 v rest,
  wide_argument-to_bytes 2 256 v rest,
  wide_argument-to_bytes 4 65536 v rest,
  wide_argument-to_bytes 8 4294967296 v rest,
)

pub argument_ok :
    (ai v : ℕ) (input rest : List ℕ)
    → All IsByte input
    → argument ai input ≡ ok (v, rest)
    → (ai ≡ low v) × (input ≡ more v ++ rest) × (v ≤ u64_max)
unfolding argument low more
argument_ok ai v input rest h e = ground (
  arith,
  wide_argument_ok 1 24 v input rest h,
  wide_argument_ok 2 256 v input rest h,
  wide_argument_ok 4 65536 v input rest h,
  wide_argument_ok 8 4294967296 v input rest h,
)
