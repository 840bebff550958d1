-- ===== src/Base/Bits.antt =====
-- Bytes: the masks on one byte as arithmetic, and big-endian numbers.
use mathlib.Core.List.{foldl, foldl-append}
use native.Mathlib.Nat.{pow-suc}
use peer_application_runtime.Base.Tests.{◌==◌, if◌then◌else◌}
use peer_application_runtime.Base.Lists.{
  length, length-append, All, All-append, All-join, split_last,
}
use Prim.Native.Nat.{ℕ, zero, suc, ◌+◌, ◌*◌, ◌/◌, ◌%◌, ◌^◌, ◌<◌, bit_and, bit_or}
use mathlib.Core.Path.{◌≡◌, refl, sym, ap, subst, ◌∙◌}
use mathlib.Core.Bool.{Bool, true, false}
use mathlib.Core.List.{List, [], ◌∷◌, ◌++◌}
use native.Mathlib.Omega.{arith}

abbrev pub IsByte : ℕ → Type 0
IsByte b = b < 256

-- Two functions compared at every number below a limit.
same_until : (f g : ℕ → ℕ) → ℕ → Bool
same_until f g zero = true
same_until f g (suc limit) = if f limit == g limit then same_until f g limit else false

same_at : (f g : ℕ → ℕ) (limit b : ℕ) → same_until f g limit ≡ true → b < limit → f b ≡ g b
unfolding same_until
same_at f g zero b e small = absurd (omega arith)
same_at f g (suc limit) b e small = ground (arith, same_at f g limit b)

abbrev bit_and_low : ℕ → ℕ
bit_and_low b = bit_and b 31

abbrev joined : ℕ → ℕ
joined b = bit_or (b / 32 * 32) (b % 32)

masks_agree : same_until bit_and_low (λ b. b % 32) 256 ≡ true
unfolding same_until
masks_agree = refl

joins_agree : same_until joined (λ b. b) 256 ≡ true
unfolding same_until
joins_agree = refl

pub low_bits : (b : ℕ) → b < 256 → bit_and b 31 ≡ b % 32
low_bits b small = same_at bit_and_low (λ c. c % 32) 256 b masks_agree small

join_bits : (b : ℕ) → b < 256 → bit_or (b / 32 * 32) (b % 32) ≡ b
join_bits b small = same_at joined (λ c. c) 256 b joins_agree small

-- `(major << 5) | low` for a major type below 8 and five low bits.
pub or_bits : (m a : ℕ) → m < 8 → a < 32 → bit_or (m * 32) a ≡ m * 32 + a
or_bits m a hm ha =
    let b : ℕ = m * 32 + a in
    let em : b / 32 ≡ m = omega arith in
    let ea : b % 32 ≡ a = omega arith in
    let e : bit_or (b / 32 * 32) (b % 32) ≡ b = join_bits b (omega arith) in
    ap (λ t. bit_or (t * 32) a) (sym em) ∙ ap (bit_or (b / 32 * 32)) (sym ea) ∙ e

-- `int.to_bytes(width, 'big')`, without its overflow error: the lowest `width` bytes.
unfoldable pub to_bytes : ℕ → ℕ → List ℕ
to_bytes zero n = []
to_bytes (suc w) n = to_bytes w (n / 256) ++ (n % 256) ∷ []

abbrev add_byte : ℕ → ℕ → ℕ
add_byte acc b = acc * 256 + b

-- `int.from_bytes(data, 'big')`.
unfoldable pub from_bytes : List ℕ → ℕ
from_bytes = foldl add_byte 0

pub length-to_bytes : (w n : ℕ) → length (to_bytes w n) ≡ w
unfolding to_bytes
length-to_bytes zero n = refl
length-to_bytes (suc w) n =
    omega
      (arith, length-append (to_bytes w (n / 256)) ((n % 256) ∷ []), length-to_bytes w (n / 256))

from_bytes_snoc : (bs : List ℕ) (b : ℕ) → from_bytes (bs ++ b ∷ []) ≡ from_bytes bs * 256 + b
unfolding from_bytes
from_bytes_snoc bs b = foldl-append add_byte 0 bs (b ∷ [])

pub from_bytes-to_bytes : (w n : ℕ) → n < 256 ^ w → from_bytes (to_bytes w n) ≡ n
unfolding to_bytes
from_bytes-to_bytes zero n h = unfold from_bytes in omega arith
from_bytes-to_bytes (suc w) n h =
    let small : n / 256 < 256 ^ w = omega (arith, pow-suc 256 w) in
    rw (from_bytes_snoc (to_bytes w (n / 256)) (n % 256))
      (rw (from_bytes-to_bytes w (n / 256) small) (omega arith))

pub to_bytes-from_bytes :
    (w : ℕ) (bs : List ℕ) → length bs ≡ w → All IsByte bs → to_bytes w (from_bytes bs) ≡ bs
unfolding to_bytes
to_bytes-from_bytes zero [] e h = refl
to_bytes-from_bytes zero (b ∷ bs) e h = absurd (omega arith)
to_bytes-from_bytes (suc w) [] e h = absurd (omega arith)
to_bytes-from_bytes (suc w) (b ∷ bs) e h =
    let (ys, y, split, len) = split_last b bs in
    let all : All IsByte (ys ++ y ∷ []) = subst (All IsByte) split h in
    let (hys, (hy, _)) = All-append IsByte ys (y ∷ []) all in
    let n : ℕ = from_bytes ys * 256 + y in
    let q : n / 256 ≡ from_bytes ys = omega arith in
    let r : n % 256 ≡ y = omega arith in
    rw (split, from_bytes_snoc ys y, q, r) (rw (to_bytes-from_bytes w ys (omega arith) hys) refl)

pub to_bytes-IsByte : (w n : ℕ) → All IsByte (to_bytes w n)
unfolding to_bytes
to_bytes-IsByte zero n = tt
to_bytes-IsByte (suc w) n =
    All-join IsByte (to_bytes w (n / 256)) ((n % 256) ∷ []) (to_bytes-IsByte w (n / 256))
      (omega arith, tt)

pub from_bytes-lt : (w : ℕ) (bs : List ℕ) → length bs ≡ w → All IsByte bs → from_bytes bs < 256 ^ w
from_bytes-lt zero [] e h = unfold from_bytes in omega arith
from_bytes-lt zero (b ∷ bs) e h = absurd (omega arith)
from_bytes-lt (suc w) [] e h = absurd (omega arith)
from_bytes-lt (suc w) (b ∷ bs) e h =
    let (ys, y, split, len) = split_last b bs in
    let all : All IsByte (ys ++ y ∷ []) = subst (All IsByte) split h in
    let (hys, (hy, _)) = All-append IsByte ys (y ∷ []) all in
    rw (split, from_bytes_snoc ys y)
      (omega (arith, from_bytes-lt w ys (omega arith) hys, pow-suc 256 w))
