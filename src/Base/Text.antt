-- ===== src/Base/Text.antt =====
-- Python strings as their code points: literals, order, prefixes and decimal numbers.
use Prim.Native.String.{String}
use Prim.Native.Nat.{ℕ, zero, suc, ◌+◌, ◌/◌, ◌%◌}
use Prim.Native.Char.{code}
use mathlib.Core.Path.{◌≡◌, refl}
use mathlib.Core.Bool.{Bool, true, false, ◌&&◌, ◌||◌}
use mathlib.Core.List.{List, [], ◌∷◌, ◌++◌}
use native.Mathlib.Omega.{arith}
use peer_application_runtime.Base.Tests.{ltb, leb, ◌==◌, if◌then◌else◌}
use peer_application_runtime.Base.Lists.{length}

abbrev pub Str : Type 0
Str = List ℕ

abbrev pub codes : String → Str
codes String.[] = []
codes (String.◌∷◌ c s) = code c ∷ codes s

-- `a < b` for two strings.
unfoldable pub str_lt : Str → Str → Bool
str_lt a [] = false
str_lt [] (c ∷ b) = true
str_lt (d ∷ a) (c ∷ b) = ltb d c || (d == c && str_lt a b)

unfoldable pub starts_with : Str → Str → Bool
starts_with [] s = true
starts_with (c ∷ p) [] = false
starts_with (c ∷ p) (d ∷ s) = c == d && starts_with p s

-- `[a-f0-9]`.
abbrev pub is_hex : ℕ → Bool
is_hex c = (leb 48 c && leb c 57) || (leb 97 c && leb c 102)

unfoldable pub all_hex : Str → Bool
all_hex [] = true
all_hex (c ∷ s) = is_hex c && all_hex s

-- `[a-f0-9]{64}`, the whole of it.
unfoldable pub is_hex64 : Str → Bool
is_hex64 s = length s == 64 && all_hex s

-- The decimal digits of a number, on fuel; every round drops a digit.
unfoldable pub digits : ℕ → ℕ → Str
digits zero n = []
digits (suc fuel) n =
    let rest = digits fuel (n / 10) in
    if ltb n 10 then (48 + n) ∷ [] else rest ++ (48 + n % 10) ∷ []

unfoldable pub decimal : ℕ → Str
unfolding digits
decimal n = digits (suc n) n

-- No string is below itself.
pub str_lt_irrefl : (s : Str) → str_lt s s ≡ false
unfolding str_lt
str_lt_irrefl [] = refl
str_lt_irrefl (c ∷ s) = ground (arith, str_lt_irrefl s)
