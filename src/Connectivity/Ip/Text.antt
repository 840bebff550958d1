-- ===== src/Connectivity/Ip/Text.antt =====
-- The string operations the address texts and the endpoint texts need: `split`, `join`, digits and characters.
use peer_application_runtime.Base.{
  ℕ, zero, suc, ◌+◌, ◌*◌, ◌/◌, ◌%◌, ◌-◌, List, [], ◌∷◌, ◌++◌, Bool, true, false, ◌&&◌, ◌||◌, Option,
  none, some, leb, ltb, ◌==◌, if◌then◌else◌, length, not,
}
use peer_application_runtime.Base.Text.{Str}

abbrev first_part : ℕ → List Str → List Str
first_part c [] = (c ∷ []) ∷ []
first_part c (p ∷ ps) = (c ∷ p) ∷ ps

-- `s.split(sep)`.
unfoldable pub split : ℕ → Str → List Str
split sep [] = [] ∷ []
split sep (c ∷ s) = let rest = split sep s in if c == sep then [] ∷ rest else first_part c rest

-- `sep.join(parts)`.
unfoldable pub join : ℕ → List Str → Str
join sep [] = []
join sep (p ∷ []) = p
join sep (p ∷ q ∷ ps) = p ++ sep ∷ join sep (q ∷ ps)

unfoldable pub has_char : ℕ → Str → Bool
has_char c [] = false
has_char c (d ∷ s) = c == d || has_char c s

unfoldable pub every : (ℕ → Bool) → Str → Bool
every test [] = true
every test (c ∷ s) = test c && every test s

unfoldable pub some_char : (ℕ → Bool) → Str → Bool
some_char test [] = false
some_char test (c ∷ s) = test c || some_char test s

abbrev pub between : ℕ → ℕ → ℕ → Bool
between low high c = leb low c && leb c high

abbrev pub is_digit : ℕ → Bool
is_digit = between 48 57

abbrev pub is_lower : ℕ → Bool
is_lower = between 97 122

abbrev pub is_upper : ℕ → Bool
is_upper = between 65 90

abbrev pub is_hex_digit : ℕ → Bool
is_hex_digit c = is_digit c || between 97 102 c || between 65 70 c

-- `[0-9]+`.
unfoldable pub is_digits : Str → Bool
unfolding every
is_digits s = not (length s == 0) && every is_digit s

abbrev decimal_from : ℕ → Str → ℕ
decimal_from acc [] = acc
decimal_from acc (c ∷ s) = decimal_from (acc * 10 + (c - 48)) s

unfoldable pub read_decimal : Str → Option ℕ
unfolding is_digits
read_decimal s = if is_digits s then some (decimal_from 0 s) else none

abbrev hex_value : ℕ → ℕ
hex_value c = if leb c 57 then c - 48 else if leb c 70 then c - 55 else c - 87

abbrev hex_from : ℕ → Str → ℕ
hex_from acc [] = acc
hex_from acc (c ∷ s) = hex_from (acc * 16 + hex_value c) s

read_hextet : Str → Option ℕ
unfolding every
read_hextet s =
    if leb 1 (length s) && leb (length s) 4 && every is_hex_digit s
    then some (hex_from 0 s)
    else none

abbrev add_part : Option ℕ → Option (List ℕ) → Option (List ℕ)
add_part (some h) (some hs) = some (h ∷ hs)
add_part _ _ = none

unfoldable pub read_hextets : List Str → Option (List ℕ)
unfolding read_hextet
read_hextets [] = some []
read_hextets (p ∷ ps) = add_part (read_hextet p) (read_hextets ps)

abbrev hex_digit : ℕ → ℕ
hex_digit d = if ltb d 10 then 48 + d else 87 + d

hex_digits : ℕ → ℕ → Str
hex_digits zero n = []
hex_digits (suc fuel) n =
    let rest = hex_digits fuel (n / 16) in
    if ltb n 16 then hex_digit n ∷ [] else rest ++ hex_digit (n % 16) ∷ []

-- `'%x' % n`, for a number below `2 ^ 16`.
unfoldable pub hex : ℕ → Str
unfolding hex_digits
hex n = hex_digits 4 n
