-- ===== src/Connectivity/Ip.antt =====
-- What product/wp09/par_connectivity/policy.py uses of Python's `ipaddress`: addresses, networks and their
-- texts, read and written as that module does up to Python 3.12. Code points are numbers.
mod Tests
pub mod Text
use peer_application_runtime.Base.{
  ℕ, zero, suc, ◌+◌, ◌*◌, ◌/◌, ◌%◌, ◌^◌, ◌-◌, List, [], ◌∷◌, ◌++◌, Bool, true, false, not, ◌&&◌,
  ◌||◌, Option, none, some, leb, ltb, ◌==◌, if◌then◌else◌, length, drop, take, map,
}
use peer_application_runtime.Base.Text.{Str, decimal}
use Text.{split, join, hex, read_decimal, is_digits, read_hextets, has_char}

pub record Ip : Type 0 where
  pub is_v6 : Bool
  pub number : ℕ

pub record Network : Type 0 where
  pub in_v6 : Bool
  pub base : ℕ
  pub prefix : ℕ

abbrev pub width : Bool → ℕ
width true = 128
width false = 32

abbrev pub same_version : Bool → Bool → Bool
same_version true v = v
same_version false v = not v

-- `ip in network`, for two of one version: the base has no bits below the prefix.
unfoldable pub in_network : Ip → Network → Bool
in_network ip n =
    same_version ip.is_v6 n.in_v6
    && (leb n.base ip.number && ltb ip.number (n.base + 2 ^ (width n.in_v6 - n.prefix)))

unfoldable read_octet : Str → Option ℕ
read_octet s =
    if is_digits s && leb (length s) 3 && not (ltb 1 (length s) && has_char 48 (take 1 s))
    then elim (read_decimal s) [ none ↦ none | some n ↦ if leb n 255 then some n else none ]
    else none

octets : List (Option ℕ) → Option ℕ
octets (some a ∷ some b ∷ some c ∷ some d ∷ []) = some (((a * 256 + b) * 256 + c) * 256 + d)
octets _ = none

unfoldable pub read_v4 : Str → Option ℕ
unfolding read_octet octets
read_v4 s = octets (map read_octet (split 46 s))

-- `2 ^ 16`-digits, most significant first.
abbrev number_of : ℕ → List ℕ → ℕ
number_of acc [] = acc
number_of acc (h ∷ hs) = number_of (acc * 65536 + h) hs

abbrev zeros : ℕ → List ℕ
zeros zero = []
zeros (suc n) = 0 ∷ zeros n

-- The places of the empty parts, first and last part left out.
gaps : ℕ → List Str → List ℕ
gaps i [] = []
gaps i (p ∷ []) = []
gaps i ([] ∷ q ∷ ps) = i ∷ gaps (suc i) (q ∷ ps)
gaps i ((c ∷ p) ∷ q ∷ ps) = gaps (suc i) (q ∷ ps)

-- A side of `::` that is empty is one empty part.
abbrev side : List Str → List Str
side ([] ∷ []) = []
side ps = ps

abbrev both_sides : Option (List ℕ) → Option (List ℕ) → Option ℕ
both_sides (some hi) (some lo) =
    if leb (length hi + length lo) 7
    then some (number_of 0 (hi ++ zeros (8 - (length hi + length lo)) ++ lo))
    else none
both_sides _ _ = none

abbrev eight : Option (List ℕ) → Option ℕ
eight (some hs) = if length hs == 8 then some (number_of 0 hs) else none
eight none = none

abbrev read_parts : List Str → List ℕ → Option ℕ
read_parts ps [] = eight (read_hextets ps)
read_parts ps (i ∷ []) =
    both_sides (read_hextets (side (take i ps))) (read_hextets (side (drop (suc i) ps)))
read_parts ps _ = none

-- A last part with a dot is an IPv4 address, and stands for two parts.
expand_tail : List Str → Option (List Str)
unfolding read_v4 read_octet octets
expand_tail [] = some []
expand_tail (p ∷ []) =
    if has_char 46 p
    then elim (read_v4 p) [ none ↦ none | some n ↦ some (hex (n / 65536) ∷ hex (n % 65536) ∷ []) ]
    else some (p ∷ [])
expand_tail (p ∷ q ∷ ps) = elim (expand_tail (q ∷ ps)) [ none ↦ none | some rest ↦ some (p ∷ rest) ]

unfoldable pub read_v6 : Str → Option ℕ
unfolding expand_tail gaps
read_v6 s = if ltb (length (split 58 s)) 3 then none else elim (expand_tail (split 58 s)) [
  | none ↦ none
  | some parts ↦ if leb (length parts) 9 then read_parts parts (gaps 1 (drop 1 parts)) else none
]

abbrev address_of : Option ℕ → Option ℕ → Option Ip
address_of (some n) o = some (record { is_v6 = false; number = n })
address_of none (some n) = some (record { is_v6 = true; number = n })
address_of none none = none

-- `ipaddress.ip_address`.
unfoldable pub ip_address : Str → Option Ip
unfolding read_v4 read_v6
ip_address s = address_of (read_v4 s) (read_v6 s)

-- `ip.ipv4_mapped` in place of an address that has one.
unfoldable pub unmapped : Ip → Ip
unmapped ip =
    if ip.is_v6 && ip.number / 4294967296 == 65535
    then record { is_v6 = false; number = ip.number % 4294967296 }
    else ip

write_v4 : ℕ → Str
write_v4 n = join 46 (
    decimal (n / 16777216)
    ∷ decimal (n / 65536 % 256)
    ∷ decimal (n / 256 % 256)
    ∷ decimal (n % 256)
    ∷ [])

-- The `k` lowest `2 ^ 16`-digits, most significant first.
hextets : ℕ → ℕ → List ℕ
hextets zero n = []
hextets (suc k) n = let rest = hextets k (n / 65536) in rest ++ n % 65536 ∷ []

-- The first longest run of zeros: its start and its length.
record Run : Type 0 where
  start : ℕ
  size : ℕ

abbrev longer : Run → Run → Run
longer a b = if ltb a.size b.size then b else a

-- The run that ends before place `i`, the best so far, and the digits from there on.
zero_run : ℕ → Run → Run → List ℕ → Run
zero_run i now best [] = best
zero_run i now best (h ∷ hs) =
    let grown = record now { size = suc now.size } in
    let after_zero = zero_run (suc i) grown (longer best grown) hs in
    let after_digit = zero_run (suc i) (record { start = suc i; size = 0 }) best hs in
    if h == 0 then after_zero else after_digit

write_v6 : ℕ → Str
unfolding zero_run hextets
write_v6 n =
    let hs = hextets 8 n in
    let run = zero_run 0 (record { start = 0; size = 0 }) (record { start = 0; size = 0 }) hs in
    if ltb 1 run.size
    then join 58 (map hex (take run.start hs))
      ++ 58 ∷ 58 ∷ join 58 (map hex (drop (run.start + run.size) hs))
    else join 58 (map hex hs)

-- `str(ip)`.
unfoldable pub write_ip : Ip → Str
unfolding write_v4 write_v6
write_ip ip = if ip.is_v6 then write_v6 ip.number else write_v4 ip.number

-- The prefix a netmask or a host mask stands for, the longest prefix tried first.
netmask : ℕ → ℕ → Option ℕ
netmask zero mask = if mask == 0 then some 0 else none
netmask (suc p) mask =
    let rest = netmask p mask in if mask == 4294967296 - 2 ^ (31 - p) then some (suc p) else rest

hostmask : ℕ → ℕ → Option ℕ
hostmask zero mask = if mask == 4294967295 then some 0 else none
hostmask (suc p) mask =
    let rest = hostmask p mask in if mask == 2 ^ (31 - p) - 1 then some (suc p) else rest

abbrev or_else : Option ℕ → Option ℕ → Option ℕ
or_else none o = o
or_else (some n) o = some n

read_mask : Bool → Str → Option ℕ
unfolding read_v4 netmask hostmask
read_mask v6 s =
    if is_digits s
    then elim (read_decimal s) [ none ↦ none | some p ↦ if leb p (width v6) then some p else none ]
    else if v6
    then none
    else elim (read_v4 s) [ none ↦ none | some m ↦ or_else (netmask 32 m) (hostmask 32 m) ]

abbrev network_of : Bool → Option ℕ → Option ℕ → Option Network
network_of v6 (some base) (some p) =
    if base % 2 ^ (width v6 - p) == 0
    then some (record { in_v6 = v6; base = base; prefix = p })
    else none
network_of v6 _ _ = none

abbrev either : Option Network → Option Network → Option Network
either none o = o
either (some n) o = some n

from_pair : List Str → Option Network
unfolding read_v4 read_v6 read_mask
from_pair (a ∷ m ∷ []) =
    either (network_of false (read_v4 a) (read_mask false m))
      (network_of true (read_v6 a) (read_mask true m))
from_pair _ = none

-- `ipaddress.ip_network(text, strict=True)`, for a text with a slash.
unfoldable pub ip_network : Str → Option Network
unfolding from_pair
ip_network s = from_pair (split 47 s)

-- `str(network)`.
unfoldable pub write_network : Network → Str
write_network n = write_ip (record { is_v6 = n.in_v6; number = n.base }) ++ 47 ∷ decimal n.prefix
