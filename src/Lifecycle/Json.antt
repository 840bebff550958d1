-- ===== src/Lifecycle/Json.antt =====
-- `json.dumps(v, sort_keys=True, separators=(',', ':'), ensure_ascii=True)` of contracts.py, on the
-- values that the lifecycle writes.
use peer_application_runtime.Base.{
  ℕ, ◌+◌, ◌-◌, ◌/◌, ◌%◌, List, [], ◌∷◌, ◌++◌, Bool, true, false, ◌&&◌, ◌||◌, Option, none, some,
  ltb, leb, ◌==◌, if◌then◌else◌, length,
}
use peer_application_runtime.Base.Text.{Str, codes, str_lt, decimal}
use peer_application_runtime.Base.Fallible.{Fallible, done, demand, ◌>>◌}

-- `LifecycleError`, by its code.
pub data Code : Type 0 where
  schema capacity intent_alias reference_mismatch reference_cycle dangling_reference : Code
  model_only stale_controller generation_closed phase generation id_reuse : Code
  stale_plan blocked archive_mismatch not_found pin_required pin_mismatch : Code
  out_of_fuel fault : Code

abbrev pub Outcome : Type 0 → Type 0
Outcome A = Fallible Code A

mutual
  pub data Json : Type 0 where
    null : Json
    bool : Bool → Json
    number : ℕ → Json
    string : Str → Json
    array : Items → Json
    object : Members → Json

  pub data Items : Type 0 where
    nil : Items
    item : Json → Items → Items

  pub data Members : Type 0 where
    end : Members
    member : Str → Json → Members → Members

unfoldable pub hex_digit : ℕ → ℕ
hex_digit n = if ltb n 10 then 48 + n else 87 + n

-- `\uXXXX`.
unfoldable pub escape_unit : ℕ → Str
escape_unit n =
    92
    ∷ 117
    ∷ hex_digit (n / 4096)
    ∷ hex_digit (n / 256 % 16)
    ∷ hex_digit (n / 16 % 16)
    ∷ hex_digit (n % 16)
    ∷ []

-- One code point; above 0xFFFF it is a surrogate pair.
unfoldable pub escape : ℕ → Str
escape c =
    if c == 34 || c == 92
    then 92 ∷ c ∷ []
    else if c == 10
    then 92 ∷ 110 ∷ []
    else if c == 13
    then 92 ∷ 114 ∷ []
    else if c == 9
    then 92 ∷ 116 ∷ []
    else if c == 8
    then 92 ∷ 98 ∷ []
    else if c == 12
    then 92 ∷ 102 ∷ []
    else if ltb c 32 || (ltb 126 c && ltb c 65536)
    then escape_unit c
    else if ltb c 127
    then c ∷ []
    else escape_unit (0xd800 + (c - 0x10000) / 1024) ++ escape_unit (0xdc00 + (c - 0x10000) % 1024)

unfoldable pub escape_all : Str → Str
escape_all [] = []
escape_all (c ∷ s) = escape c ++ escape_all s

unfoldable pub quoted : Str → Str
quoted s = 34 ∷ escape_all s ++ 34 ∷ []

-- An object is written in the order of its keys, which `object_of` puts its members in.
unfoldable pub put_member : Str → Json → Members → Members
put_member k v end = member k v end
put_member k v (member j w ms) =
    if str_lt k j then member k v (member j w ms) else member j w (put_member k v ms)

unfoldable pub members_of : List (Str × Json) → Members
members_of [] = end
members_of ((k, v) ∷ kvs) = put_member k v (members_of kvs)

unfoldable pub object_of : List (Str × Json) → Json
object_of kvs = object (members_of kvs)

unfoldable pub array_of : List Json → Json
array_of vs = array (items_of vs)
  where
    items_of : List Json → Items
    items_of [] = nil
    items_of (v ∷ vs) = item v (items_of vs)

unfoldable pub optional : Option Str → Json
optional none = null
optional (some s) = string s

-- Each item and member but the first has a comma before it.
abbrev pub comma : Bool → Str
comma true = []
comma false = 44 ∷ []

unfoldable mutual
  pub dumps : Json → Str
  dumps null = codes "null"
  dumps (bool true) = codes "true"
  dumps (bool false) = codes "false"
  dumps (number n) = decimal n
  dumps (string s) = quoted s
  dumps (array vs) = 91 ∷ dump_items true vs
  dumps (object ms) = 123 ∷ dump_members true ms

  pub dump_items : Bool → Items → Str
  dump_items first nil = 93 ∷ []
  dump_items first (item v vs) = comma first ++ dumps v ++ dump_items false vs

  pub dump_members : Bool → Members → Str
  dump_members first end = 125 ∷ []
  dump_members first (member k v ms) =
      comma first ++ quoted k ++ 58 ∷ dumps v ++ dump_members false ms

abbrev pub max_bytes : ℕ
max_bytes = 2097152

-- `canonical`.
unfoldable pub canonical : Json → Outcome Str
canonical v = do demand (leb (length (dumps v)) max_bytes) capacity; done (dumps v)
