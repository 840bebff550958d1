-- ===== src/Wire/Schema.antt =====
-- experiments/g0-wire/par_wire/schema.py: the CDDL interpreter `Schema.validate`, over rules that
-- `parse_cddl` has read. The source recurs with a growing depth up to 128; here the recursion is
-- on the levels that are left.
pub mod Meaning
mod Tests
use Prim.Native.String.{String}
use package.text.Mathlib.Text.{◌==◌ as str_eq}
use peer_application_runtime.Base.{
  ℕ, zero, suc, List, [], ◌∷◌, Bool, true, false, not, ◌&&◌, ◌||◌, Option, none, some, ltb, leb,
  ◌==◌, if◌then◌else◌, length,
}
use peer_application_runtime.Wire.Error.{
  Result, ok, raised, ◌>>=◌, ◌>>◌, refuse, Code, schema, resource_limit, cddl_reference, identifier,
}
use peer_application_runtime.Wire.Value.{
  Key, nat, negative_key, other_key, Value, null, bool, uint, negative, bytes, text, array, dict,
  forbidden, Values, nil, cons, Fields, end, field, len_values, len_fields,
}
use peer_application_runtime.Wire.Utf8.{utf8_encode}
use peer_application_runtime.Wire.Head.{u64_max}

-- The node tuples that `parse_cddl` builds; a map field is (number, optional, node).
mutual
  pub data Node : Type 0 where
    ref : String → Node
    literal : ℕ → Node
    range : ℕ → ℕ → Node
    size : Node → ℕ → ℕ → Node
    union : Nodes → Node
    array_of : ℕ → ℕ → Node → Node
    map_of : Members → Node

  pub data Nodes : Type 0 where
    no_node : Nodes
    node : Node → Nodes → Nodes

  pub data Members : Type 0 where
    no_member : Members
    member : ℕ → Bool → Node → Members → Members

abbrev pub Rules : Type 0
Rules = List (String × Node)

unfoldable pub find_rule : String → Rules → Option Node
find_rule name [] = none
find_rule name ((n, d) ∷ rules) = if str_eq n name then some d else find_rule name rules

-- `fields[k][1]` for the dict built from the list, in which a later entry for a number wins.
unfoldable pub find_member : ℕ → Members → Option Node
find_member k no_member = none
find_member k (member n optional d ms) = elim (find_member k ms) [
  | some later ↦ some later
  | none ↦ if n == k then some d else none
]

unfoldable pub has_int_key : ℕ → Fields → Bool
has_int_key k end = false
has_int_key k (field (nat j) v fs) = if j == k then true else has_int_key k fs
has_int_key k (field _ v fs) = has_int_key k fs

-- Every key is an int that the map lists. (A negative int is never listed.)
unfoldable pub all_known : Members → Fields → Bool
all_known ms end = true
all_known ms (field (nat k) v fs) = elim (find_member k ms) [
  | none ↦ false
  | some d ↦ all_known ms fs
]
all_known ms (field _ v fs) = false

-- Every entry that is not optional is there.
unfoldable pub all_there : Members → Fields → Bool
all_there no_member fs = true
all_there (member n optional d ms) fs = (optional || has_int_key n fs) && all_there ms fs

unfoldable pub is_uint : Value → Bool
is_uint (uint n) = leb n u64_max
is_uint _ = false

abbrev pub is_bytes : Value → Bool
is_bytes (bytes b) = true
is_bytes _ = false

abbrev pub is_text : Value → Bool
is_text (text t) = true
is_text _ = false

abbrev pub is_bool : Value → Bool
is_bool (bool b) = true
is_bool _ = false

abbrev pub is_null : Value → Bool
is_null null = true
is_null _ = false

unfoldable pub in_range : ℕ → ℕ → Value → Bool
in_range lo hi (uint n) = leb lo n && leb n hi
in_range lo hi _ = false

-- `len(value)`, of the UTF-8 form for a text; `none` where Python raises.
unfoldable pub size_of : Value → Option ℕ
size_of (text t) = elim (utf8_encode t) [ none ↦ none | some u ↦ some (length u) ]
size_of (bytes b) = some (length b)
size_of (array vs) = some (len_values vs)
size_of (dict fs) = some (len_fields fs)
size_of _ = none

abbrev pub in_size : ℕ → ℕ → Option ℕ → Bool
in_size lo hi none = false
in_size lo hi (some n) = leb lo n && leb n hi

unfoldable pub has_nul : Value → Bool
has_nul (text []) = false
has_nul (text (c ∷ cs)) = if c == 0 then true else has_nul (text cs)
has_nul _ = false

-- `if not valid: raise WireError('SCHEMA', path)`.
abbrev pub demand : Bool → Result (Unit {0})
demand valid = refuse (not valid) schema

abbrev pub Check : Type 0
Check = Node → Value → Result (Unit {0})

-- The alternatives in turn: only SCHEMA goes on to the next.
abbrev pub is_schema : Code → Bool
is_schema schema = true
is_schema _ = false

abbrev pub or_else : Result (Unit {0}) → Result (Unit {0}) → Result (Unit {0})
or_else (ok u) next = ok u
or_else (raised c) next = if is_schema c then next else raised c

unfoldable pub any_of : Check → Nodes → Value → Result (Unit {0})
any_of check no_node v = raised schema
any_of check (node d ds) v = or_else (check d v) (any_of check ds v)

unfoldable pub each_of : Check → Node → Values → Result (Unit {0})
each_of check d nil = ok tt
each_of check d (cons v vs) = do check d v; each_of check d vs

-- The value behind each key against its own node.
abbrev pub check_at : Check → Option Node → Value → Result (Unit {0})
check_at check none v = raised schema
check_at check (some d) v = check d v

unfoldable pub each_field : Check → Members → Fields → Result (Unit {0})
each_field check ms end = ok tt
each_field check ms (field (nat k) v fs) = do
  check_at check (find_member k ms) v
  each_field check ms fs
each_field check ms (field _ v fs) = raised schema

unfoldable pub check_array : Check → ℕ → ℕ → Node → Value → Result (Unit {0})
check_array check lo hi d (array vs) = do
  demand (leb lo (len_values vs) && leb (len_values vs) hi)
  each_of check d vs
check_array check lo hi d _ = raised schema

unfoldable pub check_map : Check → Members → Value → Result (Unit {0})
check_map check ms (dict fs) = do
  demand (all_known ms fs && all_there ms fs)
  each_field check ms fs
check_map check ms _ = raised schema

abbrev pub primitive : String → Value → Option Bool
primitive name v =
    if str_eq name "uint"
    then some (is_uint v)
    else if str_eq name "bstr"
    then some (is_bytes v)
    else if str_eq name "tstr"
    then some (is_text v)
    else if str_eq name "bool"
    then some (is_bool v)
    else if str_eq name "null"
    then some (is_null v)
    else none

module _ (rules : Rules) where
  -- A rule of the file, by its name.
  unfoldable pub check_rule : Check → String → Option Node → Value → Result (Unit {0})
  check_rule check name none v = raised cddl_reference
  check_rule check name (some d) v = do
    refuse (str_eq name "app-id" && has_nul v) identifier
    check d v

  abbrev pub check_named : Check → String → Option Bool → Value → Result (Unit {0})
  check_named check name (some valid) v = demand valid
  check_named check name none v = check_rule check name (find_rule name rules) v

  unfoldable pub check_node : Check → Check
  check_node check (ref name) v = check_named check name (primitive name v) v
  check_node check (literal n) v = demand (in_range n n v)
  check_node check (range lo hi) v = demand (in_range lo hi v)
  check_node check (size d lo hi) v = do check d v; demand (in_size lo hi (size_of v))
  check_node check (union ds) v = any_of check ds v
  check_node check (array_of lo hi d) v = check_array check lo hi d v
  check_node check (map_of ms) v = check_map check ms v

  unfoldable pub validate_at : ℕ → Check
  validate_at zero d v = raised resource_limit
  validate_at (suc levels) d v = check_node (validate_at levels) d v

  -- `depth > 128` raises, so 129 levels may be entered.
  unfoldable pub validate : String → Value → Result (Unit {0})
  validate rule v = elim (find_rule rule rules) [
    | none ↦ raised cddl_reference
    | some d ↦ validate_at 129 d v
  ]
