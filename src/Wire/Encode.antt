-- ===== src/Wire/Encode.antt =====
-- `encode` of experiments/g0-wire/par_wire/codec.py, over the objects of Wire/Value.
--
-- The source recurs with a growing `depth` and raises DEPTH above MAX_DEPTH; here the recursion is
-- on the levels that are left, MAX_DEPTH + 1 at the start, and DEPTH is raised when none is left.
use peer_application_runtime.Base.{
  ℕ, Option, zero, suc, ◌+◌, List, [], ◌∷◌, ◌++◌, Bool, true, false, none, some, ltb, leb,
  if◌then◌else◌, length,
}
use peer_application_runtime.Wire.Error.{
  Result, ok, raised, ◌>>=◌, ◌>>◌, refuse, limit, depth, resource_limit, forbidden_type, utf8,
  map_key,
}
use peer_application_runtime.Wire.Value.{
  Key, nat, negative_key, other_key, Value, null, bool, uint, negative, bytes, text, array, dict,
  forbidden, Values, nil, cons, Fields, end, field, len_values, len_fields,
}
use peer_application_runtime.Wire.Utf8.{utf8_encode}
use peer_application_runtime.Wire.Head.{head, u64_max}

abbrev pub max_depth : ℕ
max_depth = 32

abbrev pub default_max_bytes : ℕ
default_max_bytes = 1048576

abbrev pub default_max_nodes : ℕ
default_max_nodes = 100000

-- `out` and `nodes` of the running call.
pub record Output : Type 0 where
  pub out : List ℕ
  pub nodes : ℕ

-- `any(type(k) is not int or not 0 <= k <= U64 for k in v)`.
unfoldable pub bad_key : Fields → Bool
bad_key end = false
bad_key (field (nat k) v fs) = if ltb u64_max k then true else bad_key fs
bad_key (field _ v fs) = true

-- `sorted(v)` with each key's value: the items by ascending key. Keys that are no nat have raised
-- MAP_KEY before the items are sorted.
unfoldable pub insert : Key → Value → Fields → Fields
insert k v end = field k v end
insert (nat k) v (field (nat j) w fs) =
    if leb k j then field (nat k) v (field (nat j) w fs) else field (nat j) w (insert (nat k) v fs)
insert k v fs = field k v fs

unfoldable pub sorted : Fields → Fields
unfolding insert
sorted end = end
sorted (field k v fs) = insert k v (sorted fs)

module _ (max_bytes max_nodes : ℕ) where
  unfoldable pub put : List ℕ → Output → Result Output
  put b s = do
    refuse (ltb max_bytes (length s.out + length b)) limit
    ok (record s { out = s.out ++ b })

  -- `put(_head(major, n))`.
  unfoldable pub put_head : ℕ → ℕ → Output → Result Output
  put_head major n s = do hd ← head major n; put hd s

  -- The encoded text, unless `v.encode` has raised.
  abbrev pub put_utf8 : Option (List ℕ) → Output → Result Output
  put_utf8 none s = raised utf8
  put_utf8 (some raw) s = do s' ← put_head 3 (length raw) s; put raw s'

  unfoldable pub put_text : List ℕ → Output → Result Output
  put_text v s = do refuse (ltb max_bytes (length v)) limit; put_utf8 (utf8_encode v) s

  -- The children of a list, and the keys and values of a map, each by `item` one level down.
  unfoldable pub put_items : (Value → Output → Result Output) → Values → Output → Result Output
  put_items item nil s = ok s
  put_items item (cons v vs) s = do s' ← item v s; put_items item vs s'

  abbrev pub key_value : Key → Value
  key_value (nat k) = uint k
  key_value (negative_key n) = negative n
  key_value other_key = forbidden

  unfoldable pub put_fields : (Value → Output → Result Output) → Fields → Output → Result Output
  put_fields item end s = ok s
  put_fields item (field k v fs) s = do
    s' ← item (key_value k) s
    s'' ← item v s'
    put_fields item fs s''

  -- What `item` does with one object once it has been counted.
  unfoldable pub put_value : (Value → Output → Result Output) → Value → Output → Result Output
  put_value item null s = put (0xf6 ∷ []) s
  put_value item (bool true) s = put (0xf5 ∷ []) s
  put_value item (bool false) s = put (0xf4 ∷ []) s
  put_value item (uint n) s = put_head 0 n s
  put_value item (negative n) s = raised forbidden_type
  put_value item (bytes v) s = do s' ← put_head 2 (length v) s; put v s'
  put_value item (text v) s = put_text v s
  put_value item (array vs) s = do
    refuse (ltb max_nodes (len_values vs)) resource_limit
    s' ← put_head 4 (len_values vs) s
    put_items item vs s'
  put_value item (dict fs) s = do
    refuse (ltb max_nodes (len_fields fs)) resource_limit
    refuse (bad_key fs) map_key
    s' ← put_head 5 (len_fields fs) s
    put_fields item (sorted fs) s'
  put_value item forbidden s = raised forbidden_type

  unfoldable pub put_item : ℕ → Value → Output → Result Output
  put_item zero v s = raised depth
  put_item (suc levels) v s = do
    refuse (ltb max_nodes (s.nodes + 1)) resource_limit
    put_value (put_item levels) v (record s { nodes = s.nodes + 1 })

  -- The budgets are in range: the ValueError for others is not modelled.
  unfoldable pub encode : Value → Result (List ℕ)
  encode v = do s ← put_item (suc max_depth) v (record { out = []; nodes = 0 }); ok s.out
