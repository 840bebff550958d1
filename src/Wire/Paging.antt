-- ===== src/Wire/Paging.antt =====
-- `InventoryWalk` of experiments/g0-wire/par_wire/paging.py: the pages of one snapshot, gathered
-- until the last one.
--
-- `validate` is `validate_frame` of schema.py. A page that lacks an entry which the code reads, or
-- has one of another type, raises an error of Python (`fault`) that the `except` clause lets pass;
-- the frame grammar excludes such pages.
pub mod Items
pub mod Taken
pub mod Walking
mod Tests
use peer_application_runtime.Base.{
  ℕ, ◌+◌, List, [], ◌∷◌, map, Bool, true, false, not, ◌||◌, Option, none, some, ltb, ◌==◌,
  if◌then◌else◌, length,
}
use peer_application_runtime.Base.Bytes.{Bytes, bytes_eq, contains, distinct}
use peer_application_runtime.Wire.Error.{
  Result, ok, raised, ◌>>=◌, ◌>>◌, refuse, Code, closed, message_type, space_binding,
  snapshot_changed, cursor, cursor_replay, resource_limit, duplicate_item, fault,
}
use peer_application_runtime.Wire.Value.{
  nat, Value, null, bool, uint, bytes, array, dict, len_values, Values, nil, cons, Fields, end,
  field,
}
use peer_application_runtime.Wire.Encode.{encode, default_max_bytes, default_max_nodes}

-- `self._state`.
pub data Coverage : Type 0 where
  incomplete peer_snapshot_complete invalidated : Coverage

pub record Walk : Type 0 where
  pub space : Bytes
  pub token : Bytes
  pub max_items : ℕ
  pub max_pages : ℕ
  pub max_bytes : ℕ
  pub bytes : ℕ
  pub cursor : Option Bytes
  pub seen_cursors : List Bytes
  pub items : List (Bytes × Value)
  pub pages : ℕ
  pub state : Coverage

unfoldable pub start : Bytes → Bytes → ℕ → ℕ → ℕ → Walk
start space token max_items max_pages max_bytes = record {
  space = space;
  token = token;
  max_items = max_items;
  max_pages = max_pages;
  max_bytes = max_bytes;
  bytes = 0;
  cursor = none;
  seen_cursors = [];
  items = [];
  pages = 0;
  state = incomplete;
}

-- `d[k]` for an int `k`.
unfoldable pub entry : ℕ → Fields → Result Value
entry k end = raised fault
entry k (field (nat j) v fs) = if j == k then ok v else entry k fs
entry k (field _ v fs) = entry k fs

abbrev pub as_dict : Value → Result Fields
as_dict (dict fs) = ok fs
as_dict _ = raised fault

abbrev pub as_uint : Value → Result ℕ
as_uint (uint n) = ok n
as_uint _ = raised fault

abbrev pub as_bytes : Value → Result Bytes
as_bytes (bytes b) = ok b
as_bytes _ = raised fault

abbrev pub as_bool : Value → Result Bool
as_bool (bool b) = ok b
as_bool _ = raised fault

abbrev pub as_cursor : Value → Result (Option Bytes)
as_cursor null = ok none
as_cursor (bytes b) = ok (some b)
as_cursor _ = raised fault

-- The rows of a page, each with its id, `row[0]`.
unfoldable pub as_rows : Values → Result (List (Bytes × Value))
as_rows nil = ok []
as_rows (cons row rows) = do
  fs ← as_dict row
  v ← entry 0 fs
  id ← as_bytes v
  rest ← as_rows rows
  ok ((id, row) ∷ rest)

abbrev pub as_list : Value → Result Values
as_list (array vs) = ok vs
as_list _ = raised fault

abbrev pub same_cursor : Option Bytes → Option Bytes → Bool
same_cursor none none = true
same_cursor (some a) (some b) = bytes_eq a b
same_cursor _ _ = false

-- `next_cursor is not None and next_cursor in self._seen_cursors`.
abbrev pub is_seen : Option Bytes → List Bytes → Bool
is_seen none seen = false
is_seen (some c) seen = contains c seen

abbrev pub add_cursor : Option Bytes → List Bytes → List Bytes
add_cursor none seen = seen
add_cursor (some c) seen = c ∷ seen

abbrev pub ids : List (Bytes × Value) → List Bytes
ids rows = map (λ r. r.0) rows

-- `self._items.keys() & set(new_ids)` is not empty.
unfoldable pub any_held : List Bytes → List Bytes → Bool
any_held held [] = false
any_held held (b ∷ bs) = contains b held || any_held held bs

-- `self._items[id] = row`: in place for an id that is there.
unfoldable pub set_item : Bytes → Value → List (Bytes × Value) → List (Bytes × Value)
set_item id row [] = (id, row) ∷ []
set_item id row ((j, v) ∷ items) =
    if bytes_eq j id then (j, row) ∷ items else (j, v) ∷ set_item id row items

unfoldable pub set_items : List (Bytes × Value) → List (Bytes × Value) → List (Bytes × Value)
set_items [] items = items
set_items ((id, row) ∷ rows) items = set_items rows (set_item id row items)

-- The assignments behind the checks.
unfoldable pub take_page : List (Bytes × Value) → Option Bytes → Bool → ℕ → Walk → Walk
take_page rows next done page_size w = record w {
  items = set_items rows w.items;
  pages = w.pages + 1;
  bytes = w.bytes + page_size;
  cursor = next;
  seen_cursors = add_cursor next w.seen_cursors;
  state = if done then peer_snapshot_complete else w.state;
}

-- The checks of the message type and the Space; the result is the body, `b`.
unfoldable pub check_scope : Value → Walk → Result Fields
check_scope page w = do
  fs ← as_dict page
  kind_value ← entry 1 fs
  kind ← as_uint kind_value
  refuse (not (kind == 20)) message_type
  space_value ← entry 3 fs
  space ← as_bytes space_value
  refuse (not (bytes_eq space w.space)) space_binding
  body ← entry 4 fs
  as_dict body

-- The checks of the token and the cursors; the result is the next cursor.
unfoldable pub check_cursor : Fields → Option Bytes → Walk → Result (Option Bytes)
check_cursor body requested w = do
  token_value ← entry 0 body
  token ← as_bytes token_value
  refuse (not (bytes_eq token w.token)) snapshot_changed
  refuse (not (same_cursor requested w.cursor)) cursor
  next_value ← entry 1 body
  next ← as_cursor next_value
  refuse (is_seen next w.seen_cursors) cursor_replay
  ok next

-- The checks of the budgets; the result is `page_size`.
unfoldable pub check_budget : Value → Values → Walk → Result ℕ
check_budget page vs w = do
  refuse (ltb w.max_pages (w.pages + 1) || ltb w.max_items (length w.items + len_values vs))
      resource_limit
  encoded ← encode default_max_bytes default_max_nodes page
  refuse (ltb w.max_bytes (w.bytes + (4 + length encoded))) resource_limit
  ok (4 + length encoded)

unfoldable pub check_ids : Values → Walk → Result (List (Bytes × Value))
check_ids vs w = do
  rows ← as_rows vs
  refuse (not (distinct (ids rows)) || any_held (ids w.items) (ids rows)) duplicate_item
  ok rows

unfoldable pub check_page : Value → Option Bytes → Walk → Result Walk
check_page page requested w = do
  body ← check_scope page w
  next ← check_cursor body requested w
  rows_value ← entry 2 body
  vs ← as_list rows_value
  page_size ← check_budget page vs w
  rows ← check_ids vs w
  done_value ← entry 3 body
  done ← as_bool done_value
  ok (take_page rows next done page_size w)

-- `except WireError`: every code but `fault`.
abbrev pub is_wire_error : Code → Bool
is_wire_error fault = false
is_wire_error _ = true

unfoldable pub settle : Walk → Result Walk → Walk × Result (Unit {0})
settle w (ok w') = (w', ok tt)
settle w (raised c) =
    if is_wire_error c
    then (record w { items = []; state = invalidated }, raised c)
    else (w, raised c)

module _ (validate : Value → Result (Unit {0})) where
  unfoldable pub append_page : Value → Option Bytes → Walk → Result Walk
  append_page page requested w = do validate page; check_page page requested w

  unfoldable pub append_at : Coverage → Value → Option Bytes → Walk → Walk × Result (Unit {0})
  append_at incomplete page requested w = settle w (append_page page requested w)
  append_at _ page requested w = (w, raised closed)

  unfoldable pub append : Value → Option Bytes → Walk → Walk × Result (Unit {0})
  append page requested w = append_at w.state page requested w

  -- Pages in turn, each with the cursor that was requested.
  unfoldable pub append_all : List (Value × Option Bytes) → Walk → Walk
  append_all [] w = w
  append_all ((page, requested) ∷ pages) w = append_all pages (append page requested w).0
