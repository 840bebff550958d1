-- ===== src/Wire/Paging/Tests.antt =====
-- Concrete runs of the walk, and its theorems at concrete inputs. Every page counts as valid.
use peer_application_runtime.Base.{
  ℕ, List, [], ◌∷◌, ◌++◌, true, false, Option, none, some, ◌≡◌, refl,
}
use peer_application_runtime.Base.Bits.{to_bytes}
use peer_application_runtime.Base.Bytes.{Bytes, bytes_eq, contains, distinct}
use peer_application_runtime.Wire.Error.{Result, ok}
use peer_application_runtime.Wire.Value.{
  Value, bool, uint, nat, null, bytes, array, dict, cons, nil, end, field,
}
use peer_application_runtime.Wire.Head.{head}
use peer_application_runtime.Wire.Encode.{
  insert, sorted, bad_key, put, put_head, put_items, put_fields, put_value, put_item, encode,
}
use peer_application_runtime.Wire.Paging.{
  Walk, invalidated, peer_snapshot_complete, start, entry, as_rows, any_held, set_item, set_items,
  take_page, check_scope, check_cursor, check_budget, check_ids, check_page, settle, append_page,
  append_at, append, append_all,
}
use peer_application_runtime.Wire.Paging.Walking.{
  IsWalk, start-IsWalk, append_all-IsWalk, AllAccepted, rows_of_all, append_all-items,
}

abbrev anything : Value → Result (Unit {0})
anything v = ok tt

abbrev row : ℕ → Value
row n = dict (field (nat 0) (bytes (n ∷ [])) end)

-- One page of a list: kind, Space 9, token 8, next cursor, row, whether it is the last.
abbrev page : ℕ → Value → ℕ → Value → Value
page kind next id done = dict (
    field (nat 1) (uint kind) (
      field (nat 3) (bytes (9 ∷ [])) (
        field (nat 4)
          (dict (
            field (nat 0) (bytes (8 ∷ [])) (
              field (nat 1) next
                (field (nat 2) (array (cons (row id) nil)) (field (nat 3) done end)))))
          end)))

abbrev walk : Walk
walk = start (9 ∷ []) (8 ∷ []) 10 3 1000

abbrev both : List (Value × Option Bytes)
both =
    (page 20 (bytes (5 ∷ [])) 1 (bool false), none)
    ∷ (page 20 null 2 (bool true), some (5 ∷ []))
    ∷ []

finishes : (append_all anything both walk).state ≡ peer_snapshot_complete
unfolding start append_all append append_at settle append_page check_page check_scope check_cursor
    check_budget check_ids take_page entry as_rows any_held set_items set_item bytes_eq contains
    distinct encode put_item put_value put_fields put_items put_head put head insert sorted bad_key
    to_bytes
finishes = refl

-- A frame of another kind invalidates the walk.
other_kind : (append anything (page 13 null 1 (bool true)) none walk).0.state ≡ invalidated
unfolding start append append_at settle append_page check_page check_scope entry
other_kind = refl

accepted : AllAccepted anything both walk
unfolding AllAccepted start append_all append append_at settle append_page check_page check_scope
    check_cursor check_budget check_ids take_page entry as_rows any_held set_items set_item bytes_eq
    contains distinct encode put_item put_value put_fields put_items put_head put head insert sorted
    bad_key to_bytes
accepted = (refl, (refl, tt))

append_all-items_example :
    (rows : List (Bytes × Value)) × (rows_of_all anything both ≡ ok rows)
    × ((append_all anything both walk).items ≡ walk.items ++ rows)
append_all-items_example = append_all-items anything both walk accepted

append_all-IsWalk_example : IsWalk (append_all anything both walk)
append_all-IsWalk_example =
    append_all-IsWalk anything both walk (start-IsWalk (9 ∷ []) (8 ∷ []) 10 3 1000)
