-- ===== src/Wire/Frame/Tests.antt =====
-- Concrete frames, under a small grammar.
use Prim.Native.String.{String}
use peer_application_runtime.Base.{
  ℕ, [], ◌∷◌, Bool, true, false, Option, none, some, ◌==◌, if◌then◌else◌, ◌≡◌, refl,
}
use peer_application_runtime.Wire.Error.{ok, raised, page_state, message_type}
use peer_application_runtime.Wire.Value.{
  nat, null, bool, uint, array, dict, nil, cons, Fields, end, field,
}
use peer_application_runtime.Wire.Schema.{
  ref, array_of, map_of, no_member, member, Rules, find_rule, find_member, has_int_key, all_known,
  all_there, is_uint, each_of, each_field, check_array, check_map, check_rule, check_node,
  validate_at, validate,
}
use peer_application_runtime.Wire.Paging.{entry}
use peer_application_runtime.Wire.Frame.{
  odd_key, get, is_app_id, is_label, is_tail, split_dot, are_labels, page_rule, overlay,
  validate_frame,
}

-- have-frame = {1: uint, 4: {1: null, 2: [*9 uint], 3: bool}}
abbrev rules : Rules
rules =
    (
      "have-frame",
      map_of (
          member 1 false (ref "uint") (
            member 4 false
              (map_of (
                member 1 false (ref "null") (
                  member 2 false (array_of 0 9 (ref "uint"))
                    (member 3 false (ref "bool") no_member))))
              no_member)),
    )
    ∷ []

abbrev frame_rule : ℕ → Option String
frame_rule code = if code == 20 then some "have-frame" else none

abbrev body : Bool → Fields
body done =
    field (nat 1) null (field (nat 2) (array (cons (uint 5) nil)) (field (nat 3) (bool done) end))

abbrev frame : ℕ → Bool → Fields
frame code done = field (nat 1) (uint code) (field (nat 4) (dict (body done)) end)

accepted : validate_frame rules frame_rule (dict (frame 20 true)) ≡ ok tt
unfolding validate_frame validate validate_at check_node check_map check_array all_known all_there
    find_member has_int_key each_field each_of check_rule find_rule is_uint odd_key get entry
    overlay page_rule
accepted = refl

-- A page without a next cursor that does not call itself the last.
unmarked : validate_frame rules frame_rule (dict (frame 20 false)) ≡ raised page_state
unfolding validate_frame validate validate_at check_node check_map check_array all_known all_there
    find_member has_int_key each_field each_of check_rule find_rule is_uint odd_key get entry
    overlay page_rule
unmarked = refl

unknown : validate_frame rules frame_rule (dict (frame 21 true)) ≡ raised message_type
unfolding validate_frame odd_key get
unknown = refl

-- 'a.b-c' and 'a.b-'.
two_labels : is_app_id (97 ∷ 46 ∷ 98 ∷ 45 ∷ 99 ∷ []) ≡ true
unfolding is_app_id are_labels is_label is_tail split_dot
two_labels = refl

hyphen : is_app_id (97 ∷ 46 ∷ 98 ∷ 45 ∷ []) ≡ false
unfolding is_app_id are_labels is_label is_tail split_dot
hyphen = refl
