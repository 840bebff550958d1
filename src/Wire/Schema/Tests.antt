-- ===== src/Wire/Schema/Tests.antt =====
-- Concrete runs of the CDDL interpreter, and its theorem at a concrete input.
use peer_application_runtime.Base.{[], ◌∷◌, true, false, ◌≡◌, ◌≢◌, refl, sym, ◌∙◌, arith}
use peer_application_runtime.Wire.Error.{Code, Result, ok, raised, schema, resource_limit}
use peer_application_runtime.Wire.Value.{nat, Value, uint, dict, null, end, field}
use peer_application_runtime.Wire.Schema.{
  Node, ref, union, map_of, no_node, node, no_member, member, Rules, find_rule, find_member,
  has_int_key, all_known, all_there, is_uint, any_of, each_field, check_map, check_rule, check_node,
  validate_at, validate,
}
use peer_application_runtime.Wire.Schema.Meaning.{validate_at_stable}

-- r = {1: uint, ? 2: r / null}
abbrev shape : Node
shape = map_of (
    member 1 false (ref "uint")
      (member 2 true (union (node (ref "r") (node (ref "null") no_node))) no_member))

abbrev rules : Rules
rules = ("r", shape) ∷ []

abbrev nested : Value
nested = dict (
    field (nat 1) (uint 5)
      (field (nat 2) (dict (field (nat 2) null (field (nat 1) (uint 6) end))) end))

accepted : validate_at rules 8 shape nested ≡ ok tt
unfolding validate_at check_node check_map all_known all_there find_member has_int_key each_field
    any_of check_rule find_rule is_uint
accepted = refl

missing : validate rules "r" (dict end) ≡ raised schema
unfolding validate validate_at check_node check_map all_known all_there find_rule has_int_key
missing = refl

abbrev done : Result (Unit {0})
done = ok tt

ok-not-raised : (c : Code) → done ≢ raised c
ok-not-raised c e = ground arith

validate_at_stable_example : validate_at rules 129 shape nested ≡ validate_at rules 8 shape nested
validate_at_stable_example =
    validate_at_stable rules 8 129 shape nested (omega arith)
      (λ e. ok-not-raised resource_limit (sym accepted ∙ e))
