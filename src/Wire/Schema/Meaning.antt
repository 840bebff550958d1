-- ===== src/Wire/Schema/Meaning.antt =====
-- What the answers of the CDDL interpreter mean.
use Prim.Native.String.{String}
use peer_application_runtime.Base.{
  ℕ, zero, suc, ◌≤◌, Bool, Option, none, some, ◌≡◌, ◌≢◌, refl, ap, ◌⊎◌, inl, inr, Bool-cases, sym,
  ◌∙◌, arith,
}
use peer_application_runtime.Wire.Error.{Result, ok, raised, ◌>>◌, resource_limit}
use peer_application_runtime.Wire.Value.{
  nat, negative_key, other_key, Value, array, dict, Values, nil, cons, Fields, end, field,
}
use peer_application_runtime.Wire.Schema.{
  Node, ref, literal, range, size, union, array_of, map_of, Nodes, no_node, node, Members, Rules,
  find_rule, find_member, Check, any_of, each_of, each_field, check_at, check_array, check_map,
  check_rule, check_named, check_node, validate_at, or_else, is_schema, primitive,
}

-- The second answer is the first, unless the first says that the levels ran out.
abbrev Settled : Result (Unit {0}) → Result (Unit {0}) → Type 0
Settled r s = (r ≡ raised resource_limit) ⊎ (r ≡ s)

Agree : Check → Check → Type 0
Agree c c' = (d : Node) (v : Value) → Settled (c d v) (c' d v)

then-Settled :
    (r s r' s' : Result (Unit {0})) → Settled r s → Settled r' s' → Settled (r >> r') (s >> s')
then-Settled r s r' s' (inl e) q = inl (ap (λ x. x >> r') e)
then-Settled (ok u) s r' s' (inr e) (inl f) = inl f
then-Settled (ok u) s r' s' (inr e) (inr f) = inr (f ∙ ap (λ x. x >> s') e)
then-Settled (raised c) s r' s' (inr e) q = inr (ap (λ x. x >> s') e)

or_else-Settled :
    (r s r' s' : Result (Unit {0}))
    → Settled r s
    → Settled r' s'
    → Settled (or_else r r') (or_else s s')
or_else-Settled r s r' s' (inl e) q = inl (ap (λ x. or_else x r') e)
or_else-Settled (ok u) s r' s' (inr e) q = inr (ap (λ x. or_else x s') e)
or_else-Settled (raised c) s r' s' (inr e) (inl f) = elim (Bool-cases (is_schema c)) [
  | inl yes_schema ↦ inl (rw yes_schema f)
  | inr other ↦ inr (rw other (rw other refl ∙ ap (λ x. or_else x s') e))
]
or_else-Settled (raised c) s r' s' (inr e) (inr f) =
    inr (ap (or_else (raised c)) f ∙ ap (λ x. or_else x s') e)

module _ (c c' : Check) (agree : Agree c c') where
  any_of-Settled : (ds : Nodes) (v : Value) → Settled (any_of c ds v) (any_of c' ds v)
  unfolding any_of Agree
  any_of-Settled no_node v = inr refl
  any_of-Settled (node d ds) v =
      or_else-Settled (c d v) (c' d v) (any_of c ds v) (any_of c' ds v) (agree d v)
        (any_of-Settled ds v)

  each_of-Settled : (d : Node) (vs : Values) → Settled (each_of c d vs) (each_of c' d vs)
  unfolding each_of Agree
  each_of-Settled d nil = inr refl
  each_of-Settled d (cons v vs) =
      then-Settled (c d v) (c' d v) (each_of c d vs) (each_of c' d vs) (agree d v)
        (each_of-Settled d vs)

  check_at-Settled : (o : Option Node) (v : Value) → Settled (check_at c o v) (check_at c' o v)
  unfolding Agree
  check_at-Settled none v = inr refl
  check_at-Settled (some d) v = agree d v

  each_field-Settled :
      (ms : Members) (fs : Fields) → Settled (each_field c ms fs) (each_field c' ms fs)
  unfolding each_field
  each_field-Settled ms end = inr refl
  each_field-Settled ms (field (nat k) v fs) =
      then-Settled (check_at c (find_member k ms) v) (check_at c' (find_member k ms) v)
        (each_field c ms fs) (each_field c' ms fs) (check_at-Settled (find_member k ms) v)
        (each_field-Settled ms fs)
  each_field-Settled ms (field (negative_key n) v fs) = inr refl
  each_field-Settled ms (field other_key v fs) = inr refl

  check_rule-Settled :
      (rules : Rules) (name : String) (o : Option Node) (v : Value)
      → Settled (check_rule rules c name o v) (check_rule rules c' name o v)
  unfolding check_rule Agree
  check_rule-Settled rules name none v = inr refl
  check_rule-Settled rules name (some d) v =
      then-Settled _ _ (c d v) (c' d v) (inr refl) (agree d v)

  check_named-Settled :
      (rules : Rules) (name : String) (o : Option Bool) (v : Value)
      → Settled (check_named rules c name o v) (check_named rules c' name o v)
  check_named-Settled rules name none v = check_rule-Settled rules name (find_rule name rules) v
  check_named-Settled rules name (some b) v = inr refl

  check_array-Settled :
      (lo hi : ℕ) (d : Node) (v : Value)
      → Settled (check_array c lo hi d v) (check_array c' lo hi d v)
  unfolding check_array
  check_array-Settled lo hi d (array vs) =
      then-Settled _ _ (each_of c d vs) (each_of c' d vs) (inr refl) (each_of-Settled d vs)
  check_array-Settled lo hi d _ = inr refl

  check_map-Settled : (ms : Members) (v : Value) → Settled (check_map c ms v) (check_map c' ms v)
  unfolding check_map
  check_map-Settled ms (dict fs) =
      then-Settled _ _ (each_field c ms fs) (each_field c' ms fs) (inr refl)
        (each_field-Settled ms fs)
  check_map-Settled ms _ = inr refl

  check_node-Agree : (rules : Rules) → Agree (check_node rules c) (check_node rules c')
  unfolding check_node Agree
  check_node-Agree rules (ref name) v = check_named-Settled rules name (primitive name v) v
  check_node-Agree rules (literal n) v = inr refl
  check_node-Agree rules (range lo hi) v = inr refl
  check_node-Agree rules (size d lo hi) v = then-Settled (c d v) (c' d v) _ _ (agree d v) (inr refl)
  check_node-Agree rules (union ds) v = any_of-Settled ds v
  check_node-Agree rules (array_of lo hi d) v = check_array-Settled lo hi d v
  check_node-Agree rules (map_of ms) v = check_map-Settled ms v

validate_at-Agree :
    (rules : Rules) (levels more : ℕ)
    → levels ≤ more
    → Agree (validate_at rules levels) (validate_at rules more)
unfolding validate_at Agree
validate_at-Agree rules zero more h d v = inl refl
validate_at-Agree rules (suc levels) zero h d v = absurd (omega arith)
validate_at-Agree rules (suc levels) (suc more) h d v =
    check_node-Agree (validate_at rules levels) (validate_at rules more)
      (validate_at-Agree rules levels more (omega arith)) rules d v

-- An answer of the interpreter other than RESOURCE_LIMIT does not depend on the level limit: with
-- at least as many levels, every rule set gives the same answer for the same node and value.
pub validate_at_stable :
    (rules : Rules) (levels more : ℕ) (d : Node) (v : Value)
    → levels ≤ more
    → validate_at rules levels d v ≢ raised resource_limit
    → validate_at rules more d v ≡ validate_at rules levels d v
unfolding Agree
validate_at_stable rules levels more d v h settled =
    elim (validate_at-Agree rules levels more h d v) [ inl e ↦ absurd (settled e) | inr e ↦ sym e ]
