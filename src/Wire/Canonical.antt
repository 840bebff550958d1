-- ===== src/Wire/Canonical.antt =====
-- The canonical form that codec.py promises, with no budget and no state: which objects have one,
-- and its bytes, its count of nodes and its depth.
pub mod Encoding
pub mod Reading
pub mod Parsing
pub mod Majors
use Prim.Native.Nat.{max}
use peer_application_runtime.Base.{
  ℕ, suc, ◌+◌, ◌≤◌, ◌<◌, List, [], ◌∷◌, ◌++◌, ◌≡◌, Bool, true, false, Option, none, some, length,
  length-append, append_assoc, append-nil, ap, ◌∙◌, refl, ◌*◌, arith, leb,
}
use peer_application_runtime.Wire.Value.{
  Key, nat, negative_key, other_key, Value, null, bool, uint, negative, bytes, text, array, dict,
  forbidden, Values, nil, cons, Fields, end, field, len_values, len_fields,
}
use peer_application_runtime.Wire.Utf8.{utf8_encode}
use peer_application_runtime.Wire.Head.{u64_max}
use peer_application_runtime.Wire.Head.RoundTrip.{first, more}

unfoldable pub utf8_bytes : List ℕ → List ℕ
utf8_bytes t = elim (utf8_encode t) [ none ↦ [] | some u ↦ u ]

abbrev pub with_head : ℕ → ℕ → List ℕ → List ℕ
with_head major n body = first major n ∷ (more n ++ body)

pub length-with_head :
    (major n : ℕ) (body : List ℕ)
    → length (with_head major n body) ≡ length (with_head major n []) + length body
length-with_head major n body =
    omega (arith, length-append (more n) body, length-append (more n) [])

pub with_head_append :
    (major n : ℕ) (out body : List ℕ)
    → (out ++ with_head major n []) ++ body ≡ out ++ with_head major n body
with_head_append major n out body = rw (append_assoc, append-nil) refl

unfoldable mutual
  pub code : Value → List ℕ
  code null = 0xf6 ∷ []
  code (bool true) = 0xf5 ∷ []
  code (bool false) = 0xf4 ∷ []
  code (uint n) = with_head 0 n []
  code (negative n) = []
  code (bytes b) = with_head 2 (length b) b
  code (text t) = with_head 3 (length (utf8_bytes t)) (utf8_bytes t)
  code (array vs) = with_head 4 (len_values vs) (code_values vs)
  code (dict fs) = with_head 5 (len_fields fs) (code_fields fs)
  code forbidden = []

  pub code_values : Values → List ℕ
  code_values nil = []
  code_values (cons v vs) = code v ++ code_values vs

  pub code_fields : Fields → List ℕ
  code_fields end = []
  code_fields (field (nat k) v fs) = with_head 0 k [] ++ (code v ++ code_fields fs)
  code_fields (field _ v fs) = []

-- How many items are counted: one for each object, and one for each key.
unfoldable mutual
  pub weight : Value → ℕ
  weight (array vs) = suc (weight_values vs)
  weight (dict fs) = suc (weight_fields fs)
  weight _ = 1

  pub weight_values : Values → ℕ
  weight_values nil = 0
  weight_values (cons v vs) = weight v + weight_values vs

  pub weight_fields : Fields → ℕ
  weight_fields end = 0
  weight_fields (field k v fs) = 1 + weight v + weight_fields fs

-- The levels of nesting, one for an object with no children.
unfoldable mutual
  pub levels : Value → ℕ
  levels (array vs) = suc (levels_values vs)
  levels (dict fs) = suc (levels_fields fs)
  levels _ = 1

  pub levels_values : Values → ℕ
  levels_values nil = 0
  levels_values (cons v vs) = max (levels v) (levels_values vs)

  pub levels_fields : Fields → ℕ
  levels_fields end = 0
  levels_fields (field k v fs) = max (levels v) (levels_fields fs)

-- `k` follows the key before it, if there is one.
abbrev pub Follows : Option ℕ → ℕ → Type 0
Follows none k = Unit
Follows (some j) k = j < k

unfoldable mutual
  pub IsCanonical : Value → Type 0
  IsCanonical null = Unit
  IsCanonical (bool b) = Unit
  IsCanonical (uint n) = n ≤ u64_max
  IsCanonical (negative n) = ⊥
  IsCanonical (bytes b) = length b ≤ u64_max
  IsCanonical (text t) = (utf8_encode t ≡ some (utf8_bytes t)) × (length (utf8_bytes t) ≤ u64_max)
  IsCanonical (array vs) = (len_values vs ≤ u64_max) × AllCanonical vs
  IsCanonical (dict fs) = (len_fields fs ≤ u64_max) × IsAscending none fs
  IsCanonical forbidden = ⊥

  pub AllCanonical : Values → Type 0
  AllCanonical nil = Unit
  AllCanonical (cons v vs) = IsCanonical v × AllCanonical vs

  pub IsAscending : Option ℕ → Fields → Type 0
  IsAscending j end = Unit
  IsAscending j (field (nat k) v fs) =
      Follows j k × (k ≤ u64_max) × IsCanonical v × IsAscending (some k) fs
  IsAscending j (field _ v fs) = ⊥

pub positive : (v : Value) → IsCanonical v → (1 ≤ weight v) × (1 ≤ levels v) × (1 ≤ length (code v))
unfolding weight levels code IsCanonical
positive null h = omega arith
positive (bool true) h = omega arith
positive (bool false) h = omega arith
positive (negative n) h = absurd h
positive forbidden h = absurd h
positive (uint n) h = omega arith
positive (bytes b) h = omega arith
positive (text t) h = omega arith
positive (array vs) h = omega arith
positive (dict fs) h = omega arith

pub len_values_bounds :
    (vs : Values)
    → AllCanonical vs
    → (len_values vs ≤ weight_values vs) × (len_values vs ≤ length (code_values vs))
unfolding weight code IsCanonical
len_values_bounds nil h = omega arith
len_values_bounds (cons v vs) h =
    omega (arith, positive v h.0, len_values_bounds vs h.1, length-append (code v) (code_values vs))

pub len_fields_bounds :
    (j : Option ℕ) (fs : Fields)
    → IsAscending j fs
    → (len_fields fs * 2 ≤ weight_fields fs) × (len_fields fs * 2 ≤ length (code_fields fs))
unfolding weight code IsCanonical
len_fields_bounds j end h = omega arith
len_fields_bounds j (field (nat k) v fs) h = omega (
  arith,
  positive v h.2,
  len_fields_bounds (some k) fs h.3,
  length-append (code v) (code_fields fs),
  length-append (more k ++ []) (code v ++ code_fields fs),
)
len_fields_bounds j (field (negative_key n) v fs) h = absurd h
len_fields_bounds j (field other_key v fs) h = absurd h
