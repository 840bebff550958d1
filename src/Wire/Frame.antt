-- ===== src/Wire/Frame.antt =====
-- `validate_frame` of experiments/g0-wire/par_wire/schema.py: the grammar of a frame, then the
-- rules that the grammar cannot state.
--
-- `rules` is what `parse_cddl` reads from par-v1.cddl. `frame_rule` is registry.json: the rule of
-- a message code, its `body_type` with `-body` replaced by `-frame`. What the rules read of a
-- frame is there, and has the type that the code uses, if the grammar says so; else an error of
-- Python (`fault`) is raised.
mod Tests
use Prim.Native.String.{String}
use peer_application_runtime.Base.{
  ℕ, zero, suc, ◌≤◌, List, [], ◌∷◌, Bool, true, false, not, ◌&&◌, ◌||◌, Option, none, some, ltb,
  leb, ◌==◌, if◌then◌else◌, length, split_last,
}
use peer_application_runtime.Base.Bytes.{bytes_eq}
use peer_application_runtime.Wire.Error.{
  Result, ok, raised, ◌>>=◌, ◌>>◌, refuse, schema, message_type, identifier, negotiation,
  space_binding, page_state, fault,
}
use peer_application_runtime.Wire.Value.{
  Key, nat, negative_key, other_key, Value, null, bool, uint, negative, bytes, text, array, dict,
  forbidden, Values, nil, cons, Fields, end, field,
}
use peer_application_runtime.Wire.Schema.{Rules, validate}
use peer_application_runtime.Wire.Paging.{entry, as_dict, as_bytes, as_bool}
use peer_application_runtime.Wire.Session.{Str, as_text, as_values}

-- `any(type(k) is not int for k in value)`.
unfoldable pub odd_key : Fields → Bool
odd_key end = false
odd_key (field other_key v fs) = true
odd_key (field _ v fs) = odd_key fs

-- `value.get(k)`.
unfoldable pub get : ℕ → Fields → Option Value
get k end = none
get k (field (nat j) v fs) = if j == k then some v else get k fs
get k (field _ v fs) = get k fs

-- The int `code`; no message has a negative one.
abbrev pub code_of : Option Value → Result ℕ
code_of (some (uint n)) = ok n
code_of (some (negative n)) = raised message_type
code_of _ = raised schema

-- `[A-Za-z0-9]`.
abbrev pub is_alnum : ℕ → Bool
is_alnum c = (leb 48 c && leb c 57) || (leb 65 c && leb c 90) || (leb 97 c && leb c 122)

-- The rest of a label behind its first character: `[A-Za-z0-9-]` throughout, and the last one is
-- no hyphen.
unfoldable pub is_tail : ℕ → Str → Bool
is_tail previous [] = is_alnum previous
is_tail previous (c ∷ cs) = (is_alnum c || c == 45) && is_tail c cs

unfoldable pub is_label : Str → Bool
is_label [] = false
is_label (c ∷ cs) = is_alnum c && leb (length cs) 62 && is_tail c cs

-- The text up to its first full stop, and what is behind it.
unfoldable pub split_dot : Str → Str × Option Str
split_dot [] = ([], none)
split_dot (c ∷ cs) = if c == 46 then ([], some cs) else (c ∷ (split_dot cs).0, (split_dot cs).1)

-- Labels with full stops between them, on fuel for the number of labels.
unfoldable pub are_labels : ℕ → Str → Bool
are_labels zero t = false
are_labels (suc fuel) t = elim (split_dot t).1 [
  | none ↦ is_label (split_dot t).0
  | some u ↦ is_label (split_dot t).0 && are_labels fuel u
]

-- At least two labels.
unfoldable pub is_app_id : Str → Bool
is_app_id t = elim (split_dot t).1 [
  | none ↦ false
  | some u ↦ is_label (split_dot t).0 && are_labels (suc (length u)) u
]

-- Equality of two texts or two uints.
abbrev pub same_value : Value → Value → Bool
same_value (text a) (text b) = bytes_eq a b
same_value (uint m) (uint n) = m == n
same_value _ _ = false

unfoldable pub holds : Value → Values → Bool
holds v nil = false
holds v (cons w ws) = same_value w v || holds v ws

-- `len(x) != len(set(x))`.
unfoldable pub repeats : Values → Bool
repeats nil = false
repeats (cons v vs) = holds v vs || repeats vs

unfoldable pub has_zero : Str → Bool
has_zero [] = false
has_zero (c ∷ cs) = c == 0 || has_zero cs

-- `not x or '\0' in x`, for some `x` of the list.
unfoldable pub any_bad : Values → Bool
any_bad nil = false
any_bad (cons (text []) vs) = true
any_bad (cons (text (c ∷ cs)) vs) = has_zero (c ∷ cs) || any_bad vs
any_bad (cons _ vs) = any_bad vs

abbrev pub is_null : Value → Bool
is_null null = true
is_null _ = false

abbrev pub is_nil : Values → Bool
is_nil nil = true
is_nil (cons v vs) = false

unfoldable pub hello_rules : Fields → Result (Unit {0})
hello_rules b = do
  app_value ← entry 0 b
  app ← as_text app_value
  refuse (not (is_app_id app)) identifier
  wires_value ← entry 3 b
  wires ← as_values wires_value
  suites_value ← entry 4 b
  suites ← as_values suites_value
  refuse (repeats wires || repeats suites || any_bad wires) negotiation

unfoldable pub space_rule : Fields → Fields → Result (Unit {0})
space_rule fs b = do
  outer_value ← entry 3 fs
  outer ← as_bytes outer_value
  inner_value ← entry 0 b
  inner ← as_bytes inner_value
  refuse (not (bytes_eq outer inner)) space_binding

-- `v == b` of Python for a bool `b`: True is 1 and False is 0.
abbrev pub equals_bool : Value → Bool → Bool
equals_bool (bool true) b = b
equals_bool (bool false) b = not b
equals_bool (uint n) b = if b then n == 1 else n == 0
equals_bool _ b = false

-- `bool(v)` of Python. An object of another type, of which no grammar lets a page have one, is true unless it
-- says otherwise.
abbrev pub truthy : Value → Bool
truthy null = false
truthy (bool b) = b
truthy (uint n) = not (n == 0)
truthy (negative n) = true
truthy (bytes bs) = not (length bs == 0)
truthy (text t) = not (length t == 0)
truthy (array vs) = not (is_nil vs)
truthy (dict end) = false
truthy (dict (field k v fs)) = true
truthy forbidden = true

abbrev pub unless : Bool → Result (Unit {0}) → Result (Unit {0})
unless true rest = ok tt
unless false rest = rest

-- The entries `items`, `cursor` and `done` of a page.
unfoldable pub page_rule : ℕ → ℕ → ℕ → Fields → Result (Unit {0})
page_rule items cursor done b = do
  is_done ← entry done b
  next ← entry cursor b
  refuse (not (equals_bool is_done (is_null next))) page_state
  unless (truthy is_done) (do rows ← entry items b; refuse (not (truthy rows)) page_state)

unfoldable pub nul_rule : ℕ → Fields → Result (Unit {0})
nul_rule k b = do v ← entry k b; t ← as_text v; refuse (has_zero t) identifier

abbrev pub on_dict : Value → (Fields → Result (Unit {0})) → Result (Unit {0})
on_dict body rule = do b ← as_dict body; rule b

-- The `if code …` lines, whose codes exclude each other.
unfoldable pub overlay : ℕ → Fields → Value → Result (Unit {0})
overlay code fs body =
    if code == 1
    then on_dict body hello_rules
    else if code == 10
    then on_dict body (space_rule fs)
    else if code == 13
    then on_dict body (page_rule 1 2 3)
    else if code == 20
    then on_dict body (page_rule 2 1 3)
    else if code == 41
    then on_dict body (page_rule 2 3 4)
    else if code == 60
    then on_dict body (nul_rule 2)
    else if code == 255
    then on_dict body (nul_rule 1)
    else ok tt

module _ (rules : Rules) (frame_rule : ℕ → Option String) where
  abbrev pub by_grammar : Option String → Value → Result (Unit {0})
  by_grammar none v = raised message_type
  by_grammar (some name) v = validate rules name v

  unfoldable pub validate_frame : Value → Result (Unit {0})
  validate_frame (dict fs) = do
    refuse (odd_key fs) schema
    code ← code_of (get 1 fs)
    by_grammar (frame_rule code) (dict fs)
    body ← entry 4 fs
    overlay code fs body
  validate_frame _ = raised schema
