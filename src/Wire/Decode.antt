-- ===== src/Wire/Decode.antt =====
-- `decode` of experiments/g0-wire/par_wire/codec.py. The position is kept as the bytes behind it,
-- and the depth as the levels that are left (see Wire/Encode).
use peer_application_runtime.Base.{
  ℕ, zero, suc, ◌+◌, ◌*◌, List, [], ◌∷◌, Bool, true, false, Option, none, some, ltb, leb, ◌==◌,
  ◌||◌, if◌then◌else◌, length,
}
use peer_application_runtime.Wire.Error.{
  Result, ok, raised, ◌>>=◌, ◌>>◌, refuse, limit, depth, resource_limit, forbidden_type, utf8,
  map_key, map_order, truncated, trailing,
}
use peer_application_runtime.Wire.Value.{
  nat, Value, null, bool, uint, bytes, text, array, dict, Values, nil, cons, Fields, end, field,
}
use peer_application_runtime.Wire.Utf8.{utf8_decode}
use peer_application_runtime.Wire.Head.{take_bytes, argument, major_of, low_of}
use peer_application_runtime.Wire.Encode.{max_depth}

-- `rest` is what stands behind `pos`.
pub record Input : Type 0 where
  pub rest : List ℕ
  pub nodes : ℕ

-- `take(1)[0]`.
unfoldable pub take_initial : List ℕ → Result (ℕ × List ℕ)
take_initial [] = raised truncated
take_initial (b ∷ bs) = ok (b, bs)

-- `(False, True, None)[ai-20]`.
unfoldable pub simple : ℕ → Result Value
simple ai =
    if ai == 20
    then ok (bool false)
    else if ai == 21
    then ok (bool true)
    else if ai == 22
    then ok null
    else raised forbidden_type

-- `[item(depth+1) for _ in range(n)]`.
unfoldable pub read_items : (Input → Result (Value × Input)) → ℕ → Input → Result (Values × Input)
read_items item zero s = ok (nil, s)
read_items item (suc n) s = do
  (v, s') ← item s
  (vs, s'') ← read_items item n s'
  ok (cons v vs, s'')

-- `type(key) is not int`.
unfoldable pub as_key : Value → Result ℕ
as_key (uint k) = ok k
as_key _ = raised map_key

-- `key <= previous`; `none` stands for the initial -1.
unfoldable pub out_of_order : ℕ → Option ℕ → Bool
out_of_order k none = false
out_of_order k (some previous) = leb k previous

-- Keys ascend, so that `result[key] = …` always adds at the end.
unfoldable pub read_fields :
    (Input → Result (Value × Input)) → ℕ → Option ℕ → Input → Result (Fields × Input)
read_fields item zero previous s = ok (end, s)
read_fields item (suc n) previous s = do
  (kv, s') ← item s
  k ← as_key kv
  refuse (out_of_order k previous) map_order
  (v, s'') ← item s'
  (fs, s''') ← read_fields item n (some k) s''
  ok (field (nat k) v fs, s''')

abbrev pub decoded_text : Option (List ℕ) → List ℕ → ℕ → Result (Value × Input)
decoded_text none rest nodes = raised utf8
decoded_text (some v) rest nodes = ok (text v, record { rest = rest; nodes = nodes })

-- `major in (0,2,3,4,5)`.
abbrev pub known_major : ℕ → Bool
known_major major = major == 0 || major == 2 || major == 3 || major == 4 || major == 5

-- `if pos != len(data)`.
unfoldable pub at_end : Value → List ℕ → Result Value
at_end v [] = ok v
at_end v (b ∷ bs) = raised trailing

module _ (max_bytes max_nodes : ℕ) where
  -- `needed` items must still fit the input and the budget.
  unfoldable pub check_needed : ℕ → Input → Result (Unit {0})
  check_needed needed s = do
    refuse (ltb (length s.rest) needed) truncated
    refuse (ltb max_nodes (s.nodes + needed)) resource_limit

  -- The item of major type `major` whose argument `n` has been read.
  unfoldable pub read_major :
      (Input → Result (Value × Input)) → ℕ → ℕ → Input → Result (Value × Input)
  read_major item major n s =
      if major == 0
      then ok (uint n, s)
      else if ltb max_bytes n
      then raised limit
      else if major == 2
      then (do
        (b, rest) ← take_bytes n s.rest
        ok (bytes b, record { rest = rest; nodes = s.nodes }))
      else if major == 3
      then (do (b, rest) ← take_bytes n s.rest; decoded_text (utf8_decode b) rest s.nodes)
      else if major == 4
      then (do check_needed (n * 1) s; (vs, s') ← read_items item n s; ok (array vs, s'))
      else (do check_needed (n * 2) s; (fs, s') ← read_fields item n none s; ok (dict fs, s'))

  -- What follows the initial byte.
  unfoldable pub read_initial :
      (Input → Result (Value × Input)) → ℕ → Input → Result (Value × Input)
  read_initial item initial s =
      if major_of initial == 7
      then (do v ← simple (low_of initial); ok (v, s))
      else if known_major (major_of initial)
      then (do
        (n, rest) ← argument (low_of initial) s.rest
        read_major item (major_of initial) n (record s { rest = rest }))
      else raised forbidden_type

  unfoldable pub read_value : (Input → Result (Value × Input)) → Input → Result (Value × Input)
  read_value item s = do
    (initial, rest) ← take_initial s.rest
    read_initial item initial (record s { rest = rest })

  unfoldable pub read_item : ℕ → Input → Result (Value × Input)
  read_item zero s = raised depth
  read_item (suc levels) s = do
    refuse (ltb max_nodes (s.nodes + 1)) resource_limit
    read_value (read_item levels) (record s { nodes = s.nodes + 1 })

  unfoldable pub decode : List ℕ → Result Value
  decode input = do
    refuse (ltb max_bytes (length input)) limit
    (v, s) ← read_item (suc max_depth) (record { rest = input; nodes = 0 })
    at_end v s.rest
