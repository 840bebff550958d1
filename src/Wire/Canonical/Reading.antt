-- ===== src/Wire/Canonical/Reading.antt =====
-- The decoder of codec.py reads the canonical form of an object back, whatever follows it.
use peer_application_runtime.Base.{
  ℕ, zero, suc, ◌+◌, ◌*◌, ◌≤◌, ◌<◌, List, [], ◌++◌, ◌≡◌, refl, ap, sym, ◌∙◌, true, false, Option,
  none, some, length, length-append, arith, append_assoc, ltb, le→ltb,
}
use peer_application_runtime.Wire.Error.{Result, ok}
use peer_application_runtime.Wire.Value.{
  nat, negative_key, other_key, Value, null, bool, uint, negative, bytes, text, array, dict,
  forbidden, Values, nil, cons, Fields, end, field, len_values, len_fields,
}
use peer_application_runtime.Wire.Utf8.RoundTrip.{utf8_decode-utf8_encode}
use peer_application_runtime.Wire.Head.{u64_max}
use peer_application_runtime.Wire.Head.RoundTrip.{
  more, first_parts, argument-more, take_bytes-append,
}
use peer_application_runtime.Wire.Decode.{
  Input, take_initial, simple, read_items, as_key, out_of_order, read_fields, known_major,
  check_needed, read_major, read_initial, read_value, read_item,
}
use peer_application_runtime.Wire.Canonical.{
  code, code_values, code_fields, weight, weight_values, weight_fields, levels, levels_values,
  levels_fields, utf8_bytes, with_head, Follows, IsCanonical, AllCanonical, IsAscending, positive,
  len_values_bounds, len_fields_bounds, length-with_head,
}

abbrev pub at : List ℕ → ℕ → Input
at rest nodes = record { rest = rest; nodes = nodes }

abbrev pub read : {A : Type 0} → A → List ℕ → ℕ → Result (A × Input)
read a rest nodes = ok (a, at rest nodes)

read_eq : {A : Type 0} (a : A) (rest : List ℕ) {n m : ℕ} → n ≡ m → read a rest n ≡ read a rest m
read_eq a rest e = ap (read a rest) e

module _ (max_bytes max_nodes : ℕ) where
  -- A head of a major type that has an argument.
  read_value-head :
      (item : Input → Result (Value × Input)) (major n : ℕ) (body rest : List ℕ) (nodes : ℕ)
      → major < 6
      → known_major major ≡ true
      → n ≤ u64_max
      → read_value max_bytes max_nodes item (at (with_head major n body ++ rest) nodes)
        ≡ read_major max_bytes max_nodes item major n (at (body ++ rest) nodes)
  unfolding read_value take_initial read_initial
  read_value-head item major n body rest nodes hm known hn =
      let (em, el) = first_parts major n (omega arith) in
      rw (em, el, append_assoc (more n) body rest)
        (ground (arith, argument-more n (body ++ rest) hn))

  read_item_step :
      (lv : ℕ) (input : List ℕ) (nodes : ℕ)
      → nodes + 1 ≤ max_nodes
      → read_item max_bytes max_nodes (suc lv) (at input nodes)
        ≡ read_value max_bytes max_nodes (read_item max_bytes max_nodes lv) (at input (nodes + 1))
  unfolding read_item
  read_item_step lv input nodes h = ground arith

  abbrev Reads : Value → ℕ → List ℕ → ℕ → Type 0
  Reads v lv rest nodes =
      read_item max_bytes max_nodes lv (at (code v ++ rest) nodes) ≡ read v rest (nodes + weight v)

  -- An object whose body needs no level below its own.
  leaf_lem :
      (v : Value) (lv : ℕ) (rest : List ℕ) (nodes : ℕ)
      → levels v ≡ 1
      → weight v ≡ 1
      → levels v ≤ lv
      → nodes + weight v ≤ max_nodes
      → ((item : Input → Result (Value × Input))
          → read_value max_bytes max_nodes item (at (code v ++ rest) (nodes + 1))
            ≡ read v rest (nodes + 1))
      → Reads v lv rest nodes
  leaf_lem v zero rest nodes l w hl hn p = absurd (omega arith)
  leaf_lem v (suc lv) rest nodes l w hl hn p =
      read_item_step lv (code v ++ rest) nodes (omega arith)
      ∙ p (read_item max_bytes max_nodes lv)
      ∙ read_eq v rest (ap (λ k. nodes + k) (sym w))

  module _ (item : Input → Result (Value × Input)) (rest : List ℕ) (nodes : ℕ) where
    uint_lem :
        (n : ℕ)
        → n ≤ u64_max
        → read_value max_bytes max_nodes item (at (with_head 0 n [] ++ rest) nodes)
          ≡ read (uint n) rest nodes
    uint_lem n h =
        read_value-head item 0 n [] rest nodes (omega arith) refl h ∙ unfold read_major in refl

    bytes_lem :
        (b : List ℕ)
        → IsCanonical (bytes b)
        → length (code (bytes b)) ≤ max_bytes
        → read_value max_bytes max_nodes item (at (code (bytes b) ++ rest) nodes)
          ≡ read (bytes b) rest nodes
    unfolding read_major code IsCanonical
    bytes_lem b h hb =
        let few : ltb max_bytes (length b) ≡ false =
          ground (arith, length-with_head 2 (length b) b) in
        read_value-head item 2 (length b) b rest nodes (omega arith) refl h
        ∙ rw (few, take_bytes-append b rest (length b) refl) refl

    text_lem :
        (t : List ℕ)
        → IsCanonical (text t)
        → length (code (text t)) ≤ max_bytes
        → read_value max_bytes max_nodes item (at (code (text t) ++ rest) nodes)
          ≡ read (text t) rest nodes
    unfolding read_major code IsCanonical
    text_lem t h hb =
        let u = utf8_bytes t in
        let few : ltb max_bytes (length u) ≡ false =
          ground (arith, length-with_head 3 (length u) u) in
        read_value-head item 3 (length u) u rest nodes (omega arith) refl h.1
        ∙ rw (few, take_bytes-append u rest (length u) refl)
            (rw (utf8_decode-utf8_encode t u h.0) refl)

  check_needed_lem :
      (needed : ℕ) (rest : List ℕ) (nodes : ℕ)
      → needed ≤ length rest
      → nodes + needed ≤ max_nodes
      → check_needed max_bytes max_nodes needed (at rest nodes) ≡ ok tt
  unfolding check_needed
  check_needed_lem needed rest nodes h k = ground arith

  module _ (lv : ℕ) (rest : List ℕ) (nodes : ℕ) where
    array_lem :
        (vs : Values)
        → IsCanonical (array vs)
        → length (code (array vs)) ≤ max_bytes
        → nodes + weight (array vs) ≤ max_nodes
        → read_items
            (read_item max_bytes max_nodes lv)
            (len_values vs)
            (at (code_values vs ++ rest) (nodes + 1))
          ≡ read vs rest (nodes + 1 + weight_values vs)
        → Reads (array vs) (suc lv) rest nodes
    unfolding read_major code weight IsCanonical
    array_lem vs h hb hn children =
        let n = len_values vs in
        let bounds = len_values_bounds vs h.1 in
        let size = length-with_head 4 n (code_values vs) in
        let few = le→ltb max_bytes n (omega arith) in
        let room = length-append (code_values vs) rest in
        read_item_step lv (with_head 4 n (code_values vs) ++ rest) nodes (omega arith)
        ∙ read_value-head (read_item max_bytes max_nodes lv) 4 n (code_values vs) rest (nodes + 1)
            (omega arith) refl h.0
        ∙ rw
            (
              few,
              check_needed_lem (n * 1) (code_values vs ++ rest) (nodes + 1) (omega arith)
                  (omega arith),
            )
            (rw children (read_eq (array vs) rest (omega arith)))

    dict_lem :
        (fs : Fields)
        → IsCanonical (dict fs)
        → length (code (dict fs)) ≤ max_bytes
        → nodes + weight (dict fs) ≤ max_nodes
        → read_fields
            (read_item max_bytes max_nodes lv)
            (len_fields fs)
            none
            (at (code_fields fs ++ rest) (nodes + 1))
          ≡ read fs rest (nodes + 1 + weight_fields fs)
        → Reads (dict fs) (suc lv) rest nodes
    unfolding read_major code weight IsCanonical
    dict_lem fs h hb hn children =
        let n = len_fields fs in
        let bounds = len_fields_bounds none fs h.1 in
        let size = length-with_head 5 n (code_fields fs) in
        let few = le→ltb max_bytes n (omega arith) in
        let room = length-append (code_fields fs) rest in
        read_item_step lv (with_head 5 n (code_fields fs) ++ rest) nodes (omega arith)
        ∙ read_value-head (read_item max_bytes max_nodes lv) 5 n (code_fields fs) rest (nodes + 1)
            (omega arith) refl h.0
        ∙ rw
            (
              few,
              check_needed_lem (n * 2) (code_fields fs ++ rest) (nodes + 1) (omega arith)
                  (omega arith),
            )
            (rw children (read_eq (dict fs) rest (omega arith)))

  key_lem :
      (k lv : ℕ) (rest : List ℕ) (nodes : ℕ)
      → k ≤ u64_max
      → 1 ≤ lv
      → nodes + 1 ≤ max_nodes
      → read_item max_bytes max_nodes lv (at (with_head 0 k [] ++ rest) nodes)
        ≡ read (uint k) rest (nodes + 1)
  unfolding code weight levels
  key_lem k lv rest nodes h hl hn =
      leaf_lem (uint k) lv rest nodes refl refl hl hn (λ item. uint_lem item rest (nodes + 1) k h)

  in_order : (j : Option ℕ) (k : ℕ) → Follows j k → out_of_order k j ≡ false
  unfolding out_of_order
  in_order none k h = refl
  in_order (some j) k h = ground arith

  mutual
    unfolding read_value take_initial read_initial simple read_items read_fields as_key code weight
        levels IsCanonical

    pub read_item_lem :
        (v : Value) (lv : ℕ) (rest : List ℕ) (nodes : ℕ)
        → IsCanonical v
        → levels v ≤ lv
        → length (code v) ≤ max_bytes
        → nodes + weight v ≤ max_nodes
        → Reads v lv rest nodes
    read_item_lem null lv rest nodes h hl hb hn =
        leaf_lem null lv rest nodes refl refl hl hn (λ item. refl)
    read_item_lem (bool true) lv rest nodes h hl hb hn =
        leaf_lem (bool true) lv rest nodes refl refl hl hn (λ item. refl)
    read_item_lem (bool false) lv rest nodes h hl hb hn =
        leaf_lem (bool false) lv rest nodes refl refl hl hn (λ item. refl)
    read_item_lem (negative n) lv rest nodes h hl hb hn = absurd h
    read_item_lem forbidden lv rest nodes h hl hb hn = absurd h
    read_item_lem (uint n) lv rest nodes h hl hb hn =
        leaf_lem (uint n) lv rest nodes refl refl hl hn (λ item. uint_lem item rest (nodes + 1) n h)
    read_item_lem (bytes b) lv rest nodes h hl hb hn =
        leaf_lem (bytes b) lv rest nodes refl refl hl hn
          (λ item. bytes_lem item rest (nodes + 1) b h hb)
    read_item_lem (text t) lv rest nodes h hl hb hn =
        leaf_lem (text t) lv rest nodes refl refl hl hn
          (λ item. text_lem item rest (nodes + 1) t h hb)
    read_item_lem (array vs) zero rest nodes h hl hb hn = absurd (omega arith)
    read_item_lem (array vs) (suc lv) rest nodes h hl hb hn = array_lem lv rest nodes vs h hb hn (
        read_items_lem vs lv rest (nodes + 1) h.1 (omega arith)
          (omega (arith, length-with_head 4 (len_values vs) (code_values vs))) (omega arith))
    read_item_lem (dict fs) zero rest nodes h hl hb hn = absurd (omega arith)
    read_item_lem (dict fs) (suc lv) rest nodes h hl hb hn = dict_lem lv rest nodes fs h hb hn (
        read_fields_lem fs none lv rest (nodes + 1) h.1 (omega arith)
          (omega (arith, length-with_head 5 (len_fields fs) (code_fields fs))) (omega arith))

    read_items_lem :
        (vs : Values) (lv : ℕ) (rest : List ℕ) (nodes : ℕ)
        → AllCanonical vs
        → levels_values vs ≤ lv
        → length (code_values vs) ≤ max_bytes
        → nodes + weight_values vs ≤ max_nodes
        → read_items
            (read_item max_bytes max_nodes lv)
            (len_values vs)
            (at (code_values vs ++ rest) nodes)
          ≡ read vs rest (nodes + weight_values vs)
    read_items_lem nil lv rest nodes h hl hb hn = read_eq nil rest (omega arith)
    read_items_lem (cons v vs) lv rest nodes h hl hb hn =
        let size = length-append (code v) (code_values vs) in
        rw
          (
            append_assoc (code v) (code_values vs) rest,
            read_item_lem v lv (code_values vs ++ rest) nodes h.0 (omega arith) (omega arith)
                (omega arith),
          )
          (rw
            (read_items_lem vs lv rest (nodes + weight v) h.1 (omega arith) (omega arith)
              (omega arith))
            (read_eq (cons v vs) rest (omega arith)))

    read_fields_lem :
        (fs : Fields) (j : Option ℕ) (lv : ℕ) (rest : List ℕ) (nodes : ℕ)
        → IsAscending j fs
        → levels_fields fs ≤ lv
        → length (code_fields fs) ≤ max_bytes
        → nodes + weight_fields fs ≤ max_nodes
        → read_fields
            (read_item max_bytes max_nodes lv)
            (len_fields fs)
            j
            (at (code_fields fs ++ rest) nodes)
          ≡ read fs rest (nodes + weight_fields fs)
    read_fields_lem end j lv rest nodes h hl hb hn = read_eq end rest (omega arith)
    read_fields_lem (field (nat k) v fs) j lv rest nodes h hl hb hn =
        let size = length-append (code v) (code_fields fs) in
        let size' = length-append (with_head 0 k []) (code v ++ code_fields fs) in
        let some_level = positive v h.2 in
        rw
          (
            append_assoc (with_head 0 k []) (code v ++ code_fields fs) rest,
            append_assoc (code v) (code_fields fs) rest,
            key_lem k lv (code v ++ (code_fields fs ++ rest)) nodes h.1 (omega arith) (omega arith),
          )
          (rw
            (
              in_order j k h.0,
              read_item_lem v lv (code_fields fs ++ rest) (nodes + 1) h.2 (omega arith)
                  (omega arith) (omega arith),
            )
            (rw
              (read_fields_lem fs (some k) lv rest (nodes + 1 + weight v) h.3 (omega arith)
                (omega arith) (omega arith))
              (read_eq (field (nat k) v fs) rest (omega arith))))
    read_fields_lem (field (negative_key n) v fs) j lv rest nodes h hl hb hn = absurd h
    read_fields_lem (field other_key v fs) j lv rest nodes h hl hb hn = absurd h
