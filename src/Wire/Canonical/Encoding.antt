-- ===== src/Wire/Canonical/Encoding.antt =====
-- The encoder of codec.py writes the canonical form of an object that has one, when it fits the
-- budgets.
use peer_application_runtime.Base.{
  ℕ, le→ltb, zero, suc, ◌+◌, ◌≤◌, ◌<◌, List, [], ◌∷◌, ◌++◌, ◌≡◌, refl, ap, ap₂, sym, ◌∙◌, true,
  false, Option, none, some, length, length-append, arith, append_assoc, append-nil, ltb,
}
use peer_application_runtime.Wire.Error.{Result, ok, ◌>>=◌}
use peer_application_runtime.Wire.Value.{
  nat, negative_key, other_key, Value, null, bool, uint, negative, bytes, text, array, dict,
  forbidden, Values, nil, cons, Fields, end, field, len_values, len_fields,
}
use peer_application_runtime.Wire.Utf8.{utf8_encode}
use peer_application_runtime.Wire.Utf8.RoundTrip.{utf8_decode-utf8_encode, utf8_encode-utf8_decode}
use peer_application_runtime.Wire.Head.{u64_max}
use peer_application_runtime.Wire.Head.RoundTrip.{first, more, head-code}
use peer_application_runtime.Wire.Encode.{
  Output, bad_key, sorted, insert, put, put_head, put_text, put_items, put_fields, put_value,
  put_item,
}
use peer_application_runtime.Wire.Canonical.{
  code, code_values, code_fields, weight, weight_values, weight_fields, levels, levels_values,
  levels_fields, utf8_bytes, with_head, IsCanonical, AllCanonical, IsAscending, positive,
  len_values_bounds, len_fields_bounds, length-with_head, with_head_append,
}

abbrev pub at : List ℕ → ℕ → Output
at out nodes = record { out = out; nodes = nodes }

at_eq : {o p : List ℕ} {n m : ℕ} → o ≡ p → n ≡ m → ok (at o n) ≡ ok (at p m)
at_eq e f = ap₂ (λ o n. ok (at o n)) e f

-- A map in canonical form has only keys that the encoder takes, in the order that it sorts them to.
pub bad_key-IsAscending : (j : Option ℕ) (fs : Fields) → IsAscending j fs → bad_key fs ≡ false
unfolding bad_key IsCanonical
bad_key-IsAscending j end h = refl
bad_key-IsAscending j (field (nat k) v fs) h = ground (arith, bad_key-IsAscending (some k) fs h.3)
bad_key-IsAscending j (field (negative_key n) v fs) h = absurd h
bad_key-IsAscending j (field other_key v fs) h = absurd h

insert-IsAscending :
    (k : ℕ) (v : Value) (fs : Fields)
    → IsAscending (some k) fs
    → insert (nat k) v fs ≡ field (nat k) v fs
unfolding insert IsCanonical
insert-IsAscending k v end h = refl
insert-IsAscending k v (field (nat j) w fs) h = ground arith
insert-IsAscending k v (field (negative_key n) w fs) h = absurd h
insert-IsAscending k v (field other_key w fs) h = absurd h

pub sorted-IsAscending : (j : Option ℕ) (fs : Fields) → IsAscending j fs → sorted fs ≡ fs
unfolding sorted IsCanonical
sorted-IsAscending j end h = refl
sorted-IsAscending j (field (nat k) v fs) h =
    ap (insert (nat k) v) (sorted-IsAscending (some k) fs h.3) ∙ insert-IsAscending k v fs h.3
sorted-IsAscending j (field (negative_key n) v fs) h = absurd h
sorted-IsAscending j (field other_key v fs) h = absurd h

length-utf8 : (t : List ℕ) → utf8_encode t ≡ some (utf8_bytes t) → length t ≤ length (utf8_bytes t)
length-utf8 t e =
    (utf8_encode-utf8_decode (utf8_bytes t) t (utf8_decode-utf8_encode t (utf8_bytes t) e)).1

-- Room for a head and a body is room for the body behind the head.
pub room_lem :
    (major n : ℕ) (body out : List ℕ) {limit : ℕ}
    → length out + length (with_head major n body) ≤ limit
    → length (out ++ with_head major n []) + length body ≤ limit
room_lem major n body out h =
    omega (arith, length-with_head major n body, length-append out (with_head major n []))

module _ (max_bytes max_nodes : ℕ) where
  put_lem :
      (b out : List ℕ) (nodes : ℕ)
      → length out + length b ≤ max_bytes
      → put max_bytes max_nodes b (at out nodes) ≡ ok (at (out ++ b) nodes)
  unfolding put
  put_lem b out nodes h = ground arith

  put_head_lem :
      (major n : ℕ) (out : List ℕ) (nodes : ℕ)
      → major < 8
      → n ≤ u64_max
      → length out + length (with_head major n []) ≤ max_bytes
      → put_head max_bytes max_nodes major n (at out nodes)
        ≡ ok (at (out ++ with_head major n []) nodes)
  unfolding put_head
  put_head_lem major n out nodes hm hn h =
      rw (head-code major n hm hn, append-nil)
        (put_lem (first major n ∷ more n) out nodes
          (omega (arith, ap length (append-nil (more n)))))

  put_item_step :
      (lv : ℕ) (v : Value) (out : List ℕ) (nodes : ℕ)
      → nodes + 1 ≤ max_nodes
      → put_item max_bytes max_nodes (suc lv) v (at out nodes)
        ≡ put_value max_bytes max_nodes (put_item max_bytes max_nodes lv) v (at out (nodes + 1))
  unfolding put_item
  put_item_step lv v out nodes h = ground arith

  -- A head and a body, one after the other.
  put-with_head :
      (major n : ℕ) (body out : List ℕ) (nodes : ℕ)
      → major < 8
      → n ≤ u64_max
      → length out + length (with_head major n body) ≤ max_bytes
      → (put_head max_bytes max_nodes major n (at out nodes) >>= put max_bytes max_nodes body)
        ≡ ok (at (out ++ with_head major n body) nodes)
  put-with_head major n body out nodes hm hn h =
      let room = length-append (more n) body in
      let room' = length-append (more n) [] in
      let room'' = length-append out (with_head major n []) in
      rw (put_head_lem major n out nodes hm hn (omega arith)) (
        rw (put_lem body (out ++ with_head major n []) nodes (omega arith))
          (rw (append_assoc, append-nil) refl))

  abbrev Writes : Value → ℕ → List ℕ → ℕ → Type 0
  Writes v lv out nodes =
      put_item max_bytes max_nodes lv v (at out nodes) ≡ ok (at (out ++ code v) (nodes + weight v))

  -- An object whose body needs no level below its own.
  leaf_lem :
      (v : Value) (lv : ℕ) (out : List ℕ) (nodes : ℕ)
      → levels v ≡ 1
      → weight v ≡ 1
      → levels v ≤ lv
      → nodes + weight v ≤ max_nodes
      → ((item : Value → Output → Result Output)
          → put_value max_bytes max_nodes item v (at out (nodes + 1))
            ≡ ok (at (out ++ code v) (nodes + 1)))
      → Writes v lv out nodes
  leaf_lem v zero out nodes l w hl hn p = absurd (omega arith)
  leaf_lem v (suc lv) out nodes l w hl hn p =
      put_item_step lv v out nodes (omega arith)
      ∙ p (put_item max_bytes max_nodes lv)
      ∙ ap (λ k. ok (at (out ++ code v) (nodes + k))) (sym w)

  text_lem :
      (item : Value → Output → Result Output) (t out : List ℕ) (nodes : ℕ)
      → IsCanonical (text t)
      → length out + length (code (text t)) ≤ max_bytes
      → put_value max_bytes max_nodes item (text t) (at out nodes)
        ≡ ok (at (out ++ code (text t)) nodes)
  unfolding put_value put_text code IsCanonical
  text_lem item t out nodes h hb =
      let room = length-append (more (length (utf8_bytes t))) (utf8_bytes t) in
      let short : ltb max_bytes (length t) ≡ false = ground (arith, length-utf8 t h.0, room) in
      rw short (
        rw h.0
          (put-with_head 3 (length (utf8_bytes t)) (utf8_bytes t) out nodes (omega arith) h.1 hb))

  -- A list or a map whose children are written behind its head.
  module _ (lv : ℕ) (out : List ℕ) (nodes : ℕ) where
    array_lem :
        (vs : Values)
        → IsCanonical (array vs)
        → length out + length (code (array vs)) ≤ max_bytes
        → nodes + weight (array vs) ≤ max_nodes
        → put_items max_bytes max_nodes
            (put_item max_bytes max_nodes lv)
            vs
            (at (out ++ with_head 4 (len_values vs) []) (nodes + 1))
          ≡ ok (
              at
                ((out ++ with_head 4 (len_values vs) []) ++ code_values vs)
                (nodes + 1 + weight_values vs))
        → Writes (array vs) (suc lv) out nodes
    unfolding put_value code weight IsCanonical
    array_lem vs h hb hn children =
        let n = len_values vs in
        let bounds = len_values_bounds vs h.1 in
        let few = le→ltb max_nodes n (omega arith) in
        let room : length out + length (with_head 4 n []) ≤ max_bytes =
          omega (arith, length-with_head 4 n (code_values vs)) in
        put_item_step lv (array vs) out nodes (omega arith)
        ∙ rw few (
            rw (put_head_lem 4 n out (nodes + 1) (omega arith) h.0 room)
              (children ∙ at_eq (with_head_append 4 n out (code_values vs)) (omega arith)))

    dict_lem :
        (fs : Fields)
        → IsCanonical (dict fs)
        → length out + length (code (dict fs)) ≤ max_bytes
        → nodes + weight (dict fs) ≤ max_nodes
        → put_fields max_bytes max_nodes
            (put_item max_bytes max_nodes lv)
            fs
            (at (out ++ with_head 5 (len_fields fs) []) (nodes + 1))
          ≡ ok (
              at
                ((out ++ with_head 5 (len_fields fs) []) ++ code_fields fs)
                (nodes + 1 + weight_fields fs))
        → Writes (dict fs) (suc lv) out nodes
    unfolding put_value code weight IsCanonical
    dict_lem fs h hb hn children =
        let n = len_fields fs in
        let bounds = len_fields_bounds none fs h.1 in
        let few = le→ltb max_nodes n (omega arith) in
        let room : length out + length (with_head 5 n []) ≤ max_bytes =
          omega (arith, length-with_head 5 n (code_fields fs)) in
        put_item_step lv (dict fs) out nodes (omega arith)
        ∙ rw (few, bad_key-IsAscending none fs h.1, sorted-IsAscending none fs h.1)
            (rw (put_head_lem 5 n out (nodes + 1) (omega arith) h.0 room)
              (children ∙ at_eq (with_head_append 5 n out (code_fields fs)) (omega arith)))

  key_lem :
      (k lv : ℕ) (out : List ℕ) (nodes : ℕ)
      → k ≤ u64_max
      → 1 ≤ lv
      → length out + length (with_head 0 k []) ≤ max_bytes
      → nodes + 1 ≤ max_nodes
      → put_item max_bytes max_nodes lv (uint k) (at out nodes)
        ≡ ok (at (out ++ with_head 0 k []) (nodes + 1))
  unfolding put_value code weight levels
  key_lem k lv out nodes h hl hb hn =
      leaf_lem (uint k) lv out nodes refl refl hl hn
        (λ item. put_head_lem 0 k out (nodes + 1) (omega arith) h hb)

  mutual
    unfolding put_value put_items put_fields code weight levels IsCanonical

    pub put_item_lem :
        (v : Value) (lv : ℕ) (out : List ℕ) (nodes : ℕ)
        → IsCanonical v
        → levels v ≤ lv
        → length out + length (code v) ≤ max_bytes
        → nodes + weight v ≤ max_nodes
        → Writes v lv out nodes
    put_item_lem null lv out nodes h hl hb hn =
        leaf_lem null lv out nodes refl refl hl hn (λ item. put_lem (0xf6 ∷ []) out (nodes + 1) hb)
    put_item_lem (bool true) lv out nodes h hl hb hn =
        leaf_lem (bool true) lv out nodes refl refl hl hn
          (λ item. put_lem (0xf5 ∷ []) out (nodes + 1) hb)
    put_item_lem (bool false) lv out nodes h hl hb hn =
        leaf_lem (bool false) lv out nodes refl refl hl hn
          (λ item. put_lem (0xf4 ∷ []) out (nodes + 1) hb)
    put_item_lem (negative n) lv out nodes h hl hb hn = absurd h
    put_item_lem forbidden lv out nodes h hl hb hn = absurd h
    put_item_lem (uint n) lv out nodes h hl hb hn =
        leaf_lem (uint n) lv out nodes refl refl hl hn
          (λ item. put_head_lem 0 n out (nodes + 1) (omega arith) h hb)
    put_item_lem (bytes b) lv out nodes h hl hb hn =
        leaf_lem (bytes b) lv out nodes refl refl hl hn
          (λ item. put-with_head 2 (length b) b out (nodes + 1) (omega arith) h hb)
    put_item_lem (text t) lv out nodes h hl hb hn =
        leaf_lem (text t) lv out nodes refl refl hl hn
          (λ item. text_lem item t out (nodes + 1) h hb)
    put_item_lem (array vs) zero out nodes h hl hb hn = absurd (omega arith)
    put_item_lem (array vs) (suc lv) out nodes h hl hb hn = array_lem lv out nodes vs h hb hn (
        put_items_lem vs lv (out ++ with_head 4 (len_values vs) []) (nodes + 1) h.1 (omega arith)
          (room_lem 4 (len_values vs) (code_values vs) out hb) (omega arith))
    put_item_lem (dict fs) zero out nodes h hl hb hn = absurd (omega arith)
    put_item_lem (dict fs) (suc lv) out nodes h hl hb hn = dict_lem lv out nodes fs h hb hn (
        put_fields_lem fs none lv (out ++ with_head 5 (len_fields fs) []) (nodes + 1) h.1
          (omega arith) (room_lem 5 (len_fields fs) (code_fields fs) out hb) (omega arith))

    put_items_lem :
        (vs : Values) (lv : ℕ) (out : List ℕ) (nodes : ℕ)
        → AllCanonical vs
        → levels_values vs ≤ lv
        → length out + length (code_values vs) ≤ max_bytes
        → nodes + weight_values vs ≤ max_nodes
        → put_items max_bytes max_nodes (put_item max_bytes max_nodes lv) vs (at out nodes)
          ≡ ok (at (out ++ code_values vs) (nodes + weight_values vs))
    put_items_lem nil lv out nodes h hl hb hn = at_eq (sym (append-nil out)) (omega arith)
    put_items_lem (cons v vs) lv out nodes h hl hb hn =
        let room = length-append (code v) (code_values vs) in
        let room' = length-append out (code v) in
        rw (put_item_lem v lv out nodes h.0 (omega arith) (omega arith) (omega arith)) (
          put_items_lem vs lv (out ++ code v) (nodes + weight v) h.1 (omega arith) (omega arith)
            (omega arith)
          ∙ at_eq (append_assoc out (code v) (code_values vs)) (omega arith))

    put_fields_lem :
        (fs : Fields) (j : Option ℕ) (lv : ℕ) (out : List ℕ) (nodes : ℕ)
        → IsAscending j fs
        → levels_fields fs ≤ lv
        → length out + length (code_fields fs) ≤ max_bytes
        → nodes + weight_fields fs ≤ max_nodes
        → put_fields max_bytes max_nodes (put_item max_bytes max_nodes lv) fs (at out nodes)
          ≡ ok (at (out ++ code_fields fs) (nodes + weight_fields fs))
    put_fields_lem end j lv out nodes h hl hb hn = at_eq (sym (append-nil out)) (omega arith)
    put_fields_lem (field (nat k) v fs) j lv out nodes h hl hb hn =
        let out' = out ++ with_head 0 k [] in
        let room = length-append (code v) (code_fields fs) in
        let room' = length-append out' (code v) in
        let room'' = length-append (with_head 0 k []) (code v ++ code_fields fs) in
        let some_level = positive v h.2 in
        rw (key_lem k lv out nodes h.1 (omega arith) (omega arith) (omega arith)) (
          rw
            (put_item_lem v lv out' (nodes + 1) h.2 (omega arith)
              (omega (arith, length-append out (with_head 0 k []))) (omega arith))
            (put_fields_lem fs (some k) lv (out' ++ code v) (nodes + 1 + weight v) h.3 (omega arith)
                (omega (arith, length-append out (with_head 0 k []))) (omega arith)
              ∙ at_eq
                  (append_assoc out' (code v) (code_fields fs)
                    ∙ append_assoc out (with_head 0 k []) (code v ++ code_fields fs))
                  (omega arith)))
    put_fields_lem (field (negative_key n) v fs) j lv out nodes h hl hb hn = absurd h
    put_fields_lem (field other_key v fs) j lv out nodes h hl hb hn = absurd h
