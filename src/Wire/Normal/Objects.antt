-- ===== src/Wire/Normal/Objects.antt =====
-- One object in codec.py's encoder, by its type: what a successful call has written is the
-- canonical form of the object with its dicts sorted.
use peer_application_runtime.Base.{
  ℕ, zero, suc, ◌+◌, ◌≤◌, [], ◌∷◌, ◌++◌, ◌≡◌, refl, ap, sym, subst, ◌∙◌, true, false, none, length,
  arith, ltb, ltb→le,
}
use peer_application_runtime.Wire.Error.{Result, ok, bind_ok, refuse_ok}
use peer_application_runtime.Wire.Value.{
  Value, null, bool, uint, negative, bytes, text, array, dict, forbidden, Values, nil, cons, Fields,
  end, field, len_values, len_fields,
}
use peer_application_runtime.Wire.Encode.{Output, bad_key, sorted, put_head, put_value, put_item}
use peer_application_runtime.Wire.Canonical.{
  code, code_values, code_fields, weight, levels, with_head, IsCanonical, with_head_append,
}
use peer_application_runtime.Wire.Normal.{normal, normal_values, normal_fields, IsObject}
use peer_application_runtime.Wire.Normal.Sorting.{
  normal_fields-sorted, sorted-KeysAscend, sorted-AllValues, IsDict-AllValues, len-sorted,
}
use peer_application_runtime.Wire.Normal.Written.{
  Wrote, Written, put_ok, put_head_ok, head_body_ok, text_ok, Sound, WrittenFields, items_ok,
  fields_ok,
}

len-normal_values : (vs : Values) → len_values (normal_values vs) ≡ len_values vs
unfolding normal
len-normal_values nil = refl
len-normal_values (cons v vs) = ap suc (len-normal_values vs)

len-normal_fields : (fs : Fields) → len_fields (normal_fields fs) ≡ len_fields fs
unfolding normal
len-normal_fields end = refl
len-normal_fields (field k v fs) = ap suc (len-normal_fields fs)

module _ (max_bytes max_nodes : ℕ) where
  leaf_Written :
      (lv : ℕ) (v : Value) (s t : Output)
      → levels v ≡ 1
      → weight v ≡ 1
      → s.nodes + 1 ≤ max_nodes
      → IsCanonical v
      → Wrote max_bytes (code v) (record s { nodes = s.nodes + 1 }) t
      → Written max_bytes max_nodes (suc lv) v s t
  leaf_Written lv v s t l w budget h p = record {
    canonical = h;
    shallow = omega arith;
    out = p.out;
    counted = omega (arith, p.nodes);
    room = p.room;
    budget = omega (arith, p.nodes);
  }

  module _ (lv : ℕ) (item : Value → Output → Result Output)
      (sound : Sound max_bytes max_nodes lv item) where
    -- One object, counted before.
    value_ok :
        (v : Value) (s t : Output)
        → IsObject v
        → s.nodes + 1 ≤ max_nodes
        → put_value max_bytes max_nodes item v (record s { nodes = s.nodes + 1 }) ≡ ok t
        → Written max_bytes max_nodes (suc lv) (normal v) s t
    unfolding put_value normal IsObject code weight levels IsCanonical
    value_ok null s t h b e =
        leaf_Written lv null s t refl refl b tt (put_ok max_bytes max_nodes (0xf6 ∷ []) _ t e)
    value_ok (bool true) s t h b e =
        leaf_Written lv (bool true) s t refl refl b tt
          (put_ok max_bytes max_nodes (0xf5 ∷ []) _ t e)
    value_ok (bool false) s t h b e =
        leaf_Written lv (bool false) s t refl refl b tt
          (put_ok max_bytes max_nodes (0xf4 ∷ []) _ t e)
    value_ok (uint n) s t h b e =
        let (small, w) = put_head_ok max_bytes max_nodes 0 n _ t (omega arith) e in
        leaf_Written lv (uint n) s t refl refl b small w
    value_ok (negative n) s t h b e = cc
    value_ok forbidden s t h b e = cc
    value_ok (bytes v) s t h b e =
        let (small, w) = head_body_ok max_bytes max_nodes 2 (length v) v _ t (omega arith) e in
        leaf_Written lv (bytes v) s t refl refl b small w
    value_ok (text v) s t h b e =
        let (good, w) = text_ok max_bytes max_nodes v _ t e in
        leaf_Written lv (text v) s t refl refl b good w
    value_ok (array vs) s t h b e =
        let n = len_values vs in
        let (few, k) = refuse_ok (ltb max_nodes n) _ _ t e in
        let (s', e', k') = bind_ok (put_head max_bytes max_nodes 4 n _) _ t k in
        let (small, w) = put_head_ok max_bytes max_nodes 4 n _ s' (omega arith) e' in
        let q =
          items_ok max_bytes max_nodes lv item sound vs s' t h w.room (omega (arith, w.nodes)) k' in
        let len = len-normal_values vs in
        record {
          canonical = (omega arith, q.canonical);
          shallow = omega (arith, q.shallow);
          out =
              q.out
              ∙ ap (λ o. o ++ code_values (normal_values vs)) w.out
              ∙ with_head_append 4 n s.out (code_values (normal_values vs))
              ∙ ap (λ k. s.out ++ with_head 4 k (code_values (normal_values vs))) (sym len);
          counted = omega (arith, q.counted, w.nodes);
          room = q.room;
          budget = q.budget;
        }
    value_ok (dict fs) s t h b e =
        let n = len_fields fs in
        let (few, k) = refuse_ok (ltb max_nodes n) _ _ t e in
        let (good, k') = refuse_ok (bad_key fs) _ _ t k in
        let (s', e', k'') = bind_ok (put_head max_bytes max_nodes 5 n _) _ t k' in
        let (small, w) = put_head_ok max_bytes max_nodes 5 n _ s' (omega arith) e' in
        let q' =
          fields_ok max_bytes max_nodes lv item sound (sorted fs) none s' t
            (sorted-KeysAscend fs good h) (sorted-AllValues fs (IsDict-AllValues fs h)) w.room
            (omega (arith, w.nodes)) k'' in
        let q =
          subst (λ g. WrittenFields max_bytes max_nodes lv none g s' t) (normal_fields-sorted fs)
            q' in
        let gs = sorted (normal_fields fs) in
        let len : len_fields gs ≡ n = len-sorted (normal_fields fs) ∙ len-normal_fields fs in
        record {
          canonical = (omega arith, q.ascending);
          shallow = omega (arith, q.shallow);
          out =
              q.out
              ∙ ap (λ o. o ++ code_fields gs) w.out
              ∙ with_head_append 5 n s.out (code_fields gs)
              ∙ ap (λ k. s.out ++ with_head 5 k (code_fields gs)) (sym len);
          counted = omega (arith, q.counted, w.nodes);
          room = q.room;
          budget = q.budget;
        }

  -- Every level: a successful call has written the canonical form of the object with sorted dicts.
  pub put_item_ok : (lv : ℕ) → Sound max_bytes max_nodes lv (put_item max_bytes max_nodes lv)
  unfolding put_item
  put_item_ok zero v s t h e = cc
  put_item_ok (suc lv) v s t h e =
      let (room, k) = refuse_ok (ltb max_nodes (s.nodes + 1)) _ _ t e in
      value_ok lv (put_item max_bytes max_nodes lv) (put_item_ok lv) v s t h (ltb→le _ _ room) k
