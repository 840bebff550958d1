-- ===== src/Wire/Normal/Written.antt =====
-- What the encoder of codec.py has written when it succeeds: the canonical form of the object with
-- its dicts sorted.
use peer_application_runtime.Base.{
  ℕ, ◌+◌, ◌≤◌, ◌<◌, List, [], ◌∷◌, ◌++◌, ◌≡◌, refl, ap, sym, subst, ◌∙◌, Option, none, some, length,
  length-append, arith, append_assoc, append-nil, ltb, ltb→le,
}
use peer_application_runtime.Wire.Error.{Result, ok, ◌>>=◌, bind_ok, refuse_ok, ok-injective}
use peer_application_runtime.Wire.Value.{
  nat, negative_key, other_key, Value, uint, text, Values, nil, cons, Fields, end, field,
}
use peer_application_runtime.Wire.Utf8.{utf8_encode}
use peer_application_runtime.Wire.Head.{u64_max, head}
use peer_application_runtime.Wire.Head.RoundTrip.{first, more, head-code, head_bound}
use peer_application_runtime.Wire.Encode.{
  Output, put, put_head, put_text, put_utf8, put_items, put_fields,
}
use peer_application_runtime.Wire.Canonical.{
  code, code_values, code_fields, weight, weight_values, weight_fields, levels, levels_values,
  levels_fields, utf8_bytes, with_head, IsCanonical, AllCanonical, IsAscending, with_head_append,
}
use peer_application_runtime.Wire.Normal.{
  normal, normal_values, normal_fields, IsObject, AllObjects,
}
use peer_application_runtime.Wire.Normal.Sorting.{KeysAscend, AllValues}

-- `bs` has been added to the output, within the byte budget.
pub record Wrote (max_bytes : ℕ) (bs : List ℕ) (s t : Output) : Type 0 where
  pub out : t.out ≡ s.out ++ bs
  pub nodes : t.nodes ≡ s.nodes
  pub room : length t.out ≤ max_bytes

-- The canonical form of `v` has been added to the output, within both budgets.
pub record Written (max_bytes max_nodes lv : ℕ) (v : Value) (s t : Output) : Type 0 where
  pub canonical : IsCanonical v
  pub shallow : levels v ≤ lv
  pub out : t.out ≡ s.out ++ code v
  pub counted : t.nodes ≡ s.nodes + weight v
  pub room : length t.out ≤ max_bytes
  pub budget : t.nodes ≤ max_nodes

utf8_bytes_ok : (t u : List ℕ) → utf8_encode t ≡ some u → utf8_bytes t ≡ u
unfolding utf8_bytes
utf8_bytes_ok t u e = rw (e, utf8_bytes)

module _ (max_bytes max_nodes : ℕ) where
  pub put_ok :
      (b : List ℕ) (s t : Output) → put max_bytes max_nodes b s ≡ ok t → Wrote max_bytes b s t
  unfolding put
  put_ok b s t e =
      let (room, k) = refuse_ok (ltb max_bytes (length s.out + length b)) _ _ t e in
      let p : Wrote max_bytes b s (record s { out = s.out ++ b }) = record {
        out = refl;
        nodes = refl;
        room = omega (arith, length-append s.out b, ltb→le _ _ room);
      } in
      subst (Wrote max_bytes b s) (ok-injective k) p

  pub put_head_ok :
      (major n : ℕ) (s t : Output)
      → major < 8
      → put_head max_bytes max_nodes major n s ≡ ok t
      → (n ≤ u64_max) × Wrote max_bytes (with_head major n []) s t
  unfolding put_head
  put_head_ok major n s t hm e =
      let (hd, made, k) = bind_ok (head major n) _ t e in
      let small = head_bound major n hd made in
      let same : first major n ∷ more n ≡ hd =
        ok-injective (sym (head-code major n hm small) ∙ made) in
      let split : hd ≡ with_head major n [] =
        sym same ∙ ap (λ m. first major n ∷ m) (sym (append-nil (more n))) in
      (small, subst (λ h. Wrote max_bytes h s t) split (put_ok hd s t k))

  pub head_body_ok :
      (major n : ℕ) (body : List ℕ) (s t : Output)
      → major < 8
      → (put_head max_bytes max_nodes major n s >>= put max_bytes max_nodes body) ≡ ok t
      → (n ≤ u64_max) × Wrote max_bytes (with_head major n body) s t
  head_body_ok major n body s t hm e =
      let (s', e', k) =
        bind_ok (put_head max_bytes max_nodes major n s) (put max_bytes max_nodes body) t e in
      let (small, w) = put_head_ok major n s s' hm e' in
      let w' = put_ok body s' t k in
      (
        small,
        record {
          out = w'.out ∙ ap (λ o. o ++ body) w.out ∙ with_head_append major n s.out body;
          nodes = w'.nodes ∙ w.nodes;
          room = w'.room;
        },
      )

  utf8_ok :
      (o : Option (List ℕ)) (s t : Output)
      → put_utf8 max_bytes max_nodes o s ≡ ok t
      → (u : List ℕ) × (o ≡ some u)
        × (length u ≤ u64_max)
        × Wrote max_bytes (with_head 3 (length u) u) s t
  utf8_ok none s t e = cc
  utf8_ok (some u) s t e =
      let (small, w) = head_body_ok 3 (length u) u s t (omega arith) e in (u, refl, small, w)

  pub text_ok :
      (v : List ℕ) (s t : Output)
      → put_text max_bytes max_nodes v s ≡ ok t
      → IsCanonical (text v) × Wrote max_bytes (code (text v)) s t
  unfolding put_text code IsCanonical
  text_ok v s t e =
      let (short, k) = refuse_ok (ltb max_bytes (length v)) _ _ t e in
      let (u, encoded, small, w) = utf8_ok (utf8_encode v) s t k in
      let same : u ≡ utf8_bytes v = sym (utf8_bytes_ok v u encoded) in
      (
        (encoded ∙ ap some same, subst (λ x. length x ≤ u64_max) same small),
        subst (λ x. Wrote max_bytes (with_head 3 (length x) x) s t) same w,
      )

  -- What one call of the encoder promises.
  abbrev pub Sound : ℕ → (Value → Output → Result Output) → Type 0
  Sound lv item =
      (v : Value) (s t : Output)
      → IsObject v
      → item v s ≡ ok t
      → Written max_bytes max_nodes lv (normal v) s t

  pub record WrittenValues (lv : ℕ) (vs : Values) (s t : Output) : Type 0 where
    pub canonical : AllCanonical vs
    pub shallow : levels_values vs ≤ lv
    pub out : t.out ≡ s.out ++ code_values vs
    pub counted : t.nodes ≡ s.nodes + weight_values vs
    pub room : length t.out ≤ max_bytes
    pub budget : t.nodes ≤ max_nodes

  pub record WrittenFields (lv : ℕ) (j : Option ℕ) (fs : Fields) (s t : Output) : Type 0 where
    pub ascending : IsAscending j fs
    pub shallow : levels_fields fs ≤ lv
    pub out : t.out ≡ s.out ++ code_fields fs
    pub counted : t.nodes ≡ s.nodes + weight_fields fs
    pub room : length t.out ≤ max_bytes
    pub budget : t.nodes ≤ max_nodes

  module _ (lv : ℕ) (item : Value → Output → Result Output) (sound : Sound lv item) where
    pub items_ok :
        (vs : Values) (s t : Output)
        → AllObjects vs
        → length s.out ≤ max_bytes
        → s.nodes ≤ max_nodes
        → put_items max_bytes max_nodes item vs s ≡ ok t
        → WrittenValues lv (normal_values vs) s t
    unfolding put_items normal IsObject code weight levels IsCanonical
    items_ok nil s t h room budget e =
        let p : WrittenValues lv nil s s = record {
          canonical = tt;
          shallow = omega arith;
          out = sym (append-nil s.out);
          counted = omega arith;
          room = room;
          budget = budget;
        } in
        subst (WrittenValues lv nil s) (ok-injective e) p
    items_ok (cons v vs) s t h room budget e =
        let (s', first, k) = bind_ok (item v s) _ t e in
        let p = sound v s s' h.0 first in
        let q = items_ok vs s' t h.1 p.room p.budget k in
        record {
          canonical = (p.canonical, q.canonical);
          shallow = omega (arith, p.shallow, q.shallow);
          out =
              q.out
              ∙ ap (λ o. o ++ code_values (normal_values vs)) p.out
              ∙ append_assoc s.out (code (normal v)) (code_values (normal_values vs));
          counted = omega (arith, p.counted, q.counted);
          room = q.room;
          budget = q.budget;
        }

    pub fields_ok :
        (fs : Fields) (j : Option ℕ) (s t : Output)
        → KeysAscend j fs
        → AllValues fs
        → length s.out ≤ max_bytes
        → s.nodes ≤ max_nodes
        → put_fields max_bytes max_nodes item fs s ≡ ok t
        → WrittenFields lv j (normal_fields fs) s t
    unfolding put_fields normal IsObject code weight levels IsCanonical
    fields_ok end j s t a h room budget e =
        let p : WrittenFields lv j end s s = record {
          ascending = tt;
          shallow = omega arith;
          out = sym (append-nil s.out);
          counted = omega arith;
          room = room;
          budget = budget;
        } in
        subst (WrittenFields lv j end s) (ok-injective e) p
    fields_ok (field (nat k) v fs) j s t a h room budget e =
        let (s', first, k₁) = bind_ok (item (uint k) s) _ t e in
        let pk = sound (uint k) s s' tt first in
        let (s'', second, k₂) = bind_ok (item v s') _ t k₁ in
        let pv = sound v s' s'' h.0 second in
        let q = fields_ok fs (some k) s'' t a.2 h.1 pv.room pv.budget k₂ in
        record {
          ascending = (a.0, a.1, pv.canonical, q.ascending);
          shallow = omega (arith, pv.shallow, q.shallow);
          out =
              q.out
              ∙ ap (λ o. o ++ code_fields (normal_fields fs))
                  (pv.out ∙ ap (λ o. o ++ code (normal v)) pk.out)
              ∙ append_assoc (s.out ++ with_head 0 k []) (code (normal v))
                  (code_fields (normal_fields fs))
              ∙ append_assoc s.out (with_head 0 k [])
                  (code (normal v) ++ code_fields (normal_fields fs));
          counted = omega (arith, pk.counted, pv.counted, q.counted);
          room = q.room;
          budget = q.budget;
        }
    fields_ok (field (negative_key n) v fs) j s t a h room budget e = absurd a
    fields_ok (field other_key v fs) j s t a h room budget e = absurd a
