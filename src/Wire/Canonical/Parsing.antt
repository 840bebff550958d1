-- ===== src/Wire/Canonical/Parsing.antt =====
-- The decoder of codec.py accepts nothing but canonical forms: what it has read is the canonical
-- form of the object that it returns.
use peer_application_runtime.Base.{
  ℕ, zero, suc, ◌+◌, ◌≤◌, List, [], ◌++◌, ◌≡◌, refl, ap, sym, ◌∙◌, false, Option, none, some, arith,
  append_assoc, All, All-append, subst,
}
use peer_application_runtime.Base.Bits.{IsByte}
use peer_application_runtime.Wire.Error.{Result, ok, bind_ok, refuse_ok, ok-injective}
use peer_application_runtime.Wire.Value.{
  nat, Value, uint, Values, nil, cons, Fields, end, field, len_values, len_fields,
}
use peer_application_runtime.Wire.Decode.{Input, read_items, as_key, out_of_order, read_fields}
use peer_application_runtime.Wire.Canonical.{
  code, code_values, code_fields, weight, weight_values, weight_fields, levels, levels_values,
  levels_fields, with_head, Follows, IsCanonical, AllCanonical, IsAscending,
}

-- What one call of the decoder promises about the object `v` that it read from `s` up to `t`.
pub record Parsed (max_nodes lv : ℕ) (v : Value) (s t : Input) : Type 0 where
  pub canonical : IsCanonical v
  pub shallow : levels v ≤ lv
  pub split : s.rest ≡ code v ++ t.rest
  pub counted : t.nodes ≡ s.nodes + weight v
  pub budget : t.nodes ≤ max_nodes

pub record ParsedValues (max_nodes lv : ℕ) (n : ℕ) (vs : Values) (s t : Input) : Type 0 where
  pub canonical : AllCanonical vs
  pub len : len_values vs ≡ n
  pub shallow : levels_values vs ≤ lv
  pub split : s.rest ≡ code_values vs ++ t.rest
  pub counted : t.nodes ≡ s.nodes + weight_values vs
  pub budget : t.nodes ≤ max_nodes

pub record ParsedFields (max_nodes lv : ℕ) (n : ℕ) (j : Option ℕ) (fs : Fields) (s t : Input)
    : Type 0 where
  pub ascending : IsAscending j fs
  pub len : len_fields fs ≡ n
  pub shallow : levels_fields fs ≤ lv
  pub split : s.rest ≡ code_fields fs ++ t.rest
  pub counted : t.nodes ≡ s.nodes + weight_fields fs
  pub budget : t.nodes ≤ max_nodes

pub Bytes-rest : (xs ys zs : List ℕ) → zs ≡ xs ++ ys → All IsByte zs → All IsByte ys
Bytes-rest xs ys zs e h = (All-append IsByte xs ys (subst (All IsByte) e h)).1

module _ {max_nodes lv : ℕ} {s s' t : Input} where
  cons_Parsed :
      (n : ℕ) (v : Value) (vs : Values)
      → Parsed max_nodes lv v s s'
      → ParsedValues max_nodes lv n vs s' t
      → ParsedValues max_nodes lv (suc n) (cons v vs) s t
  unfolding code weight levels IsCanonical
  cons_Parsed n v vs p q = record {
    canonical = (p.canonical, q.canonical);
    len = ap suc q.len;
    shallow = omega (arith, p.shallow, q.shallow);
    split =
        p.split
        ∙ ap (λ r. code v ++ r) q.split
        ∙ sym (append_assoc (code v) (code_values vs) t.rest);
    counted = omega (arith, p.counted, q.counted);
    budget = q.budget;
  }

  field_Parsed :
      {s'' : Input} (n : ℕ) (j : Option ℕ) (k : ℕ) (v : Value) (fs : Fields)
      → Follows j k
      → Parsed max_nodes lv (uint k) s s'
      → Parsed max_nodes lv v s' s''
      → ParsedFields max_nodes lv n (some k) fs s'' t
      → ParsedFields max_nodes lv (suc n) j (field (nat k) v fs) s t
  unfolding code weight levels IsCanonical
  field_Parsed n j k v fs follows pk pv q = record {
    ascending = (follows, pk.canonical, pv.canonical, q.ascending);
    len = ap suc q.len;
    shallow = omega (arith, pv.shallow, q.shallow);
    split =
        pk.split
        ∙ ap (λ r. with_head 0 k [] ++ r)
            (pv.split
              ∙ ap (λ r. code v ++ r) q.split
              ∙ sym (append_assoc (code v) (code_fields fs) t.rest))
        ∙ sym (append_assoc (with_head 0 k []) (code v ++ code_fields fs) t.rest);
    counted = omega (arith, pk.counted, pv.counted, q.counted);
    budget = q.budget;
  }

as_key_ok : (v : Value) (k : ℕ) → as_key v ≡ ok k → v ≡ uint k
unfolding as_key
as_key_ok v k e = ground arith

order_Follows : (j : Option ℕ) (k : ℕ) → out_of_order k j ≡ false → Follows j k
unfolding out_of_order
order_Follows none k e = tt
order_Follows (some j) k e = ground arith

module _ (max_nodes lv : ℕ) (item : Input → Result (Value × Input))
    (sound : (s t : Input) (v : Value)
      → All IsByte s.rest
      → item s ≡ ok (v, t)
      → Parsed max_nodes lv v s t) where
  pub read_items_ok :
      (n : ℕ) (s t : Input) (vs : Values)
      → All IsByte s.rest
      → s.nodes ≤ max_nodes
      → read_items item n s ≡ ok (vs, t)
      → ParsedValues max_nodes lv n vs s t
  unfolding read_items weight levels code IsCanonical
  read_items_ok zero s t nil h b e = record {
    canonical = tt;
    len = refl;
    shallow = omega arith;
    split = ground arith;
    counted = ground arith;
    budget = ground arith;
  }
  read_items_ok zero s t (cons v vs) h b e = cc
  read_items_ok (suc n) s t vs h b e =
      let ((v, s'), e₁, k₁) = bind_ok (item s) _ _ e in
      let p = sound s s' v h e₁ in
      let h' = Bytes-rest (code v) s'.rest s.rest p.split h in
      let ((tail, t'), e₂, k₂) = bind_ok (read_items item n s') _ _ k₁ in
      let q = read_items_ok n s' t' tail h' p.budget e₂ in
      let same = ok-injective k₂ in
      subst (λ r. ParsedValues max_nodes lv (suc n) r.0 s r.1) same (cons_Parsed n v tail p q)

  pub read_fields_ok :
      (n : ℕ) (j : Option ℕ) (s t : Input) (fs : Fields)
      → All IsByte s.rest
      → s.nodes ≤ max_nodes
      → read_fields item n j s ≡ ok (fs, t)
      → ParsedFields max_nodes lv n j fs s t
  unfolding read_fields weight levels code IsCanonical
  read_fields_ok zero j s t end h b e = record {
    ascending = tt;
    len = refl;
    shallow = omega arith;
    split = ground arith;
    counted = ground arith;
    budget = ground arith;
  }
  read_fields_ok zero j s t (field k v fs) h b e = cc
  read_fields_ok (suc n) j s t fs h b e =
      let ((kv, s'), e₁, k₁) = bind_ok (item s) _ _ e in
      let (k, e₂, k₂) = bind_ok (as_key kv) _ _ k₁ in
      let (ordered, k₃) = refuse_ok (out_of_order k j) _ _ _ k₂ in
      let pk = sound s s' (uint k) h (e₁ ∙ ap (λ w. ok (w, s')) (as_key_ok kv k e₂)) in
      let h' = Bytes-rest (code (uint k)) s'.rest s.rest pk.split h in
      let ((v, s''), e₄, k₄) = bind_ok (item s') _ _ k₃ in
      let pv = sound s' s'' v h' e₄ in
      let h'' = Bytes-rest (code v) s''.rest s'.rest pv.split h' in
      let ((tail, t'), e₅, k₅) = bind_ok (read_fields item n (some k) s'') _ _ k₄ in
      let q = read_fields_ok n (some k) s'' t' tail h'' pv.budget e₅ in
      subst (λ r. ParsedFields max_nodes lv (suc n) j r.0 s r.1) (ok-injective k₅)
        (field_Parsed n j k v tail (order_Follows j k ordered) pk pv q)
