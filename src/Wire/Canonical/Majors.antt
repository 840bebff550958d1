-- ===== src/Wire/Canonical/Majors.antt =====
-- One item of codec.py's decoder, by its major type: what it has read is the canonical form of the
-- object that it returns.
use peer_application_runtime.Base.{
  ℕ, zero, suc, ◌+◌, ◌*◌, ◌≤◌, ◌<◌, List, [], ◌∷◌, ◌++◌, ◌≡◌, refl, ap, ap₂, ==_iff, subst₂, sym,
  ◌∙◌, Bool, true, false, Option, none, some, length, arith, append_assoc, append-nil, ltb, ltb→le,
  ◌==◌, Bool-cases, inl, inr, All, subst, ◌⊎◌, if◌then◌else◌,
}
use peer_application_runtime.Base.Bits.{IsByte, low_bits}
use peer_application_runtime.Wire.Error.{Result, ok, raised, Code, bind_ok, refuse_ok, ok-injective}
use peer_application_runtime.Wire.Value.{Value, null, bool, uint, bytes, text, array, dict}
use peer_application_runtime.Wire.Utf8.{utf8_encode, utf8_decode}
use peer_application_runtime.Wire.Utf8.RoundTrip.{utf8_encode-utf8_decode}
use peer_application_runtime.Wire.Head.{u64_max, argument, take_bytes, major_of, low_of}
use peer_application_runtime.Wire.Head.RoundTrip.{first, more, argument_ok, take_bytes_ok}
use peer_application_runtime.Wire.Decode.{
  Input, take_initial, simple, read_items, read_fields, decoded_text, known_major, check_needed,
  read_major, read_initial, read_value, read_item,
}
use peer_application_runtime.Wire.Canonical.{
  code, code_values, code_fields, weight, levels, utf8_bytes, with_head, IsCanonical,
}
use peer_application_runtime.Wire.Canonical.Parsing.{
  Parsed, Bytes-rest, read_items_ok, read_fields_ok,
}

known_cases : (m : ℕ) → known_major m ≡ true → (m ≡ 0) ⊎ ((m ≡ 2) ⊎ ((m ≡ 3) ⊎ ((m ≡ 4) ⊎ (m ≡ 5))))
known_cases m h = ground arith

if_ok :
    {A : Type 0} (t : Bool) (c : Code) (k : Result A) (a : A)
    → (if t then raised c else k) ≡ ok a
    → (t ≡ false) × (k ≡ ok a)
if_ok true c k a e = cc
if_ok false c k a e = (refl, e)

decoded_ok :
    (o : Option (List ℕ)) (rest : List ℕ) (nodes : ℕ) (r : Value × Input)
    → decoded_text o rest nodes ≡ ok r
    → (t : List ℕ) × (o ≡ some t)
      × ◌≡◌ {A = Value × Input} (text t, record { rest = rest; nodes = nodes }) r
decoded_ok none rest nodes r e = cc
decoded_ok (some t) rest nodes r e = (t, refl, ok-injective e)

utf8_bytes_ok : (t u : List ℕ) → utf8_encode t ≡ some u → utf8_bytes t ≡ u
unfolding utf8_bytes
utf8_bytes_ok t u e = rw (e, utf8_bytes)

-- One item of each major type, its head read before.
module _ (max_bytes max_nodes lv : ℕ) (item : Input → Result (Value × Input))
    (sound : (s t : Input) (v : Value)
      → All IsByte s.rest
      → item s ≡ ok (v, t)
      → Parsed max_nodes lv v s t)
    (n : ℕ) (small : n ≤ u64_max) (rest : List ℕ) (h : All IsByte rest) (nodes : ℕ)
    (room : nodes + 1 ≤ max_nodes) where
  abbrev start : ℕ → Input
  start major = record { rest = with_head major n [] ++ rest; nodes = nodes }

  abbrev Outcome : ℕ → Value × Input → Type 0
  Outcome major r = Parsed max_nodes (suc lv) r.0 (start major) r.1

  abbrev Reads : ℕ → Type 0
  Reads major =
      (r : Value × Input)
      → read_major max_bytes max_nodes item major n (record { rest = rest; nodes = nodes + 1 })
        ≡ ok r
      → Outcome major r

  head_split :
      (major : ℕ) (body tail : List ℕ)
      → rest ≡ body ++ tail
      → with_head major n [] ++ rest ≡ with_head major n body ++ tail
  head_split major body tail e =
      ap (λ r. with_head major n [] ++ r) e
      ∙ sym (append_assoc (with_head major n []) body tail)
      ∙ ap (λ m. (first major n ∷ (m ++ body)) ++ tail) (append-nil (more n))

  uint_ok : Reads 0
  unfolding read_major weight levels code IsCanonical
  uint_ok r e =
      let p : Outcome 0 (uint n, record { rest = rest; nodes = nodes + 1 }) = record {
        canonical = small;
        shallow = omega arith;
        split = refl;
        counted = omega arith;
        budget = room;
      } in
      subst (Outcome 0) (ok-injective e) p

  bytes_ok : Reads 2
  unfolding read_major weight levels code IsCanonical
  bytes_ok r e =
      let (few, k) = if_ok (ltb max_bytes n) _ _ _ e in
      let ((b, rest'), took, k') = bind_ok (take_bytes n rest) _ _ k in
      let (split, len) = take_bytes_ok n rest b rest' took in
      let p : Outcome 2 (bytes b, record { rest = rest'; nodes = nodes + 1 }) = record {
        canonical = omega arith;
        shallow = omega arith;
        split = head_split 2 b rest' split ∙ ap (λ k. with_head 2 k b ++ rest') (sym len);
        counted = omega arith;
        budget = room;
      } in
      subst (Outcome 2) (ok-injective k') p

  text_ok : Reads 3
  unfolding read_major weight levels code IsCanonical utf8_bytes
  text_ok r e =
      let (few, k) = if_ok (ltb max_bytes n) _ _ _ e in
      let ((u, rest'), took, k') = bind_ok (take_bytes n rest) _ _ k in
      let (split, len) = take_bytes_ok n rest u rest' took in
      let (t, decoded, k'') = decoded_ok (utf8_decode u) rest' (nodes + 1) r k' in
      let (encoded, _) = utf8_encode-utf8_decode u t decoded in
      let same = utf8_bytes_ok t u encoded in
      let p : Outcome 3 (text t, record { rest = rest'; nodes = nodes + 1 }) = record {
        canonical = (encoded ∙ ap some (sym same), omega (arith, ap length same));
        shallow = omega arith;
        split =
            head_split 3 u rest' split
            ∙ ap₂ (λ k w. with_head 3 k w ++ rest') (sym (ap length same ∙ len)) (sym same);
        counted = omega arith;
        budget = room;
      } in
      subst (Outcome 3) k'' p

  array_ok : Reads 4
  unfolding read_major check_needed weight levels code IsCanonical
  array_ok r e =
      let (few, k) = if_ok (ltb max_bytes n) _ _ _ e in
      let (_, _, k') = bind_ok (check_needed max_bytes max_nodes (n * 1) _) _ _ k in
      let ((vs, t), e', k'') = bind_ok (read_items item n _) _ _ k' in
      let q = read_items_ok max_nodes lv item sound n _ t vs h room e' in
      let p : Outcome 4 (array vs, t) = record {
        canonical = (omega (arith, q.len), q.canonical);
        shallow = omega (arith, q.shallow);
        split =
            head_split 4 (code_values vs) t.rest q.split
            ∙ ap (λ k. with_head 4 k (code_values vs) ++ t.rest) (sym q.len);
        counted = omega (arith, q.counted);
        budget = q.budget;
      } in
      subst (Outcome 4) (ok-injective k'') p

  dict_ok : Reads 5
  unfolding read_major check_needed weight levels code IsCanonical
  dict_ok r e =
      let (few, k) = if_ok (ltb max_bytes n) _ _ _ e in
      let (_, _, k') = bind_ok (check_needed max_bytes max_nodes (n * 2) _) _ _ k in
      let ((fs, t), e', k'') = bind_ok (read_fields item n none _) _ _ k' in
      let q = read_fields_ok max_nodes lv item sound n none _ t fs h room e' in
      let p : Outcome 5 (dict fs, t) = record {
        canonical = (omega (arith, q.len), q.ascending);
        shallow = omega (arith, q.shallow);
        split =
            head_split 5 (code_fields fs) t.rest q.split
            ∙ ap (λ k. with_head 5 k (code_fields fs) ++ t.rest) (sym q.len);
        counted = omega (arith, q.counted);
        budget = q.budget;
      } in
      subst (Outcome 5) (ok-injective k'') p

  known_ok : (major : ℕ) → known_major major ≡ true → Reads major
  known_ok major known = elim (known_cases major known) [
    | inl e ↦ subst Reads (sym e) uint_ok
    | inr (inl e) ↦ subst Reads (sym e) bytes_ok
    | inr (inr (inl e)) ↦ subst Reads (sym e) text_ok
    | inr (inr (inr (inl e))) ↦ subst Reads (sym e) array_ok
    | inr (inr (inr (inr e))) ↦ subst Reads (sym e) dict_ok
  ]

simple_cases :
    (b : ℕ) (v : Value)
    → b < 256
    → major_of b ≡ 7
    → simple (low_of b) ≡ ok v
    → ((bool false ≡ v) × (0xf4 ≡ b)) ⊎ (((bool true ≡ v) × (0xf5 ≡ b)) ⊎ ((null ≡ v) × (0xf6 ≡ b)))
unfolding simple
simple_cases b v hb hm e = ground (arith, low_bits b)

module _ (max_nodes lv : ℕ) (rest : List ℕ) (nodes : ℕ) (room : nodes + 1 ≤ max_nodes) where
  abbrev Constant : Value → ℕ → Type 0
  Constant v b =
      Parsed max_nodes (suc lv) v (record { rest = b ∷ rest; nodes = nodes })
        (record { rest = rest; nodes = nodes + 1 })

  simple-Constant :
      (v : Value) (b : ℕ)
      → code v ≡ b ∷ []
      → IsCanonical v
      → levels v ≡ 1
      → weight v ≡ 1
      → Constant v b
  simple-Constant v b c h l w = record {
    canonical = h;
    shallow = omega arith;
    split = ap (λ k. k ++ rest) (sym c);
    counted = omega arith;
    budget = room;
  }

  simple_ok :
      (b : ℕ) (v : Value) → b < 256 → major_of b ≡ 7 → simple (low_of b) ≡ ok v → Constant v b
  unfolding code IsCanonical levels weight
  simple_ok b v hb hm e = elim (simple_cases b v hb hm e) [
    | inl (ev, eb) ↦ subst₂ Constant ev eb (simple-Constant (bool false) 0xf4 refl tt refl refl)
    | inr (inl (ev, eb)) ↦
        subst₂ Constant ev eb (simple-Constant (bool true) 0xf5 refl tt refl refl)
    | inr (inr (ev, eb)) ↦ subst₂ Constant ev eb (simple-Constant null 0xf6 refl tt refl refl)
  ]

raised-ne-ok : {A : Type 0} {c : Code} {a : A} → raised c ≡ ok a → ⊥
raised-ne-ok e = cc

take_initial_ok :
    (input : List ℕ) (b : ℕ) (rest : List ℕ) → take_initial input ≡ ok (b, rest) → input ≡ b ∷ rest
unfolding take_initial
take_initial_ok [] b rest e = cc
take_initial_ok (c ∷ cs) b rest e = ground arith

module _ (max_bytes max_nodes : ℕ) where
  -- Any item: the initial byte, then its major type.
  initial_ok :
      (lv : ℕ) (item : Input → Result (Value × Input))
      → ((s t : Input) (v : Value)
          → All IsByte s.rest
          → item s ≡ ok (v, t)
          → Parsed max_nodes lv v s t)
      → (b : ℕ) (rest : List ℕ) (nodes : ℕ) (r : Value × Input) → b < 256
      → All IsByte rest
      → nodes + 1 ≤ max_nodes
      → read_initial max_bytes max_nodes item b (record { rest = rest; nodes = nodes + 1 }) ≡ ok r
      → Parsed max_nodes (suc lv) r.0 (record { rest = b ∷ rest; nodes = nodes }) r.1
  unfolding read_initial
  initial_ok lv item sound b rest nodes r hb h room e = elim (Bool-cases (major_of b == 7)) [
    | inl seven ↦
        let (v, e', k) = bind_ok (simple (low_of b)) _ r (rw seven at e) in
        subst (λ q. Parsed max_nodes (suc lv) q.0 (record { rest = b ∷ rest; nodes = nodes }) q.1)
          (ok-injective k) (simple_ok max_nodes lv rest nodes room b v hb ((==_iff _ _).0 seven) e')
    | inr other ↦ elim (Bool-cases (known_major (major_of b))) [
      | inl known ↦
          let ((n, rest'), took, k) =
            bind_ok (argument (low_of b) rest) _ r (rw (other, known) at e) in
          let (low_eq, split, small) = argument_ok (low_of b) n rest rest' h took in
          let major = major_of b in
          let first_eq : first major n ≡ b = omega (arith, low_bits b hb) in
          let whole : with_head major n [] ++ rest' ≡ b ∷ rest =
            ap₂ (λ x y. x ∷ y) first_eq (ap (λ m. m ++ rest') (append-nil (more n)) ∙ sym split) in
          let h' = Bytes-rest (more n) rest' rest split h in
          subst (λ l. Parsed max_nodes (suc lv) r.0 (record { rest = l; nodes = nodes }) r.1) whole
            (known_ok max_bytes max_nodes lv item sound n small rest' h' nodes room major known r k)
      | inr unknown ↦ absurd (raised-ne-ok (rw (other, unknown) at e))
    ]
  ]

  -- Every level: the decoder accepts nothing but canonical forms.
  pub read_item_ok :
      (lv : ℕ) (s t : Input) (v : Value)
      → All IsByte s.rest
      → read_item max_bytes max_nodes lv s ≡ ok (v, t)
      → Parsed max_nodes lv v s t
  unfolding read_item read_value take_initial
  read_item_ok zero s t v h e = cc
  read_item_ok (suc lv) s t v h e =
      let (room, k) = refuse_ok (ltb max_nodes (s.nodes + 1)) _ _ _ e in
      let ((b, rest), took, k') = bind_ok (take_initial s.rest) _ (v, t) k in
      let split = take_initial_ok s.rest b rest took in
      let (hb, h') = subst (All IsByte) split h in
      subst (λ l. Parsed max_nodes (suc lv) v (record { rest = l; nodes = s.nodes }) t) (sym split)
        (initial_ok lv (read_item max_bytes max_nodes lv) (read_item_ok lv) b rest s.nodes (v, t) hb
          h' (ltb→le _ _ room) k')
