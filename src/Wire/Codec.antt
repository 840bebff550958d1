-- ===== src/Wire/Codec.antt =====
-- What experiments/g0-wire/par_wire/codec.py promises: `encode` and `decode` agree, byte for byte,
-- and what they agree on is the canonical form of Wire/Canonical.
mod Tests
use peer_application_runtime.Base.{
  ℕ, suc, ◌+◌, ◌≤◌, List, [], ◌++◌, ◌≡◌, refl, ap, sym, ◌∙◌, length, arith, append-nil, All, ltb→le,
  ltb, le→ltb, ◌↔◌, subst,
}
use peer_application_runtime.Base.Bits.{IsByte}
use peer_application_runtime.Wire.Error.{Result, ok, ◌>>=◌, bind_ok, refuse_ok, ok-injective}
use peer_application_runtime.Wire.Value.{Value}
use peer_application_runtime.Wire.Encode.{max_depth, Output, put_item, encode}
use peer_application_runtime.Wire.Decode.{Input, read_item, at_end, decode}
use peer_application_runtime.Wire.Canonical.{code, positive, weight, levels, IsCanonical}
use peer_application_runtime.Wire.Canonical.Encoding.{put_item_lem}
use peer_application_runtime.Wire.Canonical.Reading.{read_item_lem}
use peer_application_runtime.Wire.Canonical.Parsing.{Parsed}
use peer_application_runtime.Wire.Normal.{normal, IsObject}
use peer_application_runtime.Wire.Normal.Objects.{put_item_ok}
use peer_application_runtime.Wire.Canonical.Majors.{read_item_ok}

-- An object that has a canonical form within the depth limit and the two budgets.
pub record IsEncodable (max_bytes max_nodes : ℕ) (v : Value) : Type 0 where
  pub canonical : IsCanonical v
  pub shallow : levels v ≤ suc max_depth
  pub fits : length (code v) ≤ max_bytes
  pub counted : weight v ≤ max_nodes

at_end_ok : (v w : Value) (rest : List ℕ) → at_end v rest ≡ ok w → (v ≡ w) × (rest ≡ [])
unfolding at_end
at_end_ok v w rest e = ground arith

module _ (max_bytes max_nodes : ℕ) where
  -- The encoder writes the canonical bytes of every object that has a canonical form and fits the
  -- depth limit, the byte budget and the node budget.
  pub encode-code :
      (v : Value) → IsEncodable max_bytes max_nodes v → encode max_bytes max_nodes v ≡ ok (code v)
  unfolding encode
  encode-code v h =
      rw
        (put_item_lem max_bytes max_nodes v (suc max_depth) [] 0 h.canonical h.shallow
          (omega (arith, h.fits)) (omega (arith, h.counted)))
        refl

  decode-code :
      (input : List ℕ) (v : Value)
      → IsEncodable max_bytes max_nodes v
      → code v ≡ input
      → decode max_bytes max_nodes input ≡ ok v
  unfolding decode
  decode-code input v q e =
      let read =
        read_item_lem max_bytes max_nodes v (suc max_depth) [] 0 q.canonical q.shallow q.fits
          (omega (arith, q.counted)) in
      subst (λ l. decode max_bytes max_nodes l ≡ ok v) (append-nil (code v) ∙ e)
        (rw
          (
            le→ltb max_bytes (length (code v ++ []))
                (omega (arith, ap length (append-nil (code v)), q.fits)),
            read,
          )
          (unfold at_end in refl))

  -- The decoder accepts exactly the canonical bytes of the objects that have a canonical form
  -- within the depth limit and the two budgets, and returns that object.
  pub decode-iff-code :
      (input : List ℕ) (v : Value)
      → All IsByte input
      → (decode max_bytes max_nodes input ≡ ok v)
        ↔ (IsEncodable max_bytes max_nodes v × (code v ≡ input))
  unfolding decode
  decode-iff-code input v h = (accepted, λ r. decode-code input v r.0 r.1)
    where
      accepted :
          decode max_bytes max_nodes input ≡ ok v
          → IsEncodable max_bytes max_nodes v × (code v ≡ input)
      accepted e =
          let (short, k) = refuse_ok (ltb max_bytes (length input)) _ _ v e in
          let ((w, t), read, k') =
            bind_ok
              (read_item max_bytes max_nodes (suc max_depth) (record { rest = input; nodes = 0 })) _
              v k in
          let (same, done) = at_end_ok w v t.rest k' in
          let p = read_item_ok max_bytes max_nodes (suc max_depth) _ t w h read in
          let whole : input ≡ code w = p.split ∙ ap (λ r. code w ++ r) done ∙ append-nil (code w) in
          let q : IsEncodable max_bytes max_nodes w × (code w ≡ input) = (
            record {
              canonical = p.canonical;
              shallow = p.shallow;
              fits = omega (arith, ap length whole, ltb→le max_bytes (length input) short);
              counted = omega (arith, p.counted, p.budget);
            },
            sym whole,
          ) in
          subst (λ x. IsEncodable max_bytes max_nodes x × (code x ≡ input)) same q

  -- Whatever bytes the decoder accepts, encoding the object that it returns gives those bytes
  -- back, under the same budgets: no two inputs stand for one object.
  pub encode-decode :
      (input : List ℕ) (v : Value)
      → All IsByte input
      → decode max_bytes max_nodes input ≡ ok v
      → encode max_bytes max_nodes v ≡ ok input
  encode-decode input v h e =
      let (q, same) = (decode-iff-code input v h).0 e in encode-code v q ∙ ap ok same

  -- Whatever object the encoder accepts, its dicts having distinct keys, decoding the bytes that
  -- it writes gives the object back, with the items of its dicts in ascending order.
  pub decode-encode :
      (v : Value) (bs : List ℕ)
      → IsObject v
      → encode max_bytes max_nodes v ≡ ok bs
      → decode max_bytes max_nodes bs ≡ ok (normal v)
  unfolding encode
  decode-encode v bs h e =
      let start : Output = record { out = []; nodes = 0 } in
      let (t, written, k) = bind_ok (put_item max_bytes max_nodes (suc max_depth) v start) _ bs e in
      let p = put_item_ok max_bytes max_nodes (suc max_depth) v start t h written in
      let whole : code (normal v) ≡ bs = sym p.out ∙ ok-injective k in
      decode-code bs (normal v)
        (record {
          canonical = p.canonical;
          shallow = p.shallow;
          fits = omega (arith, p.room, ap length p.out);
          counted = omega (arith, p.counted, p.budget);
        })
        whole

  -- What the encoder returns is not empty, and fits the byte budget.
  pub encode_size :
      (v : Value) (bs : List ℕ)
      → IsObject v
      → encode max_bytes max_nodes v ≡ ok bs
      → (1 ≤ length bs) × (length bs ≤ max_bytes)
  unfolding encode
  encode_size v bs h e =
      let start : Output = record { out = []; nodes = 0 } in
      let (t, written, k) = bind_ok (put_item max_bytes max_nodes (suc max_depth) v start) _ bs e in
      let p = put_item_ok max_bytes max_nodes (suc max_depth) v start t h written in
      let some_byte = positive (normal v) p.canonical in
      let same = ap length (ok-injective k) in
      (omega (arith, ap length p.out), omega (arith, p.room))

  -- What the decoder accepts is not empty, and fits the byte budget.
  pub decode_size :
      (input : List ℕ) (v : Value)
      → All IsByte input
      → decode max_bytes max_nodes input ≡ ok v
      → (1 ≤ length input) × (length input ≤ max_bytes)
  decode_size input v h e =
      let (q, same) = (decode-iff-code input v h).0 e in
      let some_byte = positive v q.canonical in
      (omega (arith, ap length same), omega (arith, ap length same, q.fits))
