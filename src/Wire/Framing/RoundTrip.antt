-- ===== src/Wire/Framing/RoundTrip.antt =====
-- A frame is its own boundary: framing.py reads back what it wrote, one frame by `decode_frame`,
-- and any sequence of frames by the incremental reader.
use peer_application_runtime.Base.{
  ℕ, suc, ◌+◌, ◌-◌, ◌≤◌, ◌<◌, List, map, [], ◌∷◌, ◌++◌, false, Option, none, some, ◌≡◌, refl, ap,
  ap₂, sym, subst, ◌∙◌, arith, ltb, leb, length, length-append, take, drop, take-append,
  drop-append, append_assoc, append-nil, le→ltb, All,
}
use peer_application_runtime.Base.Bits.{to_bytes, from_bytes, length-to_bytes, from_bytes-to_bytes}
use peer_application_runtime.Wire.Error.{Result, ok, ◌>>=◌, bind_ok, ok-injective}
use peer_application_runtime.Wire.Value.{Value}
use peer_application_runtime.Wire.Encode.{encode, default_max_bytes, default_max_nodes}
use peer_application_runtime.Wire.Normal.{normal, IsObject}
use peer_application_runtime.Wire.Codec.{decode-encode, encode_size}
use peer_application_runtime.Wire.Framing.{
  Reader, max_frame, target_of, started_at, decode_body, finish_part, next_round, part, filled,
  drain, encode_frame, decode_frame, is_before, feed, feed_at, feed_body, guarded,
}

module _ (validate : Value → Result (Unit {0})) where
  -- What a successful `encode_frame` has written.
  record Framed (frame : Value) (wire : List ℕ) : Type 0 where
    body : List ℕ
    split : wire ≡ to_bytes 4 (length body) ++ body
    not_empty : 1 ≤ length body
    small : length body ≤ max_frame
    reads : decode_body validate body ≡ ok (normal frame)

  encode_frame-Framed :
      (frame : Value) (wire : List ℕ)
      → IsObject frame
      → validate (normal frame) ≡ ok tt
      → encode_frame validate frame ≡ ok wire
      → Framed frame wire
  unfolding encode_frame decode_body
  encode_frame-Framed frame wire h valid e =
      let (_, _, k) = bind_ok (validate frame) _ wire e in
      let (body, encoded, k') =
        bind_ok (encode default_max_bytes default_max_nodes frame) _ wire k in
      let (lo, hi) = encode_size default_max_bytes default_max_nodes frame body h encoded in
      record {
        body = body;
        split = sym (ok-injective k');
        not_empty = lo;
        small = hi;
        reads =
            rw (decode-encode default_max_bytes default_max_nodes frame body h encoded)
              (rw valid refl);
      }

  -- One frame, alone.
  decode_frame-Framed :
      (frame : Value) (wire : List ℕ)
      → Framed frame wire
      → decode_frame validate wire ≡ ok (normal frame)
  unfolding decode_frame
  decode_frame-Framed frame wire f =
      let n = length f.body in
      let four = length-to_bytes 4 n in
      let len : length wire ≡ 4 + n =
        ap length f.split ∙ length-append (to_bytes 4 n) f.body ∙ ap (λ k. k + n) four in
      let head : take 4 wire ≡ to_bytes 4 n =
        ap (take 4) f.split
        ∙ subst (λ k. take k (to_bytes 4 n ++ f.body) ≡ to_bytes 4 n) four
            (take-append (to_bytes 4 n) f.body) in
      let tail : drop 4 wire ≡ f.body =
        ap (drop 4) f.split
        ∙ subst (λ k. drop k (to_bytes 4 n ++ f.body) ≡ f.body) four
            (drop-append (to_bytes 4 n) f.body) in
      let value : from_bytes (to_bytes 4 n) ≡ n =
        from_bytes-to_bytes 4 n (omega (arith, f.small)) in
      rw (head, tail, value, f.reads) (rw len (ground (arith, f.not_empty, f.small)))

  length_frame : (frame : Value) (wire : List ℕ) → Framed frame wire → 5 ≤ length wire
  length_frame frame wire f =
      let n = length f.body in
      omega (
        arith,
        ap length f.split,
        length-append (to_bytes 4 n) f.body,
        length-to_bytes 4 n,
        f.not_empty,
      )

  -- A Python frame that is valid whatever the order of the items of its dicts.
  abbrev pub IsSendable : Value → Type 0
  IsSendable frame = IsObject frame × (validate (normal frame) ≡ ok tt)

  -- The bytes of frames, one behind the other, as a sender writes them.
  unfoldable pub encode_all : List Value → Result (List ℕ)
  encode_all [] = ok []
  encode_all (frame ∷ frames) = do
    wire ← encode_frame validate frame
    stream ← encode_all frames
    ok (wire ++ stream)

  -- The bytes that complete a part are those that the loop takes.
  part_complete :
      (xs rest : List ℕ) (r : Reader)
      → length r.buffer + length xs ≡ target_of r.expected
      → part r (xs ++ rest) ≡ length xs
  unfolding part
  part_complete xs rest r e = omega (arith, length-append xs rest)

  filled_complete :
      (now : ℕ) (xs rest : List ℕ) (r : Reader)
      → length r.buffer + length xs ≡ target_of r.expected
      → filled now (xs ++ rest) r
        ≡ record r { buffer = r.buffer ++ xs; started = started_at now r.started }
  unfolding filled
  filled_complete now xs rest r e =
      ap (λ k. record r { buffer = r.buffer ++ k; started = started_at now r.started })
        (ap (λ k. take k (xs ++ rest)) (part_complete xs rest r e) ∙ take-append xs rest)

  dropped_complete :
      (xs rest : List ℕ) (r : Reader)
      → length r.buffer + length xs ≡ target_of r.expected
      → drop (part r (xs ++ rest)) (xs ++ rest) ≡ rest
  dropped_complete xs rest r e =
      ap (λ k. drop k (xs ++ rest)) (part_complete xs rest r e) ∙ drop-append xs rest

  drain_cons :
      (fuel now b : ℕ) (bs : List ℕ) (r : Reader) (out : List Value)
      → leb r.max_frames (length out) ≡ false
      → ltb (length (filled now (b ∷ bs) r).buffer) (target_of r.expected) ≡ false
      → drain validate (suc fuel) now (b ∷ bs) r out
        ≡ next_round validate
            (drain validate fuel now)
            (drop (part r (b ∷ bs)) (b ∷ bs))
            (finish_part validate (filled now (b ∷ bs) r) out)
  unfolding drain
  drain_cons fuel now b bs r out few whole = rw few (rw whole refl)

  -- One round of the loop on a part that is complete with `xs`.
  drain_round :
      (fuel now : ℕ) (xs rest : List ℕ) (r : Reader) (out : List Value)
      → length r.buffer + length xs ≡ target_of r.expected
      → 1 ≤ length xs
      → length out < r.max_frames
      → drain validate (suc fuel) now (xs ++ rest) r out
        ≡ next_round validate (drain validate fuel now) rest (
            finish_part validate
              (record r { buffer = r.buffer ++ xs; started = started_at now r.started })
              out)
  drain_round fuel now [] rest r out e h few = absurd (omega arith)
  drain_round fuel now (x ∷ xs) rest r out e h few =
      let r' : Reader = record r {
        buffer = r.buffer ++ x ∷ xs;
        started = started_at now r.started;
      } in
      let whole : length r'.buffer ≡ target_of r.expected = length-append r.buffer (x ∷ xs) ∙ e in
      let not_full : leb r.max_frames (length out) ≡ false = ground arith in
      drain_cons fuel now x (xs ++ rest) r out not_full (
        ap (λ q. ltb (length q.buffer) (target_of r.expected))
          (filled_complete now (x ∷ xs) rest r e)
        ∙ le→ltb _ _ (omega arith))
      ∙ ap₂ (λ l q. next_round validate (drain validate fuel now) l (finish_part validate q out))
          (dropped_complete (x ∷ xs) rest r e) (filled_complete now (x ∷ xs) rest r e)

  -- The reader between two frames, and behind the length of a frame of `n` bytes.
  module _ (timeout_after max_frames : ℕ) (last : Option ℕ) where
    abbrev pub idle : Reader
    idle = record {
      timeout_after = timeout_after;
      max_frames = max_frames;
      buffer = [];
      expected = none;
      started = none;
      last = last;
      is_closed = false;
    }

    abbrev reading : ℕ → ℕ → Reader
    reading now n = record idle { expected = some n; started = some now }

    length_part :
        (now n : ℕ) (out : List Value)
        → 1 ≤ n
        → n ≤ max_frame
        → finish_part validate (record idle { buffer = to_bytes 4 n; started = some now }) out
          ≡ ok (reading now n, out)
    unfolding finish_part
    length_part now n out lo hi =
        let value : from_bytes (to_bytes 4 n) ≡ n = from_bytes-to_bytes 4 n (omega arith) in
        rw value (ground arith)

    body_part :
        (now : ℕ) (frame : Value) (wire : List ℕ) (f : Framed frame wire) (out : List Value)
        → finish_part validate (record (reading now (length f.body)) { buffer = f.body }) out
          ≡ ok (idle, out ++ normal frame ∷ [])
    unfolding finish_part
    body_part now frame wire f out = rw f.reads refl

    frame_step :
        (frame : Value) (wire rest : List ℕ) (f : Framed frame wire) (fuel now : ℕ)
        (out : List Value)
        → length out < max_frames
        → drain validate (suc (suc fuel)) now (wire ++ rest) idle out
          ≡ drain validate fuel now rest idle (out ++ normal frame ∷ [])
    frame_step frame wire rest f fuel now out few =
        let n = length f.body in
        let four = length-to_bytes 4 n in
        ap (λ l. drain validate (suc (suc fuel)) now l idle out)
          (ap (λ w. w ++ rest) f.split ∙ append_assoc (to_bytes 4 n) f.body rest)
        ∙ drain_round (suc fuel) now (to_bytes 4 n) (f.body ++ rest) idle out (omega (arith, four))
            (omega (arith, four)) few
        ∙ ap (next_round validate (drain validate (suc fuel) now) (f.body ++ rest))
            (length_part now n out f.not_empty f.small)
        ∙ drain_round fuel now f.body rest (reading now n) out (omega arith) f.not_empty few
        ∙ ap (next_round validate (drain validate fuel now) rest) (body_part now frame wire f out)

    drain-encode_all :
        (frames : List Value) (stream : List ℕ) (fuel now : ℕ) (out : List Value)
        → All IsSendable frames
        → encode_all frames ≡ ok stream
        → length stream ≤ fuel
        → length out + length frames ≤ max_frames
        → drain validate fuel now stream idle out ≡ some (ok (idle, out ++ map normal frames))
    unfolding encode_all drain
    drain-encode_all [] stream fuel now out h e size few =
        subst (λ l. drain validate fuel now l idle out ≡ some (ok (idle, out ++ [])))
          (ok-injective e) (ap (λ o. some (ok (idle, o))) (sym (append-nil out)))
    drain-encode_all (frame ∷ frames) stream fuel now out h e size few =
        let (wire, written, k) = bind_ok (encode_frame validate frame) _ stream e in
        let (tail, more, k') = bind_ok (encode_all frames) _ stream k in
        let f = encode_frame-Framed frame wire h.0.0 h.0.1 written in
        let len = length_frame frame wire f in
        let same = ok-injective k' in
        let total = ap length same in
        let parts = length-append wire tail in
        let grown = length-append out (normal frame ∷ []) in
        let fuel_eq : suc (suc (fuel - 2)) ≡ fuel = omega arith in
        subst
          (λ l.
            drain validate fuel now l idle out
            ≡ some (ok (idle, out ++ map normal (frame ∷ frames))))
          same
          (subst
            (λ k.
              drain validate k now (wire ++ tail) idle out
              ≡ some (ok (idle, out ++ map normal (frame ∷ frames))))
            fuel_eq
            (frame_step frame wire tail f (fuel - 2) now out (omega arith)
              ∙ drain-encode_all frames tail (fuel - 2) now (out ++ normal frame ∷ []) h.1 more
                  (omega arith) (omega arith)
              ∙ ap (λ o. some (ok (idle, o)))
                  (append_assoc out (normal frame ∷ []) (map normal frames))))

  -- `decode_frame` returns the frame that `encode_frame` wrote, with the items of its dicts in
  -- ascending order, if the frame's dicts have distinct keys and the reordered frame is valid too.
  pub decode_frame-encode_frame :
      (frame : Value) (wire : List ℕ)
      → IsSendable frame
      → encode_frame validate frame ≡ ok wire
      → decode_frame validate wire ≡ ok (normal frame)
  decode_frame-encode_frame frame wire h e =
      decode_frame-Framed frame wire (encode_frame-Framed frame wire h.0 h.1 e)

  -- An open reader that waits between two frames is fed, in one call and by a clock that has not
  -- gone back since its last call, the bytes that `encode_frame` wrote for a sequence of frames.
  -- The frames are no more than its batch limit, the bytes are within the input limit, and every
  -- frame is sendable: its dicts have distinct keys, and with their items in ascending order it is
  -- valid. Then it answers with exactly those frames, in order and with their dicts' items in
  -- ascending order, and waits between two frames again, with the clock's time as its last.
  pub feed-encode_all :
      (timeout_after max_frames now : ℕ) (last : Option ℕ) (frames : List Value) (stream : List ℕ)
      → All IsSendable frames
      → encode_all frames ≡ ok stream
      → length frames ≤ max_frames
      → length stream ≤ max_frame + 4
      → is_before now last ≡ false
      → feed validate stream (some now) (idle timeout_after max_frames last)
        ≡ some (idle timeout_after max_frames (some now), ok (map normal frames))
  unfolding feed feed_at feed_body guarded
  feed-encode_all t m now last frames stream h e few size onward =
      let run =
        drain-encode_all t m (some now) frames stream (length stream) now [] h e (omega arith)
          (omega arith) in
      rw onward (rw (le→ltb (max_frame + 4) (length stream) size) (rw run refl))
