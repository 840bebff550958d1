-- ===== src/Wire/Framing/Stream.antt =====
-- The reader of framing.py on any input: it always answers, it keeps its buffer below the part
-- that it waits for, and after an error it is closed.
use mathlib.Core.Option
use peer_application_runtime.Base.{
  ℕ, zero, suc, ◌+◌, Option, some, none, ◌≤◌, ◌<◌, List, [], ◌∷◌, ◌≡◌, refl, subst, arith, ltb, leb,
  length, length-drop, drop, Bool-cases, inl, inr, ltb→lt, Bool, true, false, if◌then◌else◌, ap,
}
use peer_application_runtime.Wire.Error.{
  Result, ok, raised, Code, resource_limit, closed, clock, timeout, bind_ok, ok-injective,
}
use peer_application_runtime.Wire.Value.{Value}
use peer_application_runtime.Wire.Framing.{
  Reader, max_frame, target_of, close, decode_body, is_before, has_expired, feed, feed_at,
  feed_body, guarded, finish_part, finish_expected, next_round, Loop, part, filled, drain, fresh,
}

-- The part that the reader waits for is not yet complete, and no frame is longer than the limit.
pub record IsReader (r : Reader) : Type 0 where
  pub partial : length r.buffer < target_of r.expected
  pub bounded : target_of r.expected ≤ max_frame

close-IsReader : (r : Reader) → IsReader (close r)
unfolding close
close-IsReader r = record { partial = omega arith; bounded = omega arith }

pub fresh-IsReader : (timeout_after max_frames : ℕ) → IsReader (fresh timeout_after max_frames)
unfolding fresh
fresh-IsReader t m = record { partial = omega arith; bounded = omega arith }

module _ (validate : Value → Result (Unit {0})) where
  finish_expected-IsReader :
      (o : Option ℕ) (r s : Reader) (out out' : List Value)
      → finish_expected validate o r out ≡ ok (s, out')
      → IsReader s
  finish_expected-IsReader none r s out out' e = record {
    partial = ground arith;
    bounded = ground arith;
  }
  finish_expected-IsReader (some n) r s out out' e =
      let (value, _, k) = bind_ok (decode_body validate r.buffer) _ _ e in
      let p : IsReader (record r { buffer = []; expected = none; started = none }) = record {
        partial = omega arith;
        bounded = omega arith;
      } in
      subst (λ x. IsReader x.0) (ok-injective k) p

  -- The loop answers, and every reader that it returns waits for a part.
  abbrev Answers : Option (Result (Reader × List Value)) → Type 0
  Answers o =
      (x : Result (Reader × List Value)) × (o ≡ some x)
      × ((s : Reader) (out : List Value) → x ≡ ok (s, out) → IsReader s)

  raised-Answers : (c : Code) → Answers (some (raised c))
  raised-Answers c = (raised c, refl, λ s out e. cc)

  ok-Answers : (r : Reader) (out : List Value) → IsReader r → Answers (some (ok (r, out)))
  ok-Answers r out i = (ok (r, out), refl, λ s out' e. subst (λ x. IsReader x.0) (ok-injective e) i)

  next_round-Answers :
      (loop : Loop validate) (rest : List ℕ) (x : Result (Reader × List Value))
      → ((s : Reader) (out : List Value) → x ≡ ok (s, out) → Answers (loop rest s out))
      → Answers (next_round validate loop rest x)
  next_round-Answers loop rest (raised c) k = raised-Answers c
  next_round-Answers loop rest (ok (s, out)) k = k s out refl

  part_pos :
      (r : Reader) (b : ℕ) (bs : List ℕ)
      → IsReader r
      → length (drop (part r (b ∷ bs)) (b ∷ bs)) ≤ length bs
  unfolding part
  part_pos r b bs i = omega (arith, length-drop (part r (b ∷ bs)) (b ∷ bs), i.partial)

  drain-Answers :
      (fuel now : ℕ) (input : List ℕ) (r : Reader) (out : List Value)
      → length input ≤ fuel
      → IsReader r
      → Answers (drain validate fuel now input r out)
  unfolding drain finish_part
  drain-Answers fuel now [] r out h i = ok-Answers r out i
  drain-Answers zero now (b ∷ bs) r out h i = absurd (omega arith)
  drain-Answers (suc fuel) now (b ∷ bs) r out h i =
      elim (Bool-cases (leb r.max_frames (length out))) [
        | inl full ↦ rw full (raised-Answers resource_limit)
        | inr more ↦
            elim (Bool-cases (ltb (length (filled now (b ∷ bs) r).buffer) (target_of r.expected))) [
              | inl short ↦
                  rw (more, short)
                    (ok-Answers (filled now (b ∷ bs) r) out
                      (unfold filled in record { partial = ltb→lt _ _ short; bounded = i.bounded }))
              | inr whole ↦
                  rw (more, whole)
                    (next_round-Answers (drain validate fuel now) _ _ (λ s out' e.
                      drain-Answers fuel now _ s out' (omega (arith, part_pos r b bs i))
                        (finish_expected-IsReader _ _ s out out' e)))
            ]
      ]

  -- What one call of `feed` promises about the reader and the answer that it returns.
  pub record Fed (p : Reader × Result (List Value)) : Type 0 where
    pub keeps : IsReader p.0
    pub closes : (c : Code) → p.1 ≡ raised c → p.0.is_closed ≡ true

  guarded-Fed :
      (r : Reader) (x : Result (Reader × List Value))
      → ((s : Reader) (out : List Value) → x ≡ ok (s, out) → IsReader s)
      → Fed (guarded validate r x)
  unfolding guarded
  guarded-Fed r (ok (s, out)) k = record { keeps = k s out refl; closes = λ c e. cc }
  guarded-Fed r (raised c) k = record {
    keeps = close-IsReader r;
    closes = λ c e. unfold close in refl;
  }

  if-Answers :
      (b : Bool) (x y : Option (Result (Reader × List Value)))
      → Answers x
      → Answers y
      → Answers (if b then x else y)
  if-Answers true x y h k = h
  if-Answers false x y h k = k

  feed_body-Answers :
      (input : List ℕ) (now : ℕ) (r : Reader)
      → IsReader r
      → Answers (feed_body validate input now r)
  unfolding feed_body
  feed_body-Answers input now r i =
      if-Answers (has_expired r.timeout_after now r.started) _ _ (raised-Answers timeout) (
        if-Answers (ltb (max_frame + 4) (length input)) _ _ (raised-Answers resource_limit)
          (drain-Answers (length input) now input r [] (omega arith) i))

  Outcome : Option (Reader × Result (List Value)) → Type 0
  Outcome o = (p : Reader × Result (List Value)) × (o ≡ some p) × Fed p

  if-Outcome :
      (b : Bool) (x y : Option (Reader × Result (List Value)))
      → (b ≡ true → Outcome x)
      → Outcome y
      → Outcome (if b then x else y)
  if-Outcome true x y h k = h refl
  if-Outcome false x y h k = k

  closed-Outcome : (r : Reader) (c : Code) → Outcome (some (close r, raised c))
  unfolding Outcome close
  closed-Outcome r c =
      ((close r, raised c), refl, record { keeps = close-IsReader r; closes = λ d e. refl })

  kept-Outcome :
      (r : Reader) (c : Code) → IsReader r → r.is_closed ≡ true → Outcome (some (r, raised c))
  unfolding Outcome
  kept-Outcome r c i shut = ((r, raised c), refl, record { keeps = i; closes = λ d e. shut })

  feed_at-Outcome :
      (input : List ℕ) (now : ℕ) (r : Reader) → IsReader r → Outcome (feed_at validate input now r)
  unfolding feed_at
  feed_at-Outcome input now r i =
      let r' : Reader = record r { last = some now } in
      let (x, e, k) =
        feed_body-Answers input now r' (record { partial = i.partial; bounded = i.bounded }) in
      if-Outcome (is_before now r.last) _ _ (λ _. closed-Outcome r clock)
        (unfold Outcome in
          (guarded validate r' x, ap (Option.map (guarded validate r')) e, guarded-Fed r' x k))

  -- For every reader whose buffer is below the part that it waits for (`IsReader`, which a fresh
  -- reader is), every input and every clock, `feed` answers: its loop ends. The reader that it
  -- returns is such a reader again, and is closed if the answer is an error.
  pub feed_total :
      (input : List ℕ) (now : Option ℕ) (r : Reader)
      → IsReader r
      → (p : Reader × Result (List Value)) × (feed validate input now r ≡ some p) × Fed p
  unfolding feed Outcome
  feed_total input none r i =
      if-Outcome r.is_closed _ _ (λ shut. kept-Outcome r closed i shut) (closed-Outcome r clock)
  feed_total input (some now) r i =
      if-Outcome r.is_closed _ _ (λ shut. kept-Outcome r closed i shut)
        (feed_at-Outcome input now r i)
