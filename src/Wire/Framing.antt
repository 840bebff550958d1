-- ===== src/Wire/Framing.antt =====
-- experiments/g0-wire/par_wire/framing.py: frame boundaries, and the incremental reader.
--
-- `validate` is `validate_frame` of schema.py. A time is a number of clock ticks; `none` stands
-- for a `now` that is no finite number. The default `time.monotonic()` is the caller's argument.
-- `validate` raises nothing but a WireError, which the frame grammar guarantees: every key that
-- the checks behind it read is one that the grammar requires.
pub mod Stream
pub mod RoundTrip
mod Tests
use Prim.Native.Nat.{min}
use mathlib.Core.Option
use peer_application_runtime.Base.{
  ℕ, zero, suc, ◌+◌, ◌-◌, ◌*◌, List, [], ◌∷◌, ◌++◌, Bool, true, false, not, ◌&&◌, ◌||◌, Option,
  none, some, ltb, leb, ◌==◌, if◌then◌else◌, length, take, drop,
}
use peer_application_runtime.Base.Bits.{to_bytes, from_bytes}
use peer_application_runtime.Wire.Error.{
  Result, ok, raised, ◌>>=◌, ◌>>◌, refuse, truncated, length as bad_length, closed, clock, timeout,
  resource_limit,
}
use peer_application_runtime.Wire.Value.{Value}
use peer_application_runtime.Wire.Encode.{encode, default_max_bytes, default_max_nodes}
use peer_application_runtime.Wire.Decode.{decode}

abbrev pub max_frame : ℕ
max_frame = 1048576

-- The state of a `FrameReader`.
pub record Reader : Type 0 where
  pub timeout_after : ℕ
  pub max_frames : ℕ
  pub buffer : List ℕ
  pub expected : Option ℕ
  pub started : Option ℕ
  pub last : Option ℕ
  pub is_closed : Bool

unfoldable pub fresh : ℕ → ℕ → Reader
fresh timeout_after max_frames = record {
  timeout_after = timeout_after;
  max_frames = max_frames;
  buffer = [];
  expected = none;
  started = none;
  last = none;
  is_closed = false;
}

-- `_close`.
unfoldable pub close : Reader → Reader
close r = record r { is_closed = true; buffer = []; expected = none; started = none }

-- `self._last is not None and now < self._last`.
abbrev pub is_before : ℕ → Option ℕ → Bool
is_before now none = false
is_before now (some last) = ltb now last

-- `self._started is not None and now - self._started >= self.timeout`.
abbrev pub has_expired : ℕ → ℕ → Option ℕ → Bool
has_expired timeout_after now none = false
has_expired timeout_after now (some started) = leb (started + timeout_after) now

abbrev pub started_at : ℕ → Option ℕ → Option ℕ
started_at now none = some now
started_at now (some t) = some t

abbrev pub is_some {ℓ} : {A : Type ℓ} → Option A → Bool
is_some none = false
is_some (some a) = true

abbrev pub target_of : Option ℕ → ℕ
target_of none = 4
target_of (some n) = n

-- `count`: what is missing of the part, or what is there.
unfoldable pub part : Reader → List ℕ → ℕ
part r input = min (target_of r.expected - length r.buffer) (length input)

-- The clock of a part starts at its first byte; the buffer takes `count` bytes.
unfoldable pub filled : ℕ → List ℕ → Reader → Reader
filled now input r = record r {
  buffer = r.buffer ++ take (part r input) input;
  started = started_at now r.started;
}

module _ (validate : Value → Result (Unit {0})) where
  unfoldable pub encode_frame : Value → Result (List ℕ)
  encode_frame frame = do
    validate frame
    body ← encode default_max_bytes default_max_nodes frame
    ok (to_bytes 4 (length body) ++ body)

  -- `codec.decode(…); validate_frame(value)`.
  unfoldable pub decode_body : List ℕ → Result Value
  decode_body body = do
    value ← decode default_max_bytes default_max_nodes body
    validate value
    ok value

  unfoldable pub decode_frame : List ℕ → Result Value
  decode_frame wire = do
    refuse (ltb (length wire) 4) truncated
    let n = from_bytes (take 4 wire)
    refuse (not (leb 1 n && leb n max_frame) || not (length wire == 4 + n)) bad_length
    decode_body (drop 4 wire)

  abbrev pub finish_expected : Option ℕ → Reader → List Value → Result (Reader × List Value)
  finish_expected none r out =
      let n = from_bytes r.buffer in
      if leb 1 n && leb n max_frame
      then ok (record r { buffer = []; expected = some n }, out)
      else raised bad_length
  finish_expected (some n) r out = do
    value ← decode_body r.buffer
    ok (record r { buffer = []; expected = none; started = none }, out ++ value ∷ [])

  -- A part is complete: the length of a frame, or its body.
  unfoldable pub finish_part : Reader → List Value → Result (Reader × List Value)
  finish_part r out = finish_expected r.expected r out

  abbrev pub Loop : Type 0
  Loop = List ℕ → Reader → List Value → Option (Result (Reader × List Value))

  abbrev pub next_round :
      Loop → List ℕ → Result (Reader × List Value) → Option (Result (Reader × List Value))
  next_round loop rest (raised c) = some (raised c)
  next_round loop rest (ok (r, out)) = loop rest r out

  -- `while pos < len(data)`, on the bytes behind `pos`. Every round takes a byte, so the length of
  -- the input is fuel enough; `none` would be a loop that the fuel did not suffice for.
  unfoldable pub drain : ℕ → ℕ → Loop
  drain fuel now [] r out = some (ok (r, out))
  drain zero now (b ∷ bs) r out = none
  drain (suc fuel) now (b ∷ bs) r out =
      let r' = filled now (b ∷ bs) r in
      if leb r.max_frames (length out)
      then some (raised resource_limit)
      else if ltb (length r'.buffer) (target_of r.expected)
      then some (ok (r', out))
      else next_round (drain fuel now) (drop (part r (b ∷ bs)) (b ∷ bs)) (finish_part r' out)

  -- The `try` block of `feed` behind the clock check, `_last` being set.
  unfoldable pub feed_body : List ℕ → ℕ → Reader → Option (Result (Reader × List Value))
  feed_body input now r =
      if has_expired r.timeout_after now r.started
      then some (raised timeout)
      else if ltb (max_frame + 4) (length input)
      then some (raised resource_limit)
      else drain (length input) now input r []

  -- `except WireError: self._close(); raise`.
  unfoldable pub guarded : Reader → Result (Reader × List Value) → Reader × Result (List Value)
  guarded r (ok (r', out)) = (r', ok out)
  guarded r (raised c) = (close r, raised c)

  unfoldable pub feed_at : List ℕ → ℕ → Reader → Option (Reader × Result (List Value))
  feed_at input now r =
      let r' = record r { last = some now } in
      if is_before now r.last
      then some (close r, raised clock)
      else Option.map (guarded r') (feed_body input now r')

  unfoldable pub feed : List ℕ → Option ℕ → Reader → Option (Reader × Result (List Value))
  feed input none r = if r.is_closed then some (r, raised closed) else some (close r, raised clock)
  feed input (some now) r = if r.is_closed then some (r, raised closed) else feed_at input now r

-- `finish`.
unfoldable pub finish : Reader → Reader × Result (Unit {0})
finish r =
    if r.is_closed
    then (r, raised closed)
    else (close r, refuse (not (length r.buffer == 0) || is_some r.expected) truncated)
