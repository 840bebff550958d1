-- ===== src/Wire/Replay.antt =====
-- `ReplayWindow` of experiments/g0-wire/par_wire/negotiation.py: a bounded filter of digests seen
-- within the last `ttl`. A time is the position of its value among the finite numbers, in ascending
-- order, of all the times that occur: the code only compares times, except for one sum. A `now`
-- that is no finite number is `none`.
pub mod NoReplay
pub mod Bound
mod Tests
use peer_application_runtime.Base.{
  ℕ, ◌+◌, List, [], ◌∷◌, ◌++◌, Bool, true, false, not, Option, none, some, ltb, leb, ◌==◌,
  if◌then◌else◌, length,
}
use peer_application_runtime.Base.Bytes.{Bytes, lookup, has_entry}
use peer_application_runtime.Wire.Error.{Result, ok, raised, schema, clock, replay, resource_limit}
use peer_application_runtime.Wire.Framing.{is_before}

pub record Window : Type 0 where
  pub capacity : ℕ
  pub ttl : ℕ
  pub entries : List (Bytes × ℕ)
  pub last : Option ℕ

-- `{key: expiry … if expiry > now}`.
unfoldable pub prune : ℕ → List (Bytes × ℕ) → List (Bytes × ℕ)
prune now [] = []
prune now ((k, expiry) ∷ m) = if ltb now expiry then (k, expiry) ∷ prune now m else prune now m

-- `sum` is the sum of two times as Python adds them: a float sum is rounded.
module _ (sum : ℕ → ℕ → ℕ) where
  -- The entries have been pruned and the clock set.
  unfoldable pub admit : Bytes → ℕ → Window → Window × Result (Unit {0})
  admit digest now w =
      if has_entry (lookup digest w.entries)
      then (w, raised replay)
      else if leb w.capacity (length w.entries)
      then (w, raised resource_limit)
      else (record w { entries = w.entries ++ (digest, sum now w.ttl) ∷ [] }, ok tt)

  unfoldable pub remember : Bytes → Option ℕ → Window → Window × Result (Unit {0})
  remember digest none w = if length digest == 32 then (w, raised clock) else (w, raised schema)
  remember digest (some now) w =
      if not (length digest == 32)
      then (w, raised schema)
      else if is_before now w.last
      then (w, raised clock)
      else admit digest now (record w { last = some now; entries = prune now w.entries })

  -- Any number of calls, their answers aside.
  unfoldable pub run : List (Bytes × Option ℕ) → Window → Window
  run [] w = w
  run ((digest, now) ∷ calls) w = run calls (remember digest now w).0
