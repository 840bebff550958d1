-- ===== src/Subscriptions/Latest.antt =====
-- `LatestSnapshot` of subscriptions.py. A dispatch is two steps, before and after the callback, so that the
-- callback may publish, dispatch and close in between. The owner checks are left out.
pub mod Ascending
mod Tests
use peer_application_runtime.Base.{
  ℕ, ◌+◌, List, [], ◌∷◌, Bool, true, false, not, ◌&&◌, ◌||◌, Option, none, some, leb, ltb, ◌==◌,
  if◌then◌else◌, length,
}
use peer_application_runtime.Base.Bytes.{Bytes, bytes_eq}
use peer_application_runtime.Base.Fallible.{Fallible, done, failed, demand, ◌>>=◌, ◌>>◌}

-- The codes of `SubscriptionError` here.
pub data Code : Type 0 where
  invalid_input closed_already resource_limit stale_snapshot snapshot_conflict reentrant_dispatch :
      Code

abbrev pub Outcome : Type 0 → Type 0
Outcome A = Fallible Code A

pub record Snapshot : Type 0 where
  pub revision : ℕ
  pub value : Bytes

pub record Latest : Type 0 where
  pub closed : Bool
  pub dispatching : Bool
  pub last : Option Snapshot
  pub pending : Option Snapshot

-- What `dispatch` returns, or the snapshot that it calls the callback with.
pub data Dispatch : Type 0 where
  was_closed idle : Dispatch
  calling : Snapshot → Dispatch

-- `uint`.
abbrev pub is_uint : ℕ → Bool
is_uint n = ltb n 18446744073709551616

-- `self._last=item;self._pending=item`.
unfoldable pub accept : Snapshot → Latest → Latest
accept item s = record s { last = some item; pending = some item }

-- The tests against `_last`.
unfoldable pub follow : Option Snapshot → Snapshot → Latest → Outcome Latest
follow none item s = done (accept item s)
follow (some before) item s = do
  demand (leb before.revision item.revision) stale_snapshot
  elim (item.revision == before.revision) [
    | true ↦ demand (bytes_eq item.value before.value) snapshot_conflict >> done s
    | false ↦ done (accept item s)
  ]

unfoldable pub publish : ℕ → Bytes → Latest → Outcome Latest
publish revision value s = do
  demand (not s.closed) closed_already
  demand (is_uint revision) invalid_input
  demand (leb (length value) 65536) resource_limit
  follow s.last (record { revision = revision; value = value }) s

abbrev pub take_pending : Option Snapshot → Latest → Latest × Dispatch
take_pending none s = (s, idle)
take_pending (some item) s = (record s { pending = none; dispatching = true }, calling item)

-- `dispatch` up to the callback.
unfoldable pub begin_dispatch : Latest → Outcome (Latest × Dispatch)
begin_dispatch s = do
  demand (not s.dispatching) reentrant_dispatch
  done (if s.closed then (s, was_closed) else take_pending s.pending s)

-- Its `finally`, whether the callback raises or not.
unfoldable pub end_dispatch : Latest → Latest
end_dispatch s = record s { dispatching = false }

unfoldable pub close : Latest → Latest
close s = record s { closed = true; pending = none; last = none }

unfoldable pub create : ℕ → Bytes → Outcome Latest
create revision value =
    publish revision value
      (record { closed = false; dispatching = false; last = none; pending = none })

pub data Step : Type 0 where
  publishing : ℕ → Bytes → Step
  beginning ending closing : Step

abbrev pub kept : Latest → Outcome Latest → Latest
kept s (done t) = t
kept s (failed e) = s

-- The state after a step, and the snapshot that it delivers, if any; a step that raises changes nothing.
abbrev pub delivered : Latest → Outcome (Latest × Dispatch) → Latest × Option Snapshot
delivered s (failed e) = (s, none)
delivered s (done (t, calling item)) = (t, some item)
delivered s (done (t, was_closed)) = (t, none)
delivered s (done (t, idle)) = (t, none)

unfoldable pub step : Step → Latest → Latest × Option Snapshot
step (publishing revision value) s = (kept s (publish revision value s), none)
step beginning s = delivered s (begin_dispatch s)
step ending s = (end_dispatch s, none)
step closing s = (close s, none)

abbrev pub with_first : Option Snapshot → List Snapshot → List Snapshot
with_first none items = items
with_first (some item) items = item ∷ items

-- The snapshots that the callback is called with.
unfoldable pub deliveries : List Step → Latest → List Snapshot
deliveries [] s = []
deliveries (c ∷ cs) s = with_first (step c s).1 (deliveries cs (step c s).0)
