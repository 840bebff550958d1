-- ===== src/Subscriptions/Presence.antt =====
-- `PresenceHints` of subscriptions.py. A reading of the clock is an argument of each call: `none` where the
-- clock raises or gives no natural number. The owner checks are left out.
pub mod Limits
mod Tests
use peer_application_runtime.Base.{
  ℕ, ◌+◌, List, [], ◌∷◌, Bool, true, false, not, ◌&&◌, ◌||◌, Option, none, some, leb, ltb, ◌==◌,
  if◌then◌else◌, length,
}
use peer_application_runtime.Base.Bytes.{Bytes, bytes_eq, lookup, has_entry, put}
use peer_application_runtime.Base.Fallible.{Fallible, done, failed, demand, ◌>>=◌, ◌>>◌}

-- The codes of `SubscriptionError` here.
pub data Code : Type 0 where
  invalid_input resource_limit clock_uncertain session_mismatch stale_hint hint_conflict : Code

abbrev pub Outcome : Type 0 → Type 0
Outcome A = Fallible Code A

pub record Hint : Type 0 where
  pub sequence : ℕ
  pub value : Bytes
  pub expiry : ℕ
  pub ttl : ℕ

-- A session, and its hint if one has come.
pub record Row : Type 0 where
  pub session : Bytes
  pub hint : Option Hint

pub record Presence : Type 0 where
  pub limit : ℕ
  pub peers : List (Bytes × Row)
  pub now : Option ℕ
  pub uncertain : Bool

pub data View : Type 0 where
  recent_state_unknown : View
  recent_hint : ℕ → Bytes → View

abbrev pub max_ttl : ℕ
max_ttl = 60000000000

abbrev pub is_uint : ℕ → Bool
is_uint n = ltb n 18446744073709551616

unfoldable pub create : ℕ → Outcome Presence
create limit = do
  demand (leb 1 limit && leb limit 1024) invalid_input
  done (record { limit = limit; peers = []; now = none; uncertain = false })

abbrev pub goes_back : Option ℕ → ℕ → Bool
goes_back none n = false
goes_back (some before) n = ltb n before

-- `_time`.
unfoldable pub time : Option ℕ → Presence → Presence × Outcome ℕ
time reading s = if s.uncertain then (s, failed clock_uncertain) else elim reading [
  | none ↦ (record s { uncertain = true }, failed clock_uncertain)
  | some n ↦
      if goes_back s.now n
      then (record s { uncertain = true; peers = [] }, failed clock_uncertain)
      else (record s { now = some n }, done n)
]

abbrev pub has_session : Bytes → Option Row → Bool
has_session session none = false
has_session session (some row) = bytes_eq row.session session

-- `activate` at a time that has been read.
unfoldable pub activate_now : Bytes → Bytes → Presence → Presence × Outcome (Unit {0})
activate_now peer session s =
    if has_entry (lookup peer s.peers) || ltb (length s.peers) s.limit
    then (if has_session session (lookup peer s.peers) then (s, done tt) else (
      record s { peers = put peer (record { session = session; hint = none }) s.peers },
      done tt,
    ))
    else (s, failed resource_limit)

unfoldable pub activate : Bytes → Bytes → Option ℕ → Presence → Presence × Outcome (Unit {0})
activate peer session reading s =
    if length peer == 32 && length session == 16
    then elim (time reading s).1 [
      | failed e ↦ ((time reading s).0, failed e)
      | done n ↦ activate_now peer session (time reading s).0
    ]
    else (s, failed invalid_input)

-- The tests of `update` against the hint before; `true` if the new one is to be kept.
unfoldable pub check_hint : ℕ → Bytes → ℕ → Option Hint → Outcome Bool
check_hint sequence value ttl none = done true
check_hint sequence value ttl (some old) = do
  demand (leb old.sequence sequence) stale_hint
  elim (sequence == old.sequence) [
    | true ↦ demand (bytes_eq value old.value && ttl == old.ttl) hint_conflict >> done false
    | false ↦ done true
  ]

unfoldable pub check_row : Bytes → ℕ → Bytes → ℕ → Option Row → Outcome Bool
check_row session sequence value ttl none = failed session_mismatch
check_row session sequence value ttl (some row) = do
  demand (bytes_eq row.session session) session_mismatch
  check_hint sequence value ttl row.hint

abbrev pub hint_at : ℕ → ℕ → Bytes → ℕ → Hint
hint_at n sequence value ttl = record {
  sequence = sequence;
  value = value;
  expiry = n + ttl;
  ttl = ttl;
}

unfoldable pub update_now :
    ℕ → Bytes → Bytes → ℕ → Bytes → ℕ → Presence → Presence × Outcome (Unit {0})
update_now n peer session sequence value ttl s =
    elim (check_row session sequence value ttl (lookup peer s.peers)) [
      | failed e ↦ (s, failed e)
      | done keep ↦
          if keep
          then (
            record s {
              peers =
                  put peer
                    (record { session = session; hint = some (hint_at n sequence value ttl) })
                    s.peers;
            },
            done tt,
          )
          else (s, done tt)
    ]

unfoldable pub check_update : Bytes → Bytes → ℕ → Bytes → ℕ → Outcome (Unit {0})
check_update peer session sequence value ttl = do
  demand (length peer == 32 && length session == 16 && is_uint sequence) invalid_input
  demand (leb (length value) 4096) resource_limit
  demand (leb 1 ttl && leb ttl max_ttl) invalid_input

unfoldable pub update :
    Bytes → Bytes → ℕ → Bytes → ℕ → Option ℕ → Presence → Presence × Outcome (Unit {0})
update peer session sequence value ttl reading s =
    elim (check_update peer session sequence value ttl) [
      | failed e ↦ (s, failed e)
      | done u ↦ elim (time reading s).1 [
        | failed e ↦ ((time reading s).0, failed e)
        | done n ↦ update_now n peer session sequence value ttl (time reading s).0
      ]
    ]

abbrev pub view_of : ℕ → Option Row → View
view_of n none = recent_state_unknown
view_of n (some row) = elim row.hint [
  | none ↦ recent_state_unknown
  | some h ↦ if leb h.expiry n then recent_state_unknown else recent_hint h.sequence h.value
]

unfoldable pub get : Bytes → Option ℕ → Presence → Presence × Outcome View
get peer reading s =
    if length peer == 32
    then elim (time reading s).1 [
      | failed e ↦ ((time reading s).0, failed e)
      | done n ↦ ((time reading s).0, done (view_of n (lookup peer (time reading s).0.peers)))
    ]
    else (s, failed invalid_input)

-- `self._peers.pop(peer,None)`.
unfoldable pub drop_peer : Bytes → List (Bytes × Row) → List (Bytes × Row)
drop_peer peer [] = []
drop_peer peer ((k, row) ∷ m) = if bytes_eq k peer then m else (k, row) ∷ drop_peer peer m

unfoldable pub forget : Bytes → Presence → Presence × Outcome (Unit {0})
forget peer s =
    if length peer == 32
    then (record s { peers = drop_peer peer s.peers }, done tt)
    else (s, failed invalid_input)

pub data Call : Type 0 where
  activating : Bytes → Bytes → Option ℕ → Call
  updating : Bytes → Bytes → ℕ → Bytes → ℕ → Option ℕ → Call
  getting : Bytes → Option ℕ → Call
  forgetting : Bytes → Call

unfoldable pub call : Call → Presence → Presence
call (activating peer session reading) s = (activate peer session reading s).0
call (updating peer session sequence value ttl reading) s =
    (update peer session sequence value ttl reading s).0
call (getting peer reading) s = (get peer reading s).0
call (forgetting peer) s = (forget peer s).0

unfoldable pub calls : List Call → Presence → Presence
calls [] s = s
calls (c ∷ cs) s = calls cs (call c s)
