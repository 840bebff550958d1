-- ===== src/Lifecycle/Record.antt =====
-- Records of contracts.py: `validate_record` and its parts. The types of the fields are those that the
-- schema checks ask for.
pub mod Find
pub mod Same
use peer_application_runtime.Base.{
  ℕ, List, [], ◌∷◌, ◌++◌, map, Bool, true, false, not, ◌&&◌, ◌||◌, Option, none, some, leb, ◌==◌,
  if◌then◌else◌, length, drop, ◌+◌,
}
use peer_application_runtime.Base.Bytes.{bytes_eq, contains}
use peer_application_runtime.Base.Text.{Str, codes, str_lt, starts_with, is_hex64}
use peer_application_runtime.Base.Fallible.{demand, ◌>>◌}
use peer_application_runtime.Lifecycle.Json.{
  Outcome, schema, Json, number, string, object_of, array_of, optional,
}

pub data Kind : Type 0 where
  job control submission : Kind

pub data State : Type 0 where
  queued validated prepared executing outcome_unknown retry_ready succeeded cancelled : State
  inflight accepted : State
  receiving ready registered intent payload_removed tombstoned : State

pub record Record : Type 0 where
  pub key : Str
  pub kind : Kind
  pub local_id : Str
  pub state : State
  pub intent_digest : Str
  pub input_digest : Str
  pub proof_digest : Str
  pub refs : List Str
  pub evidence_digest : Option Str
  pub storage_bytes : ℕ
  pub reserved_bytes : ℕ

abbrev pub max_storage : ℕ
max_storage = 134217728

abbrev pub kind_name : Kind → Str
kind_name job = codes "job"
kind_name control = codes "control"
kind_name submission = codes "submission"

abbrev pub state_name : State → Str
state_name queued = codes "QUEUED"
state_name validated = codes "VALIDATED"
state_name prepared = codes "PREPARED"
state_name executing = codes "EXECUTING"
state_name outcome_unknown = codes "OUTCOME_UNKNOWN"
state_name retry_ready = codes "RETRY_READY"
state_name succeeded = codes "SUCCEEDED"
state_name cancelled = codes "CANCELLED"
state_name inflight = codes "INFLIGHT"
state_name accepted = codes "ACCEPTED"
state_name receiving = codes "RECEIVING"
state_name ready = codes "READY"
state_name registered = codes "REGISTERED"
state_name intent = codes "INTENT"
state_name payload_removed = codes "PAYLOAD_REMOVED"
state_name tombstoned = codes "TOMBSTONED"

-- `STATES`.
unfoldable pub has_state : Kind → State → Bool
has_state job queued = true
has_state job validated = true
has_state job prepared = true
has_state job executing = true
has_state job outcome_unknown = true
has_state job retry_ready = true
has_state job succeeded = true
has_state job cancelled = true
has_state control inflight = true
has_state control accepted = true
has_state control outcome_unknown = true
has_state submission receiving = true
has_state submission ready = true
has_state submission inflight = true
has_state submission retry_ready = true
has_state submission registered = true
has_state submission intent = true
has_state submission payload_removed = true
has_state submission tombstoned = true
has_state _ _ = false

-- `TERMINAL`.
unfoldable pub is_terminal : Kind → State → Bool
is_terminal job succeeded = true
is_terminal job cancelled = true
is_terminal control accepted = true
is_terminal submission tombstoned = true
is_terminal _ _ = false

abbrev pub is_succeeded : State → Bool
is_succeeded succeeded = true
is_succeeded _ = false

abbrev pub is_job : Kind → Bool
is_job job = true
is_job _ = false

abbrev pub is_control : Kind → Bool
is_control control = true
is_control _ = false

abbrev pub is_submission : Kind → Bool
is_submission submission = true
is_submission _ = false

abbrev pub is_some {ℓ} : {A : Type ℓ} → Option A → Bool
is_some none = false
is_some (some a) = true

abbrev pub same : Bool → Bool → Bool
same true b = b
same false b = not b

-- `kind:` and 64 hexadecimal digits.
unfoldable pub is_tagged : Str → Str → Bool
is_tagged tag s = starts_with (tag ++ 58 ∷ []) s && is_hex64 (drop (length tag + 1) s)

-- `ref_key`.
unfoldable pub is_ref_key : Str → Bool
is_ref_key s =
    is_tagged (codes "job") s
    || is_tagged (codes "control") s
    || is_tagged (codes "submission") s
    || is_tagged (codes "evidence") s
    || is_tagged (codes "policy") s

unfoldable pub all_ref_keys : List Str → Bool
all_ref_keys [] = true
all_ref_keys (s ∷ ss) = is_ref_key s && all_ref_keys ss

-- `v == sorted(set(v))`: strictly ascending.
unfoldable pub is_ascending : List Str → Bool
is_ascending [] = true
is_ascending (s ∷ []) = true
is_ascending (s ∷ t ∷ ss) = str_lt s t && is_ascending (t ∷ ss)

-- How many of the references are to jobs.
unfoldable pub job_refs : List Str → List Str
job_refs [] = []
job_refs (s ∷ ss) = if starts_with (codes "job:") s then s ∷ job_refs ss else job_refs ss

abbrev pub digest_or : Option Str → Str
digest_or none = []
digest_or (some d) = d

-- `a` implies `b`: `if a: require(b)`.
abbrev pub when : Bool → Bool → Bool
when true b = b
when false b = true

unfoldable pub validate_record : Record → Outcome (Unit {0})
validate_record r = do
  demand
      (is_hex64 r.local_id
        && is_hex64 r.intent_digest
        && is_hex64 r.input_digest
        && is_hex64 r.proof_digest)
      schema
  demand (bytes_eq r.key (kind_name r.kind ++ 58 ∷ r.local_id)) schema
  demand (has_state r.kind r.state) schema
  demand (leb r.storage_bytes max_storage && leb r.reserved_bytes max_storage) schema
  demand (when (is_some r.evidence_digest) (is_hex64 (digest_or r.evidence_digest))) schema
  demand (when (is_job r.kind) (same (is_some r.evidence_digest) (is_succeeded r.state))) schema
  demand (when (is_control r.kind) (not (is_some r.evidence_digest))) schema
  demand (leb (length r.refs) 16) schema
  demand (all_ref_keys r.refs) schema
  demand (is_ascending r.refs) schema
  demand (not (contains r.key r.refs)) schema
  demand
      (when (is_job r.kind && is_succeeded r.state)
        (contains (codes "evidence:" ++ digest_or r.evidence_digest) r.refs))
      schema
  demand (when (is_control r.kind) (length (job_refs r.refs) == 1)) schema
  demand (when (is_submission r.kind && is_some r.evidence_digest) (length (job_refs r.refs) == 1))
      schema

unfoldable pub record_json : Record → Json
record_json r = object_of (
    (codes "key", string r.key)
    ∷ (codes "kind", string (kind_name r.kind))
    ∷ (codes "local_id", string r.local_id)
    ∷ (codes "state", string (state_name r.state))
    ∷ (codes "intent_digest", string r.intent_digest)
    ∷ (codes "input_digest", string r.input_digest)
    ∷ (codes "proof_digest", string r.proof_digest)
    ∷ (codes "refs", array_of (map string r.refs))
    ∷ (codes "evidence_digest", optional r.evidence_digest)
    ∷ (codes "storage_bytes", number r.storage_bytes)
    ∷ (codes "reserved_bytes", number r.reserved_bytes)
    ∷ [])

-- Lists of records by their keys.
unfoldable pub find : Str → List Record → Option Record
find k [] = none
find k (r ∷ rs) = if bytes_eq r.key k then some r else find k rs

abbrev pub keys_of : List Record → List Str
keys_of rs = map (λ r. r.key) rs

-- `sorted(…, key=lambda r: r['key'])`, which keeps the order of equal keys.
unfoldable pub insert : Record → List Record → List Record
insert r [] = r ∷ []
insert r (s ∷ rs) = if str_lt s.key r.key then s ∷ insert r rs else r ∷ s ∷ rs

unfoldable pub sorted : List Record → List Record
sorted [] = []
sorted (r ∷ rs) = insert r (sorted rs)

-- `[r for r in active if r['key'] not in keys]`.
unfoldable pub not_among : List Str → List Record → List Record
not_among keys [] = []
not_among keys (r ∷ rs) = if contains r.key keys then not_among keys rs else r ∷ not_among keys rs
