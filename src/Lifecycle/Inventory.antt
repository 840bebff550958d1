-- ===== src/Lifecycle/Inventory.antt =====
-- The inventory of contracts.py and `validate_inventory`.
pub mod Visited
pub mod Fuel
mod Tests
use peer_application_runtime.Base.{
  ℕ, zero, suc, List, [], ◌∷◌, map, Bool, true, false, not, ◌&&◌, ◌||◌, Option, none, some, leb,
  if◌then◌else◌, length,
}
use peer_application_runtime.Base.Bytes.{bytes_eq, contains}
use peer_application_runtime.Base.Text.{Str, codes, starts_with, is_hex64}
use peer_application_runtime.Base.Fallible.{done, failed, demand, ◌>>=◌, ◌>>◌}
use peer_application_runtime.Lifecycle.Json.{
  Outcome, schema, intent_alias, reference_mismatch, reference_cycle, dangling_reference,
  out_of_fuel, Json, bool, number, string, object_of, array_of, optional, canonical,
}
use peer_application_runtime.Lifecycle.Record.{
  Record, is_job, is_submission, is_some, digest_or, when, is_ref_key, is_ascending, job_refs,
  validate_record, record_json, find, keys_of,
}

pub data Source : Type 0 where
  model_fixture live_readonly : Source

abbrev pub is_live : Source → Bool
is_live model_fixture = false
is_live live_readonly = true

abbrev pub source_name : Source → Str
source_name model_fixture = codes "MODEL_FIXTURE"
source_name live_readonly = codes "LIVE_READONLY"

pub record Gates : Type 0 where
  pub jobs : Bool
  pub control : Bool
  pub submissions : Bool
  pub archive_resolver : Bool

pub record Anchor : Type 0 where
  pub key : Str
  pub proof_digest : Str

pub record Inventory : Type 0 where
  pub source : Source
  pub keeper : Str
  pub store : Str
  pub controller : Option Str
  pub controller_revision : ℕ
  pub observation : Str
  pub gates : Gates
  pub anchors : List Anchor
  pub records : List Record

-- `PROFILE`.
abbrev pub profile : Str
profile = codes "management-record-lifecycle-local-v1"

abbrev pub max_revision : ℕ
max_revision = 9007199254740991

abbrev pub anchor_keys : List Anchor → List Str
anchor_keys anchors = map (λ a. a.key) anchors

-- The loop over the anchors; `seen` are the keys before.
unfoldable pub check_anchors : Bool → List Str → List Anchor → Outcome (Unit {0})
check_anchors live seen [] = done tt
check_anchors live seen (a ∷ rest) = do
  demand (is_ref_key a.key && is_hex64 a.proof_digest) schema
  demand (not (contains a.key seen)) schema
  demand (when live (starts_with (codes "evidence:") a.key || starts_with (codes "policy:") a.key))
      schema
  check_anchors live (a.key ∷ seen) rest

-- A job's intent is no earlier job's.
abbrev pub new_intent : Record → List Str → Bool
new_intent r intents = when (is_job r.kind) (not (contains r.intent_digest intents))

abbrev pub add_intent : Record → List Str → List Str
add_intent r intents = if is_job r.kind then r.intent_digest ∷ intents else intents

-- The loop over the records.
unfoldable pub check_records : List Str → List Str → List Str → List Record → Outcome (Unit {0})
check_records anchored seen intents [] = done tt
check_records anchored seen intents (r ∷ rest) = do
  validate_record r
  demand (not (contains r.key seen) && not (contains r.key anchored)) schema
  demand (new_intent r intents) intent_alias
  check_records anchored (r.key ∷ seen) (add_intent r intents) rest

-- The evidence of a submission against the job that it names, if that job is one of the records.
unfoldable pub evidence_matches : List Str → Str → List Record → Bool
evidence_matches [] evidence records = true
evidence_matches (target ∷ more) evidence records = elim (find target records) [
  | none ↦ true
  | some j ↦ bytes_eq j.intent_digest evidence
]

unfoldable pub check_evidence : List Record → List Record → Outcome (Unit {0})
check_evidence records [] = done tt
check_evidence records (r ∷ rest) = do
  demand
      (when (is_submission r.kind && is_some r.evidence_digest)
        (evidence_matches (job_refs r.refs) (digest_or r.evidence_digest) records))
      reference_mismatch
  check_evidence records rest

-- The references of a record in turn; the result is `visited`.
unfoldable pub visit_all :
    (Str → List Str → Outcome (List Str)) → List Str → List Str → Outcome (List Str)
visit_all visit [] visited = done visited
visit_all visit (ref ∷ refs) visited = do
  visited' ← visit ref visited
  visit_all visit refs visited'

module _ (anchored : List Str) (records : List Record) where
  abbrev pub enter : (List Str → Outcome (List Str)) → Str → Option Record → Outcome (List Str)
  enter children key none = failed dangling_reference
  enter children key (some r) = do visited ← children r.refs; done (key ∷ visited)

  -- `visit`, on fuel for the length of the path `visiting`.
  unfoldable pub visit : ℕ → List Str → Str → List Str → Outcome (List Str)
  visit zero visiting key visited = failed out_of_fuel
  visit (suc fuel) visiting key visited =
      if contains key visiting
      then failed reference_cycle
      else if contains key visited || contains key anchored
      then done visited
      else enter (λ refs. visit_all (visit fuel (key ∷ visiting)) refs visited) key
          (find key records)

  -- `for key in records: visit(key)`. A path without a cycle is no longer than the records.
  unfoldable pub check_graph : Outcome (List Str)
  check_graph = visit_all (visit (suc (length records)) []) (keys_of records) []

unfoldable pub gates_json : Gates → Json
gates_json g = object_of (
    (codes "jobs", bool g.jobs)
    ∷ (codes "control", bool g.control)
    ∷ (codes "submissions", bool g.submissions)
    ∷ (codes "archive_resolver", bool g.archive_resolver)
    ∷ [])

abbrev pub anchor_json : Anchor → Json
anchor_json a =
    object_of ((codes "key", string a.key) ∷ (codes "proof_digest", string a.proof_digest) ∷ [])

unfoldable pub inventory_json : Inventory → Json
inventory_json v = object_of (
    (codes "schema", number 1)
    ∷ (codes "profile", string profile)
    ∷ (codes "source", string (source_name v.source))
    ∷ (codes "keeper", string v.keeper)
    ∷ (codes "store", string v.store)
    ∷ (codes "controller", optional v.controller)
    ∷ (codes "controller_revision", number v.controller_revision)
    ∷ (codes "observation", string v.observation)
    ∷ (codes "gates", gates_json v.gates)
    ∷ (codes "anchors", array_of (map anchor_json v.anchors))
    ∷ (codes "records", array_of (map record_json v.records))
    ∷ [])

abbrev pub any_gate : Gates → Bool
any_gate g = g.jobs || g.control || g.submissions || g.archive_resolver

unfoldable pub validate_inventory : Inventory → Outcome (Unit {0})
validate_inventory v = do
  demand (is_hex64 v.keeper && is_hex64 v.store && is_hex64 v.observation) schema
  demand (when (is_some v.controller) (is_hex64 (digest_or v.controller))) schema
  demand (leb 1 v.controller_revision && leb v.controller_revision max_revision) schema
  demand (when (is_live v.source) (not (any_gate v.gates))) schema
  demand (leb (length v.records) 512) schema
  demand (leb (length v.anchors) 1024) schema
  check_anchors (is_live v.source) [] v.anchors
  demand (is_ascending (anchor_keys v.anchors)) schema
  check_records (anchor_keys v.anchors) [] [] v.records
  demand (is_ascending (keys_of v.records)) schema
  check_evidence v.records v.records
  visited ← check_graph (anchor_keys v.anchors) v.records
  raw ← canonical (inventory_json v)
  done tt
