-- ===== src/Lifecycle/Model.antt =====
-- `LifecycleModel` of model.py: events that archive the records of one generation after the other. `sha`
-- is the hexadecimal SHA-256 of hashlib.
pub mod Resolve
pub mod Stage
pub mod Restore
mod Tests
use peer_application_runtime.Base.{
  ℕ, ◌+◌, ◌-◌, List, [], ◌∷◌, ◌++◌, map, Bool, true, false, not, ◌&&◌, Option, none, some, ltb, leb,
  ◌==◌, if◌then◌else◌, length, take,
}
use peer_application_runtime.Base.Bytes.{bytes_eq, contains}
use peer_application_runtime.Base.Text.{Str, codes, str_lt, is_hex64}
use peer_application_runtime.Base.Fallible.{done, failed, demand, ◌>>=◌, ◌>>◌}
use peer_application_runtime.Lifecycle.Json.{
  Outcome, schema, capacity, intent_alias, reference_mismatch, model_only, stale_controller,
  generation_closed, phase as bad_phase, generation as bad_generation, id_reuse, stale_plan,
  blocked, archive_mismatch, not_found, fault, Json, number, string, object_of, array_of, canonical,
}
use peer_application_runtime.Lifecycle.Record.{
  Record, is_job, is_submission, is_some, digest_or, when, is_ref_key, job_refs, validate_record,
  record_json, find, keys_of, not_among, sorted,
}
use peer_application_runtime.Lifecycle.Record.Same.{records_eq}
use peer_application_runtime.Lifecycle.Inventory.{
  is_live, Anchor, Inventory, profile, max_revision, inventory_json, validate_inventory,
}
use peer_application_runtime.Lifecycle.Plan.{Plan, storage_of, plan, plan_json}
use peer_application_runtime.Lifecycle.Events.{
  Archive, Event, Model, Pending, Phase, admit, all_records, anchor_all, anchor_of, archive,
  archived, archived_records, close, closed, compact, compacted, event_json, is_archived, is_closed,
  is_compacted, is_opened, last_of, max_archive_estimate, max_events, max_generations, open_next,
  opened, pending_eq, pending_json, phase_name, rotate, scope, set_anchor,
}

-- `integer(v, 1)`.
abbrev pub is_revision : ℕ → Bool
is_revision n = leb 1 n && leb n max_revision

-- `_controller`.
unfoldable pub check_controller : ℕ → Inventory → Outcome (Unit {0})
check_controller revision v = do
  demand (is_revision revision) schema
  demand (is_some v.controller && revision == v.controller_revision) stale_controller

-- A submission's evidence against the job that it names, among all records.
unfoldable pub evidence_known : List Str → Str → List Record → Bool
evidence_known [] evidence records = false
evidence_known (target ∷ more) evidence records = elim (find target records) [
  | none ↦ false
  | some j ↦ bytes_eq j.intent_digest evidence
]

abbrev pub names_its_job : Record → Model → Bool
names_its_job r m =
    when (is_submission r.kind && is_some r.evidence_digest)
      (evidence_known (job_refs r.refs) (digest_or r.evidence_digest) (all_records m))

unfoldable pub has_intent : Str → List Record → Bool
has_intent digest [] = false
has_intent digest (r ∷ rs) =
    if is_job r.kind && bytes_eq r.intent_digest digest then true else has_intent digest rs

unfoldable pub add_record : Record → Model → Model
add_record r m = record m {
  inventory = record (m.inventory) { records = sorted (m.inventory.records ++ r ∷ []) };
}

unfoldable pub apply_admit : Record → ℕ → ℕ → Model → Outcome Model
apply_admit r generation revision m = do
  demand (leb 1 generation && leb generation max_generations) schema
  check_controller revision m.inventory
  demand (ltb m.closed_through generation) generation_closed
  demand (is_opened m.phase) bad_phase
  demand (generation == m.generation) bad_generation
  validate_record r
  demand (names_its_job r m) reference_mismatch
  demand (not (contains r.key (keys_of (all_records m)))) id_reuse
  demand (when (is_job r.kind) (not (has_intent r.intent_digest (all_records m)))) intent_alias
  validate_inventory (scope (add_record r m))
  done (add_record r m)

module _ (sha : Str → Str) where
  -- `_prefix`.
  unfoldable pub prefix : ℕ → Model → Outcome Str
  prefix n m = do
    raw ← canonical (
        object_of (
          (codes "initial", inventory_json m.initial)
          ∷ (codes "events", array_of (map event_json (take n m.events)))
          ∷ []))
    done (sha raw)

  unfoldable pub plan_of : Model → Outcome Plan
  plan_of m = plan sha (scope m) (max_archive_estimate - storage_of (archived_records m.archives))

  unfoldable pub full_plan : Plan → Model → Outcome Json
  full_plan p m = do
    history ← prefix (length m.events) m
    done (plan_json p m.generation (phase_name m.phase) history)

  unfoldable pub apply_close : Json → ℕ → Model → Outcome Model
  apply_close expected revision m = do
    check_controller revision m.inventory
    demand (is_opened m.phase) bad_phase
    p ← plan_of m
    whole ← full_plan p m
    given ← canonical expected
    own ← canonical whole
    demand (bytes_eq given own) stale_plan
    demand p.model_ready blocked
    done (record m {
      pending = some (record {
        generation = m.generation;
        records = m.inventory.records;
        inventory_digest = p.inventory_digest;
        approval_revision = revision;
      });
      closed_through = m.generation;
      phase = closed;
    })

  unfoldable pub archive_digest : Pending → Outcome Str
  archive_digest p = do raw ← canonical (pending_json p); done (sha raw)

  unfoldable pub archive_pending : Option Pending → Model → Outcome Model
  archive_pending none m = failed fault
  archive_pending (some p) m = do
    demand (records_eq p.records m.inventory.records) archive_mismatch
    digest ← archive_digest p
    done (record m {
      archives = m.archives ++ (record { content = p; digest = digest }) ∷ [];
      phase = archived;
    })

  unfoldable pub apply_archive : Model → Outcome Model
  apply_archive m = do demand (is_closed m.phase) bad_phase; archive_pending m.pending m

  unfoldable pub compact_last : Option Archive → Option Pending → Model → Outcome Model
  compact_last none pending m = failed fault
  compact_last (some a) none m = failed archive_mismatch
  compact_last (some a) (some p) m = do
    digest ← archive_digest a.content
    demand (bytes_eq digest a.digest && pending_eq a.content p) archive_mismatch
    demand (records_eq a.content.records m.inventory.records) archive_mismatch
    done (record m { inventory = record (m.inventory) { records = [] }; phase = compacted })

  unfoldable pub apply_compact : Model → Outcome Model
  apply_compact m = do
    demand (is_archived m.phase) bad_phase
    compact_last (last_of m.archives) m.pending m

  unfoldable pub apply_open : ℕ → Model → Outcome Model
  apply_open revision m = do
    check_controller revision m.inventory
    demand (is_compacted m.phase) bad_phase
    demand (ltb m.generation max_generations) capacity
    done (record m { generation = m.generation + 1; phase = opened; pending = none })

  unfoldable pub apply_rotate : Str → ℕ → Model → Outcome Model
  apply_rotate public revision m = do
    demand (is_hex64 public) schema
    demand (is_revision revision) schema
    demand (is_opened m.phase) bad_phase
    demand (ltb m.inventory.controller_revision revision) stale_controller
    done (record m {
      inventory = record (m.inventory) { controller = some public; controller_revision = revision };
    })

  -- `_apply`.
  unfoldable pub apply : Event → Model → Outcome Model
  apply (admit r generation revision) m = apply_admit r generation revision m
  apply (close expected revision) m = apply_close expected revision m
  apply archive m = apply_archive m
  apply compact m = apply_compact m
  apply (open_next revision) m = apply_open revision m
  apply (rotate public revision) m = apply_rotate public revision m

  -- `checkpoint`.
  unfoldable pub checkpoint : Model → Outcome Str
  checkpoint m = canonical (
      object_of (
        (codes "schema", number 1)
        ∷ (codes "profile", string profile)
        ∷ (codes "scope", string (codes "PURE_NON_DESTRUCTIVE_MODEL"))
        ∷ (codes "initial", inventory_json m.initial)
        ∷ (codes "events", array_of (map event_json m.events))
        ∷ []))

  unfoldable pub record_event : Event → Model → Model
  record_event e m = record m { events = m.events ++ e ∷ [] }

  -- `_run`: the trial, which replaces the model only if nothing has been raised.
  unfoldable pub run : Event → Model → Outcome Model
  run e m = do
    demand (ltb (length m.events) max_events) capacity
    raw ← canonical (event_json e)
    trial ← apply e m
    kept ← checkpoint (record_event e trial)
    done (record_event e trial)

  -- The loop of `restore`, without the pin.
  unfoldable pub run_all : List Event → Model → Outcome Model
  run_all [] m = done m
  run_all (e ∷ es) m = do m' ← run e m; run_all es m'

-- `__init__`.
unfoldable pub create : Inventory → Outcome Model
create v = do
  validate_inventory v
  demand (not (is_live v.source)) model_only
  done (record {
    initial = v;
    inventory = v;
    events = [];
    generation = 1;
    closed_through = 0;
    phase = opened;
    archives = [];
    pending = none;
  })

-- `resolve`.
unfoldable pub resolve : Str → Model → Outcome Record
resolve key m = do
  demand (is_ref_key key) schema
  elim (find key (all_records m)) [ none ↦ failed not_found | some r ↦ done r ]
