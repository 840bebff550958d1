-- ===== src/Lifecycle/Plan.antt =====
-- `plan` of contracts.py: what an archive of the inventory would hold, and what forbids it. `sha` is the
-- hexadecimal SHA-256 of hashlib.
use peer_application_runtime.Base.{
  ℕ, ◌+◌, List, [], ◌∷◌, ◌++◌, map, Bool, true, false, not, ◌&&◌, ltb, leb, ◌==◌, if◌then◌else◌,
  length,
}
use peer_application_runtime.Base.Bytes.{bytes_eq}
use peer_application_runtime.Base.Text.{Str, codes, str_lt}
use peer_application_runtime.Base.Fallible.{done, demand, ◌>>=◌, ◌>>◌}
use peer_application_runtime.Lifecycle.Json.{
  Outcome, schema, Json, bool, number, string, object_of, array_of, canonical,
}
use peer_application_runtime.Lifecycle.Record.{Record, is_terminal, is_some, max_storage, keys_of}
use peer_application_runtime.Lifecycle.Inventory.{
  Gates, Inventory, is_live, inventory_json, validate_inventory,
}

pub record Plan : Type 0 where
  pub inventory_digest : Str
  pub controller_revision : ℕ
  pub keys : List Str
  pub archive_bytes_estimate : ℕ
  pub archive_limit : ℕ
  pub blockers : List Str
  pub needed_by : List (Str × List Str)
  pub model_ready : Bool

unfoldable pub insert_str : Str → List Str → List Str
insert_str s [] = s ∷ []
insert_str s (t ∷ ts) = if str_lt t s then t ∷ insert_str s ts else s ∷ t ∷ ts

unfoldable pub sorted_strs : List Str → List Str
sorted_strs [] = []
sorted_strs (s ∷ ss) = insert_str s (sorted_strs ss)

abbrev pub unless : Bool → Str → List Str
unless true s = []
unless false s = s ∷ []

-- `sorted(v['gates'].items())`, those that are closed.
unfoldable pub gate_blockers : Gates → List Str
gate_blockers g =
    unless g.archive_resolver (codes "UNMIGRATED:archive_resolver")
    ++ (unless g.control (codes "UNMIGRATED:control")
        ++ (unless g.jobs (codes "UNMIGRATED:jobs")
            ++ unless g.submissions (codes "UNMIGRATED:submissions")))

unfoldable pub record_blockers : List Record → List Str
record_blockers [] = []
record_blockers (r ∷ rs) =
    unless (is_terminal r.kind r.state) (codes "NONTERMINAL:" ++ r.key)
    ++ (unless (r.reserved_bytes == 0) (codes "RESERVATION:" ++ r.key) ++ record_blockers rs)

unfoldable pub storage_of : List Record → ℕ
storage_of [] = 0
storage_of (r ∷ rs) = r.storage_bytes + storage_of rs

-- The keys of the records that refer to `key`, as often as they do.
unfoldable pub times : Str → List Str → Str → List Str
times key [] name = []
times key (ref ∷ refs) name =
    if bytes_eq ref key then name ∷ times key refs name else times key refs name

unfoldable pub referrers : Str → List Record → List Str
referrers key [] = []
referrers key (r ∷ rs) = times key r.refs r.key ++ referrers key rs

abbrev pub is_empty : List Str → Bool
is_empty [] = true
is_empty (s ∷ ss) = false

unfoldable pub blockers_of : Inventory → ℕ → List Str
blockers_of v archive_limit = sorted_strs (
    gate_blockers v.gates
    ++ (unless (is_some v.controller) (codes "CONTROLLER_UNAVAILABLE")
        ++ (record_blockers v.records
            ++ unless (not (ltb archive_limit (storage_of v.records))) (codes "ARCHIVE_BUDGET"))))

module _ (sha : Str → Str) where
  unfoldable pub plan : Inventory → ℕ → Outcome Plan
  plan v archive_limit = do
    validate_inventory v
    demand (leb archive_limit max_storage) schema
    raw ← canonical (inventory_json v)
    done (record {
      inventory_digest = sha raw;
      controller_revision = v.controller_revision;
      keys = keys_of v.records;
      archive_bytes_estimate = storage_of v.records;
      archive_limit = archive_limit;
      blockers = blockers_of v archive_limit;
      needed_by = map (λ r. (r.key, referrers r.key v.records)) v.records;
      model_ready = is_empty (blockers_of v archive_limit) && not (is_live v.source);
    })

-- The dict that `plan` returns, with what `LifecycleModel.plan` adds to it.
unfoldable pub plan_json : Plan → ℕ → Str → Str → Json
plan_json p generation phase history_digest = object_of (
    (codes "schema", number 1)
    ∷ (codes "scope", string (codes "LOCAL_MODEL_AND_INVENTORY_ONLY"))
    ∷ (codes "inventory_digest", string p.inventory_digest)
    ∷ (codes "controller_revision", number p.controller_revision)
    ∷ (codes "record_count", number (length p.keys))
    ∷ (codes "keys", array_of (map string p.keys))
    ∷ (codes "archive_bytes_estimate", number p.archive_bytes_estimate)
    ∷ (codes "archive_limit", number p.archive_limit)
    ∷ (codes "blockers", array_of (map string p.blockers))
    ∷ (codes "needed_by", object_of (map (λ e. (e.0, array_of (map string e.1))) p.needed_by))
    ∷ (codes "model_ready", bool p.model_ready)
    ∷ (codes "real_deletion_allowed", bool false)
    ∷ (codes "product_qualified", bool false)
    ∷ (codes "generation", number generation)
    ∷ (codes "phase", string phase)
    ∷ (codes "history_digest", string history_digest)
    ∷ [])
