-- ===== src/Lifecycle/Events.antt =====
-- The state of `LifecycleModel` of model.py and its events. An event is the dict that `_run` takes, with the
-- types that `_apply` asks for; the plan that `close` is given is any JSON value.
use peer_application_runtime.Base.{
  ℕ, List, [], ◌∷◌, ◌++◌, map, Bool, true, false, ◌&&◌, Option, none, some, ◌==◌, if◌then◌else◌,
}
use peer_application_runtime.Base.Bytes.{bytes_eq}
use peer_application_runtime.Base.Text.{Str, codes, str_lt}
use peer_application_runtime.Lifecycle.Json.{Json, number, string, object_of, array_of}
use peer_application_runtime.Lifecycle.Record.{Record, record_json, keys_of, not_among, sorted}
use peer_application_runtime.Lifecycle.Record.Same.{records_eq}
use peer_application_runtime.Lifecycle.Inventory.{Anchor, Inventory}

pub data Phase : Type 0 where
  opened closed archived compacted : Phase

abbrev pub phase_name : Phase → Str
phase_name opened = codes "OPEN"
phase_name closed = codes "CLOSED"
phase_name archived = codes "ARCHIVED"
phase_name compacted = codes "COMPACTED"

abbrev pub is_opened : Phase → Bool
is_opened opened = true
is_opened _ = false

abbrev pub is_closed : Phase → Bool
is_closed closed = true
is_closed _ = false

abbrev pub is_archived : Phase → Bool
is_archived archived = true
is_archived _ = false

abbrev pub is_compacted : Phase → Bool
is_compacted compacted = true
is_compacted _ = false

-- `_pending`, and an archive with its digest.
pub record Pending : Type 0 where
  pub generation : ℕ
  pub records : List Record
  pub inventory_digest : Str
  pub approval_revision : ℕ

pub record Archive : Type 0 where
  pub content : Pending
  pub digest : Str

pub data Event : Type 0 where
  admit : Record → ℕ → ℕ → Event
  close : Json → ℕ → Event
  archive compact : Event
  open_next : ℕ → Event
  rotate : Str → ℕ → Event

pub record Model : Type 0 where
  pub initial : Inventory
  pub inventory : Inventory
  pub events : List Event
  pub generation : ℕ
  pub closed_through : ℕ
  pub phase : Phase
  pub archives : List Archive
  pub pending : Option Pending

abbrev pub max_events : ℕ
max_events = 256

abbrev pub max_generations : ℕ
max_generations = 64

abbrev pub max_archive_estimate : ℕ
max_archive_estimate = 67108864

-- `archive == self._pending`.
unfoldable pub pending_eq : Pending → Pending → Bool
pending_eq p q =
    p.generation == q.generation
    && records_eq p.records q.records
    && bytes_eq p.inventory_digest q.inventory_digest
    && p.approval_revision == q.approval_revision

unfoldable pub event_json : Event → Json
event_json (admit r g rev) = object_of (
    (codes "action", string (codes "admit"))
    ∷ (codes "record", record_json r)
    ∷ (codes "generation", number g)
    ∷ (codes "controller_revision", number rev)
    ∷ [])
event_json (close p rev) = object_of (
    (codes "action", string (codes "close"))
    ∷ (codes "plan", p)
    ∷ (codes "controller_revision", number rev)
    ∷ [])
event_json archive = object_of ((codes "action", string (codes "archive")) ∷ [])
event_json compact = object_of ((codes "action", string (codes "compact")) ∷ [])
event_json (open_next rev) =
    object_of
      ((codes "action", string (codes "open")) ∷ (codes "controller_revision", number rev) ∷ [])
event_json (rotate public rev) = object_of (
    (codes "action", string (codes "rotate"))
    ∷ (codes "public", string public)
    ∷ (codes "controller_revision", number rev)
    ∷ [])

unfoldable pub pending_json : Pending → Json
pending_json p = object_of (
    (codes "generation", number p.generation)
    ∷ (codes "records", array_of (map record_json p.records))
    ∷ (codes "inventory_digest", string p.inventory_digest)
    ∷ (codes "approval_revision", number p.approval_revision)
    ∷ [])

-- The records of all archives.
unfoldable pub archived_records : List Archive → List Record
archived_records [] = []
archived_records (a ∷ rest) = a.content.records ++ archived_records rest

-- `_all_records`.
unfoldable pub all_records : Model → List Record
all_records m =
    let out = archived_records m.archives in
    sorted (out ++ not_among (keys_of out) m.inventory.records)

-- `anchors[key] = …`, in the order of the keys.
unfoldable pub set_anchor : Anchor → List Anchor → List Anchor
set_anchor a [] = a ∷ []
set_anchor a (b ∷ rest) =
    if bytes_eq b.key a.key
    then a ∷ rest
    else if str_lt a.key b.key
    then a ∷ b ∷ rest
    else b ∷ set_anchor a rest

unfoldable pub anchor_of : Record → Anchor
anchor_of r = record { key = r.key; proof_digest = r.proof_digest }

unfoldable pub anchor_all : List Record → List Anchor → List Anchor
anchor_all [] anchors = anchors
anchor_all (r ∷ rs) anchors = anchor_all rs (set_anchor (anchor_of r) anchors)

-- `_scope`: the records that are archived only stand in as anchors.
unfoldable pub scope : Model → Inventory
scope m = record (m.inventory) {
  anchors =
      anchor_all (not_among (keys_of m.inventory.records) (all_records m)) m.inventory.anchors;
}

-- The last archive, `[-1]`.
unfoldable pub last_of : List Archive → Option Archive
last_of [] = none
last_of (a ∷ []) = some a
last_of (a ∷ b ∷ rest) = last_of (b ∷ rest)
