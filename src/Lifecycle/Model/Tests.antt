-- ===== src/Lifecycle/Model/Tests.antt =====
-- One generation: a job is admitted, the generation closed, archived and compacted, and the next one opened.
use peer_application_runtime.Base.{◌<◌, List, [], ◌∷◌, ◌++◌, true, none, some, ◌≡◌, refl, ap, ◌∙◌}
use peer_application_runtime.Base.Bytes.{bytes_eq, contains}
use peer_application_runtime.Base.Text.{
  Str, codes, decimal, digits, str_lt, starts_with, all_hex, is_hex64,
}
use peer_application_runtime.Base.Fallible.{done, failed, ◌>>=◌}
use peer_application_runtime.Lifecycle.Json.{
  hex_digit, escape_unit, escape, escape_all, quoted, put_member, members_of, object_of, array_of,
  optional, dumps, dump_items, dump_members, canonical, generation_closed, pin_mismatch, id_reuse,
}
use peer_application_runtime.Lifecycle.Record.{
  Record, job, cancelled, validate_record, has_state, is_terminal, is_ref_key, is_tagged,
  all_ref_keys, is_ascending, job_refs, record_json, find, insert, sorted, not_among,
}
use peer_application_runtime.Lifecycle.Record.Same.{
  records_eq, record_eq, Kind-discrete, State-discrete, strs_eq, optional_eq,
}
use peer_application_runtime.Lifecycle.Inventory.{
  Inventory, model_fixture, profile, validate_inventory, check_anchors, check_records,
  check_evidence, evidence_matches, check_graph, visit_all, visit, inventory_json, gates_json,
}
use peer_application_runtime.Lifecycle.Plan.{
  Plan, plan, plan_json, blockers_of, gate_blockers, record_blockers, sorted_strs, insert_str,
  storage_of, referrers, times,
}
use peer_application_runtime.Lifecycle.Events.{
  Model, opened, closed, archived, compacted, Pending, Event, admit, close, archive, compact,
  rotate, scope, all_records, archived_records, anchor_all, set_anchor, anchor_of, last_of,
  pending_json, pending_eq, event_json,
}
use peer_application_runtime.Lifecycle.Model.{
  run, run_all, create, resolve, apply, apply_rotate, apply_admit, apply_close, apply_archive,
  apply_compact, apply_open, check_controller, add_record, evidence_known, has_intent, plan_of,
  full_plan, prefix, archive_pending, archive_digest, compact_last, checkpoint, record_event,
}
use peer_application_runtime.Lifecycle.Model.Resolve.{run_all-resolve}
use peer_application_runtime.Lifecycle.Model.Stage.{IsLifecycle, reachable-IsLifecycle}
use peer_application_runtime.Lifecycle.Model.Restore.{
  Pin, Document, pin, check_pin, check_at, check_expected, check_document, pin_eq, replay, restore,
}
use peer_application_runtime.Lifecycle.Model.Restore.Fence.{
  PassesPin, restore-PassesPin, restore-admit,
}

abbrev digest_a : Str
digest_a = codes "aaaaaaaaaaaaaaaaaaaaaaaaaaaaaaaaaaaaaaaaaaaaaaaaaaaaaaaaaaaaaaaa"

abbrev digest_b : Str
digest_b = codes "bbbbbbbbbbbbbbbbbbbbbbbbbbbbbbbbbbbbbbbbbbbbbbbbbbbbbbbbbbbbbbbb"

abbrev some_sha : Str → Str
some_sha s = digest_a

abbrev empty_inventory : Inventory
empty_inventory = record {
  source = model_fixture;
  keeper = digest_a;
  store = digest_b;
  controller = some digest_a;
  controller_revision = 1;
  observation = digest_b;
  gates = record { jobs = true; control = true; submissions = true; archive_resolver = true };
  anchors = [];
  records = [];
}

abbrev a_job : Str → Record
a_job name = record {
  key = codes "job:" ++ name;
  kind = job;
  local_id = name;
  state = cancelled;
  intent_digest = name;
  input_digest = digest_a;
  proof_digest = digest_b;
  refs = [];
  evidence_digest = none;
  storage_bytes = 7;
  reserved_bytes = 0;
}

abbrev blank : Model
blank = record {
  initial = empty_inventory;
  inventory = empty_inventory;
  events = [];
  generation = 1;
  closed_through = 0;
  phase = opened;
  archives = [];
  pending = none;
}

abbrev turned : Event
turned = rotate digest_b 2

abbrev rotated : Model
rotated = record blank {
  inventory = record empty_inventory { controller = some digest_b; controller_revision = 2 };
  events = turned ∷ [];
}

abbrev admitted : Event
admitted = admit (a_job digest_a) 1 2

abbrev with_job : Model
with_job = record rotated {
  inventory = record (rotated.inventory) { records = a_job digest_a ∷ [] };
  events = turned ∷ admitted ∷ [];
}

-- The plan that the close approves: every digest is that of `some_sha`.
abbrev the_plan : Plan
the_plan = record {
  inventory_digest = digest_a;
  controller_revision = 2;
  keys = (codes "job:" ++ digest_a) ∷ [];
  archive_bytes_estimate = 7;
  archive_limit = 67108864;
  blockers = [];
  needed_by = (codes "job:" ++ digest_a, []) ∷ [];
  model_ready = true;
}

abbrev closing : Event
closing = close (plan_json the_plan 1 (codes "OPEN") digest_a) 2

abbrev the_pending : Pending
the_pending = record {
  generation = 1;
  records = a_job digest_a ∷ [];
  inventory_digest = digest_a;
  approval_revision = 2;
}

abbrev shut : Model
shut = record with_job {
  events = turned ∷ admitted ∷ closing ∷ [];
  pending = some the_pending;
  closed_through = 1;
  phase = closed;
}

abbrev archived_model : Model
archived_model = record shut {
  events = turned ∷ admitted ∷ closing ∷ archive ∷ [];
  archives = record { content = the_pending; digest = digest_a } ∷ [];
  phase = archived;
}

abbrev compacted_model : Model
compacted_model = record shut {
  inventory = rotated.inventory;
  events = turned ∷ admitted ∷ closing ∷ archive ∷ compact ∷ [];
  archives = record { content = the_pending; digest = digest_a } ∷ [];
  phase = compacted;
}

-- A checkpoint with the rotation, and its pin.
abbrev document : Document
document = record {
  schema = 1;
  profile = profile;
  scope = codes "PURE_NON_DESTRUCTIVE_MODEL";
  initial = empty_inventory;
  events = turned ∷ [];
}

abbrev its_pin : Pin
its_pin = record {
  schema = 1;
  profile = profile;
  keeper = digest_a;
  store = digest_b;
  sequence = 1;
  prefix_digest = digest_a;
  generation = 1;
  closed_through = 0;
  controller_revision = 2;
}

-- What each run gives, one event after another.
record Ran : Type 0 where
  created : create empty_inventory ≡ done blank
  before_close : run_all some_sha (turned ∷ admitted ∷ []) blank ≡ done with_job
  closes : run some_sha closing with_job ≡ done shut
  archives_it : run some_sha archive shut ≡ done archived_model
  compacts_it : run some_sha compact archived_model ≡ done compacted_model
  reused_key : run some_sha admitted with_job ≡ failed id_reuse
  after_close : run some_sha (admit (a_job digest_b) 1 2) shut ≡ failed generation_closed
  turns : run some_sha turned blank ≡ done rotated
  pin_expected : check_expected its_pin ≡ done tt
  pin_held : check_pin some_sha its_pin rotated ≡ done tt
  -- The same pin, one generation later.
  other_pin :
      check_pin some_sha (record its_pin { closed_through = 1 }) rotated ≡ failed pin_mismatch
  admits : run some_sha admitted rotated ≡ done with_job

ran : Ran
unfolding check_pin pin check_expected check_document pin_eq run run_all create apply apply_rotate
    apply_admit apply_close apply_archive apply_compact apply_open check_controller validate_record
    validate_inventory scope add_record all_records archived_records anchor_all set_anchor anchor_of
    evidence_known has_intent sorted insert not_among find has_state is_terminal is_ref_key
    is_tagged all_ref_keys is_ascending job_refs plan_of full_plan prefix plan plan_json blockers_of
    gate_blockers record_blockers sorted_strs insert_str storage_of referrers times archive_pending
    archive_digest compact_last last_of pending_json records_eq record_eq Kind-discrete
    State-discrete strs_eq optional_eq pending_eq record_json check_anchors check_records
    check_evidence evidence_matches check_graph visit_all visit checkpoint record_event event_json
    inventory_json gates_json contains hex_digit escape_unit escape escape_all quoted put_member
    members_of object_of array_of optional dumps dump_items dump_members canonical decimal digits
    str_lt starts_with all_hex is_hex64 bytes_eq
ran = record {
  created = refl;
  before_close = refl;
  closes = refl;
  archives_it = refl;
  compacts_it = refl;
  reused_key = refl;
  after_close = refl;
  turns = refl;
  pin_expected = refl;
  pin_held = refl;
  other_pin = refl;
  admits = refl;
}

then_run :
    (e : Event) (es : List Event) (m m' m'' : Model)
    → run some_sha e m ≡ done m'
    → run_all some_sha es m' ≡ done m''
    → run_all some_sha (e ∷ es) m ≡ done m''
unfolding run_all
then_run e es m m' m'' first rest = ap (λ o. o >>= run_all some_sha es) first ∙ rest

compacts : run_all some_sha (archive ∷ compact ∷ []) shut ≡ done compacted_model
unfolding run_all
compacts =
    then_run archive (compact ∷ []) shut archived_model compacted_model ran.archives_it
      (then_run compact [] archived_model compacted_model compacted_model ran.compacts_it refl)

run_all-resolve_example : resolve (codes "job:" ++ digest_a) compacted_model ≡ done (a_job digest_a)
unfolding resolve all_records archived_records sorted insert not_among find contains str_lt bytes_eq
    is_ref_key is_tagged starts_with is_hex64 all_hex
run_all-resolve_example =
    run_all-resolve some_sha (archive ∷ compact ∷ []) (codes "job:" ++ digest_a) shut
      compacted_model (a_job digest_a) compacts refl

reachable-IsLifecycle_example : IsLifecycle with_job
reachable-IsLifecycle_example =
    reachable-IsLifecycle some_sha empty_inventory (turned ∷ admitted ∷ []) blank with_job
      ran.created ran.before_close

document_checked : check_document document ≡ done tt
unfolding check_document bytes_eq
document_checked = refl

restores : restore some_sha document (some its_pin) ≡ done rotated
unfolding restore replay check_at
restores =
    rw ran.pin_expected (rw document_checked (rw ran.created (rw ran.turns (rw ran.pin_held refl))))

restore-PassesPin_example :
    (start : Model) × (create empty_inventory ≡ done start)
    × PassesPin some_sha 0 its_pin (turned ∷ []) start rotated
restore-PassesPin_example = restore-PassesPin some_sha document its_pin rotated restores

restore-admit_example : 0 < 1
unfolding run_all
restore-admit_example =
    restore-admit some_sha document its_pin rotated rotated with_job [] (a_job digest_a) 1 2
      restores refl ran.admits
