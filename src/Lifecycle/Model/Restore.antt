-- ===== src/Lifecycle/Model/Restore.antt =====
-- `pin` and `restore` of model.py: a checkpoint is replayed, and its prefix is held against a pin that the
-- caller has kept. A document is what `decode` returns for a checkpoint.
pub mod Fence
use peer_application_runtime.Base.{
  ℕ, ◌+◌, Bool, Option, none, some, List, [], ◌∷◌, ◌&&◌, leb, ◌==◌, if◌then◌else◌, length,
}
use peer_application_runtime.Base.Bytes.{bytes_eq}
use peer_application_runtime.Base.Text.{Str, codes, is_hex64}
use peer_application_runtime.Base.Fallible.{done, failed, demand, ◌>>=◌, ◌>>◌}
use peer_application_runtime.Lifecycle.Json.{Outcome, schema, pin_mismatch, pin_required}
use peer_application_runtime.Lifecycle.Inventory.{Inventory, profile}
use peer_application_runtime.Lifecycle.Events.{Model, Event, max_events, max_generations}
use peer_application_runtime.Lifecycle.Model.{is_revision, prefix, run, create}

pub record Pin : Type 0 where
  pub schema : ℕ
  pub profile : Str
  pub keeper : Str
  pub store : Str
  pub sequence : ℕ
  pub prefix_digest : Str
  pub generation : ℕ
  pub closed_through : ℕ
  pub controller_revision : ℕ

pub record Document : Type 0 where
  pub schema : ℕ
  pub profile : Str
  pub scope : Str
  pub initial : Inventory
  pub events : List Event

-- `model.pin()==p`.
unfoldable pub pin_eq : Pin → Pin → Bool
pin_eq p q =
    p.schema == q.schema
    && bytes_eq p.profile q.profile
    && bytes_eq p.keeper q.keeper
    && bytes_eq p.store q.store
    && p.sequence == q.sequence
    && bytes_eq p.prefix_digest q.prefix_digest
    && p.generation == q.generation
    && p.closed_through == q.closed_through
    && p.controller_revision == q.controller_revision

-- The checks of `restore` on the pin.
unfoldable pub check_expected : Pin → Outcome (Unit {0})
check_expected p = do
  demand (p.schema == 1) schema
  demand (bytes_eq p.profile profile) schema
  demand (is_hex64 p.keeper && is_hex64 p.store && is_hex64 p.prefix_digest) schema
  demand (leb p.sequence max_events) schema
  demand (leb 1 p.generation && leb p.generation max_generations) schema
  demand (leb p.closed_through max_generations) schema
  demand (is_revision p.controller_revision) schema

-- The checks of `restore` on the checkpoint.
unfoldable pub check_document : Document → Outcome (Unit {0})
check_document d = do
  demand (d.schema == 1) schema
  demand (bytes_eq d.profile profile && bytes_eq d.scope (codes "PURE_NON_DESTRUCTIVE_MODEL"))
      schema
  demand (leb (length d.events) max_events) schema

module _ (sha : Str → Str) where
  unfoldable pub pin : Model → Outcome Pin
  pin m = do
    digest ← prefix sha (length m.events) m
    done (record {
      schema = 1;
      profile = profile;
      keeper = m.initial.keeper;
      store = m.initial.store;
      sequence = length m.events;
      prefix_digest = digest;
      generation = m.generation;
      closed_through = m.closed_through;
      controller_revision = m.inventory.controller_revision;
    })

  unfoldable pub check_pin : Pin → Model → Outcome (Unit {0})
  check_pin p m = do q ← pin m; demand (pin_eq q p) pin_mismatch

  -- `if n==p['sequence']`.
  unfoldable pub check_at : ℕ → Pin → Model → Outcome (Unit {0})
  check_at n p m = if n == p.sequence then check_pin p m else done tt

  -- The loop; `n` events have been run.
  unfoldable pub replay : ℕ → Pin → List Event → Model → Outcome Model
  replay n p [] m = done m
  replay n p (e ∷ es) m = do m' ← run sha e m; check_at (n + 1) p m'; replay (n + 1) p es m'

  unfoldable pub restore : Document → Option Pin → Outcome Model
  restore d none = failed pin_required
  restore d (some p) = do
    check_expected p
    check_document d
    demand (leb p.sequence (length d.events)) pin_mismatch
    m ← create d.initial
    check_at 0 p m
    replay 0 p d.events m
