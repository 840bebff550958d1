-- ===== src/Authority/State.antt =====
-- `AuthorityState` of chain.py: the dicts of the object are lists of items in the order of insertion. An
-- operation that raises can have changed the state, so it returns the state beside its outcome.
use peer_application_runtime.Base.{
  ℕ, zero, suc, ◌+◌, ◌-◌, List, [], ◌∷◌, ◌++◌, Bool, true, false, not, ◌&&◌, ◌||◌, Option, none,
  some, leb, ◌==◌, if◌then◌else◌, length,
}
use peer_application_runtime.Base.Bytes.{Bytes, bytes_eq, contains, lookup, has_entry}
use peer_application_runtime.Base.Fallible.{done, failed, demand, ◌>>=◌, ◌>>◌}
use peer_application_runtime.Authority.Control.{
  action_invalid, epoch_sequence, genesis_root, epoch_material_reused, root_changed, control_fork,
  control_invalid, resource_blocked, fault, Outcome, Action, init, permission, transition, rotation,
  checkpoint, Body, Control, Genesis,
}
use peer_application_runtime.Authority.Membership.{Membership}

abbrev pub max_history_bytes : ℕ
max_history_bytes = 786432

pub data Event : Type 0 where
  observed_raw : Bytes → Event
  provided_pages : List Bytes → Event

pub record Authority : Type 0 where
  pub app : Bytes
  pub space : Bytes
  pub genesis : Genesis
  pub max_controls : ℕ
  pub nodes : List (Bytes × Control)
  pub sequences : List (ℕ × Bytes)
  pub memberships : List (Bytes × Membership)
  pub resolved : List Bytes
  pub head : Bytes
  pub revision : ℕ
  pub events : List Event
  pub event_bytes : ℕ
  pub fork : Option (Bytes × Bytes)
  pub invalid : Bool

pub data Answer : Type 0 where
  duplicate observed verified : Answer

unfoldable pub id_at : ℕ → List (ℕ × Bytes) → Option Bytes
id_at n [] = none
id_at n ((k, id) ∷ m) = if k == n then some id else id_at n m

-- `any(n.raw==raw for n in self._nodes.values())`.
unfoldable pub has_raw : Bytes → List (Bytes × Control) → Bool
has_raw raw [] = false
has_raw raw ((id, c) ∷ m) = bytes_eq c.raw raw || has_raw raw m

unfoldable pub check_blocked : Authority → Outcome (Unit {0})
check_blocked s = do
  demand (not (has_entry s.fork)) control_fork
  demand (not s.invalid) control_invalid

unfoldable pub check_capacity : ℕ → Authority → Outcome (Unit {0})
check_capacity weight s = demand (leb (s.event_bytes + weight) max_history_bytes) resource_blocked

-- `_record` and `_bump`.
unfoldable pub record_event : Event → ℕ → Authority → Authority
record_event e weight s = record s {
  events = s.events ++ e ∷ [];
  event_bytes = s.event_bytes + weight;
}

unfoldable pub bump : Authority → Authority
bump s = record s { revision = s.revision + 1 }

-- The control at a sequence number.
unfoldable pub control_at : ℕ → Authority → Option Control
control_at n s = elim (id_at n s.sequences) [ none ↦ none | some id ↦ lookup id s.nodes ]

unfoldable pub parent_id : ℕ → Authority → Option Bytes
parent_id n s = if n == 1 then some s.space else id_at (n - 1) s.sequences

abbrev pub is_init : Action → Bool
is_init init = true
is_init _ = false

abbrev pub is_permission : Action → Bool
is_permission permission = true
is_permission _ = false

abbrev pub is_transition : Action → Bool
is_transition transition = true
is_transition _ = false

abbrev pub is_rotation : Action → Bool
is_rotation rotation = true
is_rotation _ = false

abbrev pub is_checkpoint : Action → Bool
is_checkpoint checkpoint = true
is_checkpoint _ = false

-- `a == b` where either may be None.
unfoldable pub same : Option Bytes → Option Bytes → Bool
same none none = true
same (some a) (some b) = bytes_eq a b
same none (some b) = false
same (some a) none = false

-- The bodies at the sequence numbers from 1 to `n`.
unfoldable pub history : ℕ → Authority → Outcome (List Body)
history zero s = done []
history (suc n) s = do
  earlier ← history n s
  elim (control_at (suc n) s) [ none ↦ failed fault | some c ↦ done (earlier ++ c.body ∷ []) ]

abbrev pub shares_material : Body → Body → Bool
shares_material b p =
    same b.packages p.packages || same b.seeds p.seeds || same b.package_set p.package_set

unfoldable pub reuses : Body → List Body → Bool
reuses b [] = false
reuses b (p ∷ ps) = shares_material b p || reuses b ps

unfoldable pub keeps_roots : Body → Body → Bool
keeps_roots b p =
    same b.packages p.packages
    && same b.seeds p.seeds
    && same b.package_set p.package_set
    && bytes_eq b.features p.features
    && (if is_rotation b.action || is_checkpoint b.action
        then bytes_eq b.members p.members && bytes_eq b.policy p.policy
        else true)

unfoldable pub check_first : Body → Authority → Outcome (Unit {0})
check_first b s = do
  demand (is_init b.action) action_invalid
  demand (b.epoch == 1) epoch_sequence
  demand (bytes_eq b.members s.genesis.members && bytes_eq b.policy s.genesis.policy) genesis_root

unfoldable pub check_transition : Body → Authority → Outcome (Unit {0})
check_transition b s = do
  before ← history (b.sequence - 1) s
  demand (not (reuses b before)) epoch_material_reused

unfoldable pub check_next : Body → Option Control → Authority → Outcome (Unit {0})
check_next b none s = failed fault
check_next b (some p) s = do
  demand (not (is_init b.action)) action_invalid
  demand (b.epoch == p.body.epoch + (if is_transition b.action then 1 else 0)) epoch_sequence
  elim (is_transition b.action) [
    | true ↦ check_transition b s
    | false ↦ demand (keeps_roots b p.body) root_changed
  ]

abbrev pub signer : Option Control → Authority → Bytes
signer none s = s.genesis.authority
signer (some p) s = p.authority_after

abbrev pub opens_epoch : Action → Bool
opens_epoch a = is_init a || is_transition a

unfoldable pub anchor : Action → Bytes → Option Control → Outcome Bytes
anchor a id parent = elim (opens_epoch a) [
  | true ↦ done id
  | false ↦ elim parent [ none ↦ failed fault | some p ↦ done p.anchor_id ]
]

abbrev pub is_resolved : Authority → Bool
is_resolved s = contains s.head s.resolved

abbrev pub has_nodes : Authority → Bool
has_nodes s = not (length s.nodes == 0)
