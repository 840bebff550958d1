-- ===== src/Authority/Chain.antt =====
-- The operations of `AuthorityState` that extend its history: `_inspect`, `observe` and
-- `provide_membership`.
pub mod Inspected
pub mod Signed
pub mod Reached
pub mod Linked
pub mod Extended
pub mod Frozen
pub mod Bounded
mod Tests
use peer_application_runtime.Base.{
  ℕ, ◌+◌, List, [], ◌∷◌, ◌++◌, Bool, true, false, not, ◌&&◌, ◌||◌, Option, none, some, leb, ltb,
  ◌==◌, if◌then◌else◌, length,
}
use peer_application_runtime.Base.Bytes.{put, Bytes, bytes_eq, contains, lookup, has_entry}
use peer_application_runtime.Base.Fallible.{done, failed, demand, ◌>>=◌, ◌>>◌}
use peer_application_runtime.Authority.Control.{
  schema_invalid, trust_anchor, crypto_invalid, context_mismatch, control_sequence, control_gap,
  control_parent, authority_mismatch, missing_epoch_material, rotation_proof, control_fork,
  control_required, membership_required, resource_blocked, no_content_recipient,
  content_membership_changed, fault, Outcome, Body, Entry, Control, Role, reader, writer, retainer,
  Member, Services, parse,
}
use peer_application_runtime.Authority.Membership.{Membership, content_members, verify_membership}
use peer_application_runtime.Authority.State.{
  observed_raw, provided_pages, Authority, Answer, duplicate, observed, verified, id_at, has_raw,
  check_blocked, check_capacity, record_event, bump, parent_id, is_permission, is_rotation,
  check_first, check_next, signer, opens_epoch, anchor, is_resolved, has_nodes,
}

pub data Call : Type 0 where
  observing : Bytes → Call
  providing : List Bytes → Call

-- What `observe` does with a control that `_inspect` has passed.
unfoldable pub fork_with : Bytes → Bytes → Authority → Authority
fork_with kept raw s =
    bump (record_event (observed_raw raw) (length raw) (record s { fork = some (kept, raw) }))

unfoldable pub append : Control → Authority → Authority
append c s = bump (
    record_event (observed_raw c.raw) (length c.raw) (record s {
      nodes = put c.id c s.nodes;
      sequences = s.sequences ++ (c.body.sequence, c.id) ∷ [];
      head = c.id;
    }))

unfoldable pub check_room : Control → Authority → Outcome (Unit {0})
check_room c s = do
  check_capacity (length c.raw) s
  demand (not (has_nodes s) || is_resolved s) membership_required
  demand (ltb (length s.nodes) s.max_controls) resource_blocked

unfoldable pub admit : Control → Authority → Authority × Outcome Answer
admit c s = elim (id_at c.body.sequence s.sequences) [
  | some id ↦ elim (lookup id s.nodes) [
    | none ↦ (s, failed fault)
    | some kept ↦ (fork_with kept.raw c.raw s, failed control_fork)
  ]
  | none ↦ elim (check_room c s) [ failed e ↦ (s, failed e) | done u ↦ (append c s, done observed) ]
]

-- `self._memberships[view.root]=view`, after `_record`.
unfoldable pub keep_view : Membership → ℕ → Authority → Authority
keep_view view size s = record (record_event (provided_pages view.pages) size s) {
  memberships = put view.root view s.memberships;
}

unfoldable pub invalidate : Authority → Authority
invalidate s = bump (record s { invalid = true })

unfoldable pub resolve_head : Authority → Authority
resolve_head s = bump (record s { resolved = s.head ∷ s.resolved })

-- `membership_at`.
unfoldable pub membership_at : Bytes → Authority → Outcome Membership
membership_at head s = do
  demand (length head == 32) schema_invalid
  elim (lookup head s.nodes) [
    | none ↦ failed control_required
    | some c ↦ do
      demand (contains head s.resolved) membership_required
      elim (lookup c.body.members s.memberships) [ none ↦ failed fault | some view ↦ done view ]
  ]

unfoldable pub total_bytes : List Bytes → ℕ
total_bytes [] = 0
total_bytes (p ∷ ps) = length p + total_bytes ps

abbrev pub role_number : Role → ℕ
role_number reader = 1
role_number writer = 2
role_number retainer = 3

unfoldable pub role_eq : Role → Role → Bool
role_eq a b = role_number a == role_number b

unfoldable pub members_eq : List Member → List Member → Bool
members_eq [] [] = true
members_eq (m ∷ ms) (n ∷ ns) =
    bytes_eq m.device_id n.device_id
    && bytes_eq m.certificate_id n.certificate_id
    && role_eq m.role n.role
    && members_eq ms ns
members_eq [] (n ∷ ns) = false
members_eq (m ∷ ms) [] = false

-- The members who read and write are the same after a change of permissions as before it.
unfoldable pub settle_permission : Body → Membership → Authority → Authority × Outcome Answer
settle_permission b view s = elim (membership_at b.parent s) [
  | failed e ↦ (s, failed e)
  | done previous ↦
      if members_eq (content_members view.members) (content_members previous.members)
      then (resolve_head s, done verified)
      else (invalidate s, failed content_membership_changed)
]

-- The tests on a membership that has been recorded.
unfoldable pub settle : Body → Membership → Authority → Authority × Outcome Answer
settle b view s =
    if opens_epoch b.action && length (content_members view.members) == 0
    then (invalidate s, failed no_content_recipient)
    else if is_permission b.action
    then settle_permission b view s
    else (resolve_head s, done verified)

module _ (v : Services) where
  -- The control's own signature, and for a rotation the proof of the next authority; the result is `after`.
  unfoldable pub check_rotation : Entry → Body → Bytes → Outcome Bytes
  check_rotation o b pk = elim (is_rotation b.action) [
    | true ↦ elim b.next_authority [
      | none ↦ failed rotation_proof
      | some next ↦ do
        demand (not (bytes_eq next pk) && has_entry o.possession) rotation_proof
        demand
            (elim o.possession [
              | none ↦ false
              | some proof ↦ v.verify_possession next o.body_bytes proof
            ])
            crypto_invalid
        done next
    ]
    | false ↦ do
      demand (not (has_entry b.next_authority) && not (has_entry o.possession)) rotation_proof
      done pk
  ]

  unfoldable pub check_control : Bytes → Entry → Body → Option Control → Authority → Outcome Control
  check_control raw o b parent s = do
    demand (bytes_eq b.authority (signer parent s)) authority_mismatch
    demand (v.verify_control (signer parent s) o.body_bytes o.signature) crypto_invalid
    demand (has_entry b.packages && has_entry b.seeds && has_entry b.package_set)
        missing_epoch_material
    if b.sequence == 1 then check_first b s else check_next b parent s
    next ← check_rotation o b (signer parent s)
    opened ← anchor b.action (v.control_id raw) parent
    done (record {
      raw = raw;
      body = b;
      id = v.control_id raw;
      authority_after = next;
      anchor_id = opened;
    })

  unfoldable pub inspect : Bytes → Authority → Outcome Control
  inspect raw s = do
    o ← parse v.read_entry 66000 raw
    b ← parse v.read_body 66000 o.body_bytes
    demand (bytes_eq b.app s.app && bytes_eq b.space s.space) context_mismatch
    demand (leb 1 b.sequence) control_sequence
    demand (leb b.sequence (length s.sequences + 1)) control_gap
    elim (parent_id b.sequence s) [
      | none ↦ failed control_parent
      | some p ↦ do
        demand (bytes_eq b.parent p) control_parent
        check_control raw o b (lookup p s.nodes) s
    ]

  unfoldable pub observe : Bytes → Authority → Authority × Outcome Answer
  observe raw s =
      if has_raw raw s.nodes
      then (s, done duplicate)
      else elim (check_blocked s >> inspect raw s) [ failed e ↦ (s, failed e) | done c ↦ admit c s ]

  unfoldable pub provide : List Bytes → Control → Authority → Authority × Outcome Answer
  provide pages c s = elim (verify_membership v c.body.members pages) [
    | failed e ↦ (s, failed e)
    | done view ↦
        if is_resolved s
        then (s, done duplicate)
        else elim (check_capacity (total_bytes view.pages) s) [
          | failed e ↦ (s, failed e)
          | done u ↦ settle c.body view (keep_view view (total_bytes view.pages) s)
        ]
  ]

  unfoldable pub provide_membership : List Bytes → Authority → Authority × Outcome Answer
  provide_membership pages s = elim (check_blocked s >> demand (has_nodes s) control_required) [
    | failed e ↦ (s, failed e)
    | done u ↦ elim (lookup s.head s.nodes) [
      | none ↦ (s, failed fault)
      | some c ↦ provide pages c s
    ]
  ]

  -- `__init__`.
  unfoldable pub create : Bytes → Bytes → Bytes → ℕ → Outcome Authority
  create app space genesis max_controls = do
    demand (v.valid_app app && length space == 32) schema_invalid
    demand (leb 1 max_controls && leb max_controls 1024) schema_invalid
    o ← parse v.read_object 66000 genesis
    b ← parse v.read_genesis 66000 o.body_bytes
    demand
        (bytes_eq b.app app
          && bytes_eq (v.space_id o.body_bytes) space
          && bytes_eq o.signer b.authority)
        trust_anchor
    demand (v.verify_genesis b.authority o.body_bytes o.signature) crypto_invalid
    done (record {
      app = app;
      space = space;
      genesis = b;
      max_controls = max_controls;
      nodes = [];
      sequences = [];
      memberships = [];
      resolved = [];
      head = space;
      revision = 0;
      events = [];
      event_bytes = length genesis;
      fork = none;
      invalid = false;
    })

  -- Calls one after the other, whatever they answer.
  unfoldable pub call : Call → Authority → Authority × Outcome Answer
  call (observing raw) s = observe raw s
  call (providing pages) s = provide_membership pages s

  unfoldable pub calls : List Call → Authority → Authority
  calls [] s = s
  calls (c ∷ cs) s = calls cs (call c s).0
