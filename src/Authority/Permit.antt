-- ===== src/Authority/Permit.antt =====
-- The decisions of chain.py on its state: `membership`, `epoch_anchor`, `authorize` and `validate_permit`, with
-- `Membership.get` and `member_certificate` of membership.py. The seal of a permit is a parameter.
pub mod Current
use peer_application_runtime.Base.{
  ℕ, List, [], ◌∷◌, Bool, true, false, not, ◌&&◌, ◌||◌, Option, none, some, leb, ◌==◌, length,
}
use peer_application_runtime.Base.Bytes.{Bytes, bytes_eq, contains, lookup}
use peer_application_runtime.Base.Fallible.{done, failed, demand, ◌>>=◌, ◌>>◌}
use peer_application_runtime.Authority.Control.{
  Outcome, Control, Member, Role, reader, writer, retainer, schema_invalid, context_mismatch,
  crypto_invalid, control_required, membership_required, not_authorized, certificate_binding,
  epoch_pending, stale_decision, fault,
}
use peer_application_runtime.Authority.Membership.{Membership}
use peer_application_runtime.Authority.State.{Authority, check_blocked, has_nodes}

pub data Operation : Type 0 where
  to_read to_write to_retain : Operation

pub record Certificate : Type 0 where
  pub for_app : Bytes
  pub account : Bytes
  pub device_key : Bytes
  pub agreement_key : Bytes

-- `ActiveMaterial`.
pub record Material : Type 0 where
  pub epoch : ℕ
  pub anchor_id : Bytes
  pub recipient_id : Bytes
  pub secret : Bytes
  pub seeds : List (Bytes × Bytes)
  pub cut : List Bytes

-- The state with `_active` and `_key_checks`.
pub record Holder : Type 0 where
  pub authority : Authority
  pub active : Option Material
  pub key_checks : List (ℕ × Bytes)

pub record Permit : Type 0 where
  pub device_id : Bytes
  pub role : Role
  pub operation : Operation
  pub at_head : Bytes
  pub at_epoch : ℕ
  pub at_revision : ℕ
  pub seal : Bytes

-- The decoder of certificates, their hashes and signatures, and the keyed hash of a permit's fields.
pub record Trust : Type 0 where
  pub valid_app : Bytes → Bool
  pub read_certificate : Bytes → Outcome Certificate
  pub device_of : Bytes → Bytes → Bytes
  pub certificate_of : Bytes → Bytes
  pub verify_certificate : Bytes → Bytes → Bytes → Bool
  pub seal_of : Bytes → Role → Operation → Bytes → ℕ → ℕ → Bytes

-- `Membership.get`.
unfoldable pub get : Bytes → List Member → Option Member
get id [] = none
get id (m ∷ ms) = elim (bytes_eq m.device_id id) [ true ↦ some m | false ↦ get id ms ]

unfoldable pub membership : Authority → Outcome Membership
membership s = do
  demand (contains s.head s.resolved) membership_required
  elim (lookup s.head s.nodes) [
    | none ↦ failed fault
    | some c ↦ elim (lookup c.body.members s.memberships) [
      | none ↦ failed fault
      | some view ↦ done view
    ]
  ]

unfoldable pub epoch_anchor : Authority → Outcome Control
epoch_anchor s = do
  demand (has_nodes s) control_required
  elim (lookup s.head s.nodes) [
    | none ↦ failed fault
    | some c ↦ elim (lookup c.anchor_id s.nodes) [ none ↦ failed fault | some a ↦ done a ]
  ]

unfoldable pub epoch_of : Authority → ℕ
epoch_of s = elim (lookup s.head s.nodes) [ none ↦ 0 | some c ↦ c.body.epoch ]

abbrev pub allows : Operation → Role → Bool
allows to_read reader = true
allows to_read writer = true
allows to_write writer = true
allows to_retain retainer = true
allows _ _ = false

abbrev pub needs_epoch : Operation → Bool
needs_epoch to_retain = false
needs_epoch _ = true

module _ (v : Trust) where
  -- `member_certificate`, with the member that it has found.
  unfoldable pub member_certificate : Bytes → Membership → Bytes → Outcome (Certificate × Member)
  member_certificate app view raw = do
    demand (v.valid_app app) schema_invalid
    c ← v.read_certificate raw
    demand (bytes_eq c.for_app app) context_mismatch
    elim (get (v.device_of app c.device_key) view.members) [
      | none ↦ failed not_authorized
      | some m ↦ do
        demand (bytes_eq (v.certificate_of raw) m.certificate_id) certificate_binding
        demand (v.verify_certificate app c.account raw) crypto_invalid
        done (c, m)
    ]

  unfoldable pub check_epoch : Operation → Holder → Outcome (Unit {0})
  check_epoch op h = elim (needs_epoch op) [
    | false ↦ done tt
    | true ↦ elim h.active [
      | none ↦ failed epoch_pending
      | some m ↦ epoch_anchor h.authority >>= λ a. demand (bytes_eq m.anchor_id a.id) epoch_pending
    ]
  ]

  -- The permit for a device of a role.
  abbrev pub permit_for : Bytes → Role → Operation → Authority → Permit
  permit_for device role op s = record {
    device_id = device;
    role = role;
    operation = op;
    at_head = s.head;
    at_epoch = epoch_of s;
    at_revision = s.revision;
    seal = v.seal_of device role op s.head (epoch_of s) s.revision;
  }

  unfoldable pub authorize : Bytes → Operation → Holder → Outcome Permit
  authorize raw op h = do
    check_blocked h.authority
    view ← membership h.authority
    found ← member_certificate h.authority.app view raw
    demand (allows op found.1.role) not_authorized
    check_epoch op h
    done (permit_for found.1.device_id found.1.role op h.authority)

  unfoldable pub validate_permit : Permit → Authority → Outcome (Unit {0})
  validate_permit p s = do
    check_blocked s
    demand (bytes_eq p.at_head s.head) stale_decision
    demand (p.at_epoch == epoch_of s) stale_decision
    demand (p.at_revision == s.revision) stale_decision
    demand
        (bytes_eq (v.seal_of p.device_id p.role p.operation p.at_head p.at_epoch p.at_revision)
          p.seal)
        stale_decision
