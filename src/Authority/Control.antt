-- ===== src/Authority/Control.antt =====
-- Codes, signed controls and what the chain keeps of them. The fields are those of the CDDL rules
-- `control-entry`, `control-body` and `member-entry`, whose types the parser has checked.
use peer_application_runtime.Base.{ℕ, List, Bool, ◌&&◌, Option, leb, length}
use peer_application_runtime.Base.Bytes.{Bytes}
use peer_application_runtime.Base.Fallible.{Fallible, demand, ◌>>◌}

-- The codes of `AuthError` here; `fault` is any other exception.
pub data Code : Type 0 where
  schema_invalid trust_anchor crypto_invalid context_mismatch : Code
  control_sequence control_gap control_parent authority_mismatch missing_epoch_material : Code
  action_invalid epoch_sequence genesis_root epoch_material_reused root_changed rotation_proof :
      Code
  control_fork control_invalid control_required membership_required resource_blocked : Code
  membership_layout membership_order membership_root no_content_recipient
        content_membership_changed :
      Code
  stale_decision not_authorized epoch_pending certificate_binding : Code
  seed_layout seed_root seed_set seed_digest seed_plaintext : Code
  epoch_secret_conflict epoch_secret_reused : Code
  join_context admission_context admission_sequence : Code
  fault : Code

abbrev pub Outcome : Type 0 → Type 0
Outcome A = Fallible Code A

-- `action init/permission-only/content-transition/authority-rotation/checkpoint`, by number in the source.
pub data Action : Type 0 where
  init permission transition rotation checkpoint : Action

pub record Body : Type 0 where
  pub app : Bytes
  pub space : Bytes
  pub sequence : ℕ
  pub epoch : ℕ
  pub parent : Bytes
  pub action : Action
  pub members : Bytes
  pub policy : Bytes
  pub packages : Option Bytes
  pub seeds : Option Bytes
  pub package_set : Option Bytes
  pub authority : Bytes
  pub next_authority : Option Bytes
  pub features : Bytes

pub record Entry : Type 0 where
  pub body_bytes : Bytes
  pub signature : Bytes
  pub possession : Option Bytes

pub record Control : Type 0 where
  pub raw : Bytes
  pub body : Body
  pub id : Bytes
  pub authority_after : Bytes
  pub anchor_id : Bytes

pub data Role : Type 0 where
  reader writer retainer : Role

pub record Member : Type 0 where
  pub device_id : Bytes
  pub certificate_id : Bytes
  pub role : Role

pub record Genesis : Type 0 where
  pub app : Bytes
  pub authority : Bytes
  pub members : Bytes
  pub policy : Bytes

pub record SignedObject : Type 0 where
  pub body_bytes : Bytes
  pub signer : Bytes
  pub signature : Bytes

-- What the chain calls: the canonical decoder with a rule of the grammar, the hashes with their domains, and
-- the signatures with theirs.
pub record Services : Type 1 where
  pub read_object : Bytes → Outcome SignedObject
  pub read_genesis : Bytes → Outcome Genesis
  pub read_entry : Bytes → Outcome Entry
  pub read_body : Bytes → Outcome Body
  pub read_page : Bytes → Outcome (List Member)
  pub valid_app : Bytes → Bool
  pub space_id : Bytes → Bytes
  pub control_id : Bytes → Bytes
  pub page_id : Bytes → Bytes
  pub root_of : List Bytes → Bytes
  pub verify_genesis : Bytes → Bytes → Bytes → Bool
  pub verify_control : Bytes → Bytes → Bytes → Bool
  pub verify_possession : Bytes → Bytes → Bytes → Bool

-- `parse`: the length, then the decoder with the rule.
unfoldable pub parse : {A : Type 0} → (Bytes → Outcome A) → ℕ → Bytes → Outcome A
parse read limit raw = do
  demand (leb 1 (length raw) && leb (length raw) limit) schema_invalid
  read raw
