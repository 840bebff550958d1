-- ===== src/Authority/Admission.antt =====
-- admission.py: a join request, its verification, and the admission that an authority issues for it. The codecs of
-- the two bodies with their rules, and the signatures over them, are the record `Signing`.
pub mod Binding
use peer_application_runtime.Base.{ℕ, ◌^◌, Bool, ◌&&◌, leb, ltb, ◌==◌, length}
use peer_application_runtime.Base.Bytes.{Bytes, bytes_eq, lookup}
use peer_application_runtime.Base.Fallible.{done, failed, demand, ◌>>=◌, ◌>>◌}
use peer_application_runtime.Authority.Control.{
  Outcome, Role, SignedObject, parse, schema_invalid, crypto_invalid, authority_mismatch,
  join_context, admission_context, admission_sequence,
}
use peer_application_runtime.Authority.State.{Authority, check_blocked, signer}
use peer_application_runtime.Authority.Chain.{role_eq}
use peer_application_runtime.Authority.Permit.{Certificate, Trust}

pub record JoinBody : Type 0 where
  pub for_app : Bytes
  pub for_space : Bytes
  pub with_certificate : Bytes
  pub fresh : Bytes
  pub as_role : Role

pub record AdmissionBody : Type 0 where
  pub in_app : Bytes
  pub in_space : Bytes
  pub admitted : Bytes
  pub by_certificate : Bytes
  pub nonce : Bytes
  pub least_sequence : ℕ
  pub in_role : Role

-- `VerifiedJoin`, without the bytes.
pub record Join : Type 0 where
  pub app : Bytes
  pub space : Bytes
  pub device_id : Bytes
  pub certificate_id : Bytes
  pub join_nonce : Bytes
  pub role : Role

-- `RetrievalAdmission`; its scope and its reply budget are constants.
pub record Retrieval : Type 0 where
  pub for_device : Bytes
  pub minimum_sequence : ℕ
  pub for_role : Role

pub record Signing : Type 0 where
  pub read_object : Bytes → Outcome SignedObject
  pub read_join : Bytes → Outcome JoinBody
  pub read_admission : Bytes → Outcome AdmissionBody
  pub write_join : JoinBody → Bytes
  pub write_admission : AdmissionBody → Bytes
  pub valid_join : JoinBody → Bool
  pub valid_admission : AdmissionBody → Bool
  pub public_of : Bytes → Bytes
  pub sign_join : Bytes → Bytes → Outcome Bytes
  pub sign_admission : Bytes → Bytes → Outcome Bytes
  pub verify_join_of : Bytes → Bytes → Bytes → Bool
  pub verify_admission_of : Bytes → Bytes → Bytes → Bool

-- `b != expected`, field by field.
abbrev pub same_join : JoinBody → JoinBody → Bool
same_join b c =
    bytes_eq b.for_app c.for_app
    && bytes_eq b.for_space c.for_space
    && bytes_eq b.with_certificate c.with_certificate
    && bytes_eq b.fresh c.fresh
    && role_eq b.as_role c.as_role

abbrev pub matches : AdmissionBody → Join → Bool
matches b j =
    bytes_eq b.in_app j.app
    && bytes_eq b.in_space j.space
    && bytes_eq b.admitted j.device_id
    && bytes_eq b.by_certificate j.certificate_id
    && bytes_eq b.nonce j.join_nonce
    && role_eq b.in_role j.role

-- The body of an admission of a request.
abbrev pub body_of : Join → ℕ → AdmissionBody
body_of j least = record {
  in_app = j.app;
  in_space = j.space;
  admitted = j.device_id;
  by_certificate = j.certificate_id;
  nonce = j.join_nonce;
  least_sequence = least;
  in_role = j.role;
}

abbrev pub authority_public : Authority → Bytes
authority_public s = signer (lookup s.head s.nodes) s

module _ (t : Trust) (v : Signing) where
  -- `_certificate`.
  unfoldable pub own_certificate : Bytes → Bytes → Outcome Certificate
  own_certificate app raw = do
    c ← t.read_certificate raw
    demand (bytes_eq c.for_app app) join_context
    demand (t.verify_certificate app c.account raw) crypto_invalid
    done c

  abbrev pub join_of : Bytes → Bytes → Bytes → Bytes → Role → JoinBody
  join_of app space certificate nonce role = record {
    for_app = app;
    for_space = space;
    with_certificate = t.certificate_of certificate;
    fresh = nonce;
    as_role = role;
  }

  unfoldable pub check_context : Bytes → Bytes → Bytes → Outcome (Unit {0})
  check_context app space nonce =
      demand (t.valid_app app && length space == 32 && length nonce == 32) schema_invalid

  unfoldable pub create_join : Bytes → Bytes → Bytes → Bytes → Bytes → Role → Outcome Bytes
  create_join seed app space certificate nonce role = do
    check_context app space nonce
    c ← own_certificate app certificate
    demand (bytes_eq (v.public_of seed) c.device_key) join_context
    demand (v.valid_join (join_of app space certificate nonce role)) schema_invalid
    v.sign_join seed (v.write_join (join_of app space certificate nonce role))

  unfoldable pub verify_join : Bytes → Bytes → Bytes → Bytes → Bytes → Role → Outcome Join
  verify_join app space certificate raw nonce role = do
    check_context app space nonce
    c ← own_certificate app certificate
    o ← parse v.read_object 66000 raw
    b ← parse v.read_join 66000 o.body_bytes
    demand (v.valid_join (join_of app space certificate nonce role)) schema_invalid
    demand
        (same_join b (join_of app space certificate nonce role) && bytes_eq o.signer c.device_key)
        join_context
    demand (v.verify_join_of c.device_key o.body_bytes o.signature) crypto_invalid
    done (record {
      app = app;
      space = space;
      device_id = t.device_of app c.device_key;
      certificate_id = t.certificate_of certificate;
      join_nonce = nonce;
      role = role;
    })

  unfoldable pub issue_admission :
      Authority → Bytes → Bytes → Bytes → Bytes → Role → ℕ → Outcome Bytes
  issue_admission s seed certificate request nonce role least = do
    check_blocked s
    demand (bytes_eq (v.public_of seed) (authority_public s)) authority_mismatch
    demand (leb 1 least && leb (length s.sequences) least && ltb least (2 ^ 64)) admission_sequence
    j ← verify_join s.app s.space certificate request nonce role
    demand (v.valid_admission (body_of j least)) schema_invalid
    v.sign_admission seed (v.write_admission (body_of j least))

  unfoldable pub verify_admission : Bytes → Join → Bytes → Outcome Retrieval
  verify_admission key j raw = do
    demand (length key == 32) schema_invalid
    o ← parse v.read_object 66000 raw
    b ← parse v.read_admission 66000 o.body_bytes
    demand (bytes_eq o.signer key) authority_mismatch
    demand (v.verify_admission_of key o.body_bytes o.signature) crypto_invalid
    demand (matches b j) admission_context
    demand (leb 1 b.least_sequence) admission_sequence
    done (record {
      for_device = b.admitted;
      minimum_sequence = b.least_sequence;
      for_role = b.in_role;
    })
