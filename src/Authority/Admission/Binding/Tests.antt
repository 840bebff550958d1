-- ===== src/Authority/Admission/Binding/Tests.antt =====
-- A Space without controls admits one device. The codec of the tests knows one admission, and every key is the same.
use peer_application_runtime.Base.{ℕ, zero, suc, [], ◌∷◌, true, false, none, leb, length, ◌≡◌, refl}
use peer_application_runtime.Base.Bytes.{Bytes, bytes_eq, lookup}
use peer_application_runtime.Base.Fallible.{done, failed, demand, ◌>>◌}
use peer_application_runtime.Authority.Control.{
  Outcome, SignedObject, writer, admission_context, schema_invalid, parse,
}
use peer_application_runtime.Authority.State.{Authority, check_blocked}
use peer_application_runtime.Authority.Chain.{role_eq}
use peer_application_runtime.Authority.Permit.{Trust}
use peer_application_runtime.Authority.Admission.{
  Retrieval, Join, JoinBody, Signing, body_of, own_certificate, check_context, verify_join,
  issue_admission, verify_admission,
}
use peer_application_runtime.Authority.Admission.Binding.{verify_admission-binds}

abbrev times : ℕ → Bytes
times zero = []
times (suc n) = 0 ∷ times n

abbrev root : Bytes
root = times 32

abbrev space : Authority
space = record {
  app = [];
  space = root;
  genesis = record { app = []; authority = root; members = root; policy = root };
  max_controls = 9;
  nodes = [];
  sequences = [];
  memberships = [];
  resolved = [];
  head = root;
  revision = 0;
  events = [];
  event_bytes = 1;
  fork = none;
  invalid = false;
}

abbrev trust : Trust
trust = record {
  valid_app = λ app. true;
  read_certificate =
      λ raw. done (record { for_app = []; account = []; device_key = root; agreement_key = [] });
  device_of = λ app key. 4 ∷ [];
  certificate_of = λ raw. 3 ∷ [];
  verify_certificate = λ app account raw. true;
  seal_of = λ device role op head epoch revision. [];
}

abbrev join : Join
join = record {
  app = [];
  space = root;
  device_id = 4 ∷ [];
  certificate_id = 3 ∷ [];
  join_nonce = root;
  role = writer;
}

abbrev request : JoinBody
request = record {
  for_app = [];
  for_space = root;
  with_certificate = 3 ∷ [];
  fresh = root;
  as_role = writer;
}

abbrev read : Bytes → Outcome SignedObject
read [] = failed schema_invalid
read (c ∷ body) = done (record { body_bytes = body; signer = root; signature = [] })

abbrev signing : Signing
signing = record {
  read_object = read;
  read_join = λ raw. done request;
  read_admission = λ raw. done (body_of join 6);
  write_join = λ b. 5 ∷ [];
  write_admission = λ b. 5 ∷ [];
  valid_join = λ b. true;
  valid_admission = λ b. true;
  public_of = λ seed. root;
  sign_join = λ seed body. done (7 ∷ body);
  sign_admission =
      λ seed body. demand (leb (suc (length body)) 66000) schema_invalid >> done (7 ∷ body);
  verify_join_of = λ key body signature. true;
  verify_admission_of = λ key body signature. true;
}

joins : verify_join trust signing [] root (1 ∷ []) (2 ∷ 2 ∷ []) root writer ≡ done join
unfolding verify_join check_context own_certificate parse bytes_eq role_eq
joins = refl

issues :
    issue_admission trust signing space [] (1 ∷ []) (2 ∷ 2 ∷ []) root writer 6 ≡ done (7 ∷ 5 ∷ [])
unfolding issue_admission check_blocked verify_join check_context own_certificate parse bytes_eq
    role_eq lookup
issues = refl

abbrev admission : Retrieval
admission = record { for_device = 4 ∷ []; minimum_sequence = 6; for_role = writer }

admits : verify_admission trust signing root join (7 ∷ 5 ∷ []) ≡ done admission
unfolding verify_admission parse bytes_eq role_eq
admits = refl

-- A join with another nonce.
refuses :
    verify_admission trust signing root (record join { join_nonce = [] }) (7 ∷ 5 ∷ [])
    ≡ failed admission_context
unfolding verify_admission parse bytes_eq role_eq
refuses = refl

verify_admission-binds_example :
    (root ≡ root)
    × (join ≡ join)
    × (admission ≡ admission)
    × (admission.for_device ≡ join.device_id)
    × (admission.for_role ≡ join.role)
verify_admission-binds_example =
    verify_admission-binds trust signing root root join join (7 ∷ 5 ∷ []) admission admission admits
      admits
