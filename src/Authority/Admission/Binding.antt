-- ===== src/Authority/Admission/Binding.antt =====
-- An admission is for one authority and one join.
mod Tests
use peer_application_runtime.Base.{
  Bool, true, ◌&&◌, leb, ◌==◌, length, both, ◌≡◌, refl, sym, ap, subst, ◌∙◌,
}
use peer_application_runtime.Base.Bytes.{Bytes, bytes_eq, bytes_eq_iff}
use peer_application_runtime.Base.Fallible.{done, after, after_demand, done-injective}
use peer_application_runtime.Authority.Control.{
  Outcome, Role, SignedObject, parse, schema_invalid, crypto_invalid, authority_mismatch,
  admission_context, admission_sequence, reader, writer, retainer,
}
use peer_application_runtime.Authority.Chain.{role_eq}
use peer_application_runtime.Authority.Permit.{Trust}
use peer_application_runtime.Authority.Admission.{
  AdmissionBody, Join, Retrieval, Signing, matches, verify_admission,
}

role_eq_ok : (a b : Role) → role_eq a b ≡ true → a ≡ b
unfolding role_eq
role_eq_ok reader reader e = refl
role_eq_ok writer writer e = refl
role_eq_ok retainer retainer e = refl
role_eq_ok _ _ e = cc

-- The join that an admission names.
abbrev joined_by : AdmissionBody → Join
joined_by b = record {
  app = b.in_app;
  space = b.in_space;
  device_id = b.admitted;
  certificate_id = b.by_certificate;
  join_nonce = b.nonce;
  role = b.in_role;
}

matches_ok : (b : AdmissionBody) (j : Join) → matches b j ≡ true → joined_by b ≡ j
matches_ok b j e0 =
    let (e1, role) =
      both
        (bytes_eq b.in_app j.app
          && bytes_eq b.in_space j.space
          && bytes_eq b.admitted j.device_id
          && bytes_eq b.by_certificate j.certificate_id
          && bytes_eq b.nonce j.join_nonce)
        _ e0 in
    let (e2, nonce) =
      both
        (bytes_eq b.in_app j.app
          && bytes_eq b.in_space j.space
          && bytes_eq b.admitted j.device_id
          && bytes_eq b.by_certificate j.certificate_id)
        _ e1 in
    let (e3, certificate) =
      both
        (bytes_eq b.in_app j.app && bytes_eq b.in_space j.space && bytes_eq b.admitted j.device_id)
        _ e2 in
    let (e4, device) = both (bytes_eq b.in_app j.app && bytes_eq b.in_space j.space) _ e3 in
    let (app, space) = both (bytes_eq b.in_app j.app) _ e4 in
    rw
      (
        (bytes_eq_iff _ _).0 app,
        (bytes_eq_iff _ _).0 space,
        (bytes_eq_iff _ _).0 device,
        (bytes_eq_iff _ _).0 certificate,
        (bytes_eq_iff _ _).0 nonce,
        role_eq_ok b.in_role j.role role,
      )
      refl

module _ (t : Trust) (v : Signing) where
  -- What an accepted admission says: it is signed by the authority, and names the join.
  record Accepted (key : Bytes) (j : Join) (raw : Bytes) (r : Retrieval) : Type 0 where
    object : SignedObject
    read : parse v.read_object 66000 raw ≡ done object
    body : AdmissionBody
    decoded : parse v.read_admission 66000 object.body_bytes ≡ done body
    by_authority : object.signer ≡ key
    signed : v.verify_admission_of key object.body_bytes object.signature ≡ true
    for_join : joined_by body ≡ j
    gives :
        record {
          for_device = body.admitted;
          minimum_sequence = body.least_sequence;
          for_role = body.in_role;
        }
        ≡ r

  verify_admission-Accepted :
      (key : Bytes) (j : Join) (raw : Bytes) {r : Retrieval}
      → verify_admission t v key j raw ≡ done r
      → Accepted key j raw r
  unfolding verify_admission
  verify_admission-Accepted key j raw e =
      after_demand (length key == 32) schema_invalid e λ size rest.
        after (parse v.read_object 66000 raw) rest λ o read rest.
          after (parse v.read_admission 66000 o.body_bytes) rest λ b decoded rest.
            after_demand (bytes_eq o.signer key) authority_mismatch rest λ own rest.
              after_demand (v.verify_admission_of key o.body_bytes o.signature) crypto_invalid rest
                λ signed rest. after_demand (matches b j) admission_context rest λ same rest.
                  after_demand (leb 1 b.least_sequence) admission_sequence rest λ positive end.
                    record {
                      object = o;
                      read = read;
                      body = b;
                      decoded = decoded;
                      by_authority = (bytes_eq_iff _ _).0 own;
                      signed = signed;
                      for_join = matches_ok b j same;
                      gives = done-injective end;
                    }

  -- If `verify_admission` accepts the same bytes under two authorities for two joins, then the authorities are one and
  -- the joins are one: they agree in app, Space, device, certificate, nonce and role. The result is the same,
  -- for the device and the role of the join.
  pub verify_admission-binds :
      (key key' : Bytes) (j j' : Join) (raw : Bytes) (r r' : Retrieval)
      → verify_admission t v key j raw ≡ done r
      → verify_admission t v key' j' raw ≡ done r'
      → (key ≡ key') × (j ≡ j') × (r ≡ r') × (r.for_device ≡ j.device_id) × (r.for_role ≡ j.role)
  verify_admission-binds key key' j j' raw r r' e e' =
      let a = verify_admission-Accepted key j raw e in
      let b = verify_admission-Accepted key' j' raw e' in
      let object : a.object ≡ b.object = done-injective (sym a.read ∙ b.read) in
      let body : a.body ≡ b.body =
        done-injective (
          sym a.decoded ∙ ap (λ o. parse v.read_admission 66000 o.body_bytes) object ∙ b.decoded) in
      (
        sym a.by_authority ∙ ap (λ o. o.signer) object ∙ b.by_authority,
        sym a.for_join ∙ ap joined_by body ∙ b.for_join,
        sym a.gives
            ∙ ap
                (λ x. record {
                  for_device = x.admitted;
                  minimum_sequence = x.least_sequence;
                  for_role = x.in_role;
                })
                body
            ∙ b.gives,
        sym (ap (λ x. x.for_device) a.gives) ∙ ap (λ x. x.device_id) a.for_join,
        sym (ap (λ x. x.for_role) a.gives) ∙ ap (λ x. x.role) a.for_join,
      )
