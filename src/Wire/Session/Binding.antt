-- ===== src/Wire/Session/Binding.antt =====
-- What the bytes of a session determine: equal signing bytes are of one transcript and one role,
-- and equal transcripts are of one handshake.
use peer_application_runtime.Base.{
  ℕ, zero, suc, [], not, ◌||◌, ◌≡◌, refl, sym, ap, ◌∙◌, ◌==◌, length,
}
use peer_application_runtime.Base.{||-left, ||-right, not-false}
use peer_application_runtime.Base.Bytes.{Bytes, bytes_eq, bytes_eq_iff}
use peer_application_runtime.Wire.Error.{Result, ok, on_bind, on_refuse, ok-injective}
use peer_application_runtime.Wire.Value.{
  Value, null, Fields, uint, bytes, text, array, dict, Values, nil, cons, end, field,
}
use peer_application_runtime.Wire.Encode.{
  sorted, insert, encode, default_max_bytes, default_max_nodes,
}
use peer_application_runtime.Wire.Normal.{normal, normal_values, IsObject, AllObjects, has_key}
use peer_application_runtime.Wire.Codec.{decode-encode}
use peer_application_runtime.Wire.Framing.{decode_frame}
use peer_application_runtime.Wire.Session.{
  Str, tagged, domain, session_auth, session_id, initiator_role, responder_role, Transcript,
  signing_bytes, Hello, kind_of, hello_of, Expected, bad_peer, check_hellos, payload,
  build_transcript,
}

-- The parts of an object, by their positions; `null` where there is none.
unfoldable items_at : ℕ → Values → Value
items_at n nil = null
items_at zero (cons v vs) = v
items_at (suc n) (cons v vs) = items_at n vs

unfoldable fields_at : ℕ → Fields → Value
fields_at n end = null
fields_at zero (field k v fs) = v
fields_at (suc n) (field k v fs) = fields_at n fs

abbrev part_at : ℕ → Value → Value
part_at n (array vs) = items_at n vs
part_at n (dict fs) = fields_at n fs
part_at n _ = null

abbrev parts_of : Value → Values
parts_of (array vs) = vs
parts_of _ = nil

abbrev text_in : Value → Str
text_in (text t) = t
text_in _ = []

abbrev bytes_in : Value → Bytes
bytes_in (bytes b) = b
bytes_in _ = []

abbrev uint_in : Value → ℕ
uint_in (uint n) = n
uint_in _ = 0

-- Objects with one encoding are equal up to the order of the items of their dicts.
encode-injective :
    (v w : Value) (b : Bytes)
    → IsObject v
    → IsObject w
    → encode default_max_bytes default_max_nodes v ≡ ok b
    → encode default_max_bytes default_max_nodes w ≡ ok b
    → normal v ≡ normal w
encode-injective v w b h k e f = ok-injective (
    sym (decode-encode default_max_bytes default_max_nodes v b h e)
    ∙ decode-encode default_max_bytes default_max_nodes w b k f)

domain_ok :
    (label : Str) (parts : Values) (b : Bytes)
    → domain label parts ≡ ok b
    → encode default_max_bytes default_max_nodes (tagged label parts) ≡ ok b
unfolding domain
domain_ok label parts b e0 =
    on_refuse (not (bytes_eq label session_auth || bytes_eq label session_id)) _ e0 (λ _ e. e)

-- The domain separates labels: equal bytes have one label, and parts that are equal up to the
-- order of the items of their dicts.
pub domain-injective :
    (l l' : Str) (parts parts' : Values) (b : Bytes)
    → AllObjects parts
    → AllObjects parts'
    → domain l parts ≡ ok b
    → domain l' parts' ≡ ok b
    → (l ≡ l') × (normal_values parts ≡ normal_values parts')
unfolding normal IsObject items_at
domain-injective l l' parts parts' b h h' e e' =
    let same =
      encode-injective (tagged l parts) (tagged l' parts') b (tt, (tt, (tt, (h, tt))))
        (tt, (tt, (tt, (h', tt)))) (domain_ok l parts b e) (domain_ok l' parts' b e') in
    (ap (λ v. text_in (part_at 2 v)) same, ap (λ v. parts_of (part_at 3 v)) same)

-- No bytes are signed for two roles or two transcripts: if the signing bytes of two calls are
-- equal, so are the roles and the canonical transcripts.
pub signing_bytes-injective :
    (t t' : Transcript) (role role' : Str) (b : Bytes)
    → signing_bytes t role ≡ ok b
    → signing_bytes t' role' ≡ ok b
    → (t.canonical ≡ t'.canonical) × (role ≡ role')
unfolding signing_bytes normal IsObject items_at
signing_bytes-injective t t' role role' b e0 e0' =
    on_refuse (not (bytes_eq role initiator_role || bytes_eq role responder_role)) _ e0 (λ _ e.
      on_refuse (not (bytes_eq role' initiator_role || bytes_eq role' responder_role)) _ e0'
        (λ _ e'.
          let same =
            (domain-injective session_auth session_auth
              (cons (bytes t.canonical) (cons (text role) nil))
              (cons (bytes t'.canonical) (cons (text role') nil)) b (tt, (tt, tt)) (tt, (tt, tt)) e
              e').1 in
          (ap (λ v. bytes_in (items_at 0 v)) same, ap (λ v. text_in (items_at 1 v)) same)))

check_hellos_peers :
    (aa bb : Hello) (x : Expected)
    → check_hellos aa bb x ≡ ok tt
    → (aa.peer ≡ x.initiator_peer) × (bb.peer ≡ x.responder_peer)
unfolding check_hellos
check_hellos_peers aa bb x e0 = on_refuse (not (bytes_eq aa.app bb.app)) _ e0 (λ _ e1.
    on_refuse (not (bytes_eq aa.profile x.profile) || not (bytes_eq bb.profile x.profile)) _ e1
      (λ _ e2.
        on_refuse
          (not (bytes_eq aa.peer x.initiator_peer) || not (bytes_eq bb.peer x.responder_peer)) _ e2
          (λ h _. (
            (bytes_eq_iff _ _).0 (not-false _ (||-left _ _ h)),
            (bytes_eq_iff _ _).0 (not-false _ (||-right _ _ h)),
          ))))

module _ (validate : Value → Result (Unit {0})) (sha256 : Bytes → Bytes) where
  -- What a successful `build_transcript` has checked and written.
  pub record Built (initiator responder : Bytes) (x : Expected) (t : Transcript) : Type 0 where
    pub aa : Hello
    pub bb : Hello
    pub matched : check_hellos aa bb x ≡ ok tt
    pub written :
        encode default_max_bytes default_max_nodes
          (payload validate sha256 initiator responder aa bb x)
        ≡ ok t.canonical

  build_transcript_ok :
      (initiator responder : Bytes) (x : Expected) (t : Transcript)
      → build_transcript validate sha256 initiator responder x ≡ ok t
      → Built initiator responder x t
  unfolding build_transcript
  build_transcript_ok initiator responder x t e0 =
      on_refuse (not (length x.profile == 32)) _ e0 (λ _ e1.
        on_refuse (bad_peer x.initiator_peer || bad_peer x.responder_peer) _ e1 (λ _ e2.
          on_bind (decode_frame validate initiator) e2 (λ a _ e3.
            on_bind (decode_frame validate responder) e3 (λ b _ e4.
              on_bind (kind_of a) e4 (λ kind _ e5. on_bind (kind_of b) e5 (λ kind' _ e6.
                on_refuse (not (kind == 1) || not (kind' == 1)) _ e6 (λ _ e7.
                  on_bind (hello_of a) e7 (λ aa _ e8. on_bind (hello_of b) e8 (λ bb _ e9.
                    on_bind (check_hellos aa bb x) e9 (λ _ m e10.
                      on_bind
                        (encode default_max_bytes default_max_nodes
                          (payload validate sha256 initiator responder aa bb x))
                        e10
                        (λ c w e11. on_bind (domain session_id (cons (bytes c) nil)) e11 (λ p _ e12.
                          record {
                            aa = aa;
                            bb = bb;
                            matched = m;
                            written = w ∙ ap ok (ap (λ z. z.canonical) (ok-injective e12));
                          }))))))))))))

  payload-IsObject :
      (i r : Bytes) (aa bb : Hello) (x : Expected) → IsObject (payload validate sha256 i r aa bb x)
  unfolding IsObject has_key payload
  payload-IsObject i r aa bb x = (
    refl,
    tt,
    (
      refl,
      tt,
      (
        refl,
        tt,
        (
          refl,
          tt,
          (
            refl,
            tt,
            (
              refl,
              tt,
              (
                refl,
                tt,
                (refl, tt, (refl, tt, (refl, tt, (refl, tt, (refl, tt, (refl, tt, tt)))))),
              ),
            ),
          ),
        ),
      ),
    ),
  )

  -- What a canonical transcript says of the handshake that it was built from.
  abbrev pub SameHandshake : Bytes → Bytes → Expected → Bytes → Bytes → Expected → Type 0
  SameHandshake i r x i' r' x' =
      (x.profile ≡ x'.profile)
      × (x.wire ≡ x'.wire)
      × (x.suite ≡ x'.suite)
      × (x.initiator_peer ≡ x'.initiator_peer)
      × (x.responder_peer ≡ x'.responder_peer)
      × (sha256 i ≡ sha256 i')
      × (sha256 r ≡ sha256 r')

  -- Two handshakes that `build_transcript` accepts with one canonical transcript have the same
  -- profile, wire version, suite and two peers, and HELLO frames of the same digests.
  pub build_transcript-injective :
      (i r i' r' : Bytes) (x x' : Expected) (t t' : Transcript)
      → build_transcript validate sha256 i r x ≡ ok t
      → build_transcript validate sha256 i' r' x' ≡ ok t'
      → t.canonical ≡ t'.canonical
      → SameHandshake i r x i' r' x'
  unfolding normal payload sorted insert fields_at
  build_transcript-injective i r i' r' x x' t t' e e' same =
      let p = build_transcript_ok i r x t e in
      let p' = build_transcript_ok i' r' x' t' e' in
      let (a, b) = check_hellos_peers p.aa p.bb x p.matched in
      let (a', b') = check_hellos_peers p'.aa p'.bb x' p'.matched in
      let q =
        encode-injective (payload validate sha256 i r p.aa p.bb x)
          (payload validate sha256 i' r' p'.aa p'.bb x') t.canonical
          (payload-IsObject i r p.aa p.bb x) (payload-IsObject i' r' p'.aa p'.bb x') p.written
          (p'.written ∙ ap ok (sym same)) in
      (
        ap (λ v. bytes_in (part_at 4 v)) q,
        ap (λ v. text_in (part_at 2 v)) q,
        ap (λ v. uint_in (part_at 3 v)) q,
        sym a ∙ ap (λ v. bytes_in (part_at 9 v)) q ∙ a',
        sym b ∙ ap (λ v. bytes_in (part_at 10 v)) q ∙ b',
        ap (λ v. bytes_in (part_at 5 v)) q,
        ap (λ v. bytes_in (part_at 6 v)) q,
      )
