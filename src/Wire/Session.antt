-- ===== src/Wire/Session.antt =====
-- `domain`, `Transcript` and `build_transcript` of experiments/g0-wire/par_wire/negotiation.py.
--
-- `validate` is `validate_frame` of schema.py, and `sha256` the function of hashlib. What the code
-- reads of a valid HELLO frame has the type that the frame grammar gives it; a frame that the
-- grammar excludes raises an error of Python (`fault`).
pub mod Binding
mod Tests
use peer_application_runtime.Base.{
  ℕ, List, [], ◌∷◌, Bool, false, not, ◌&&◌, ◌||◌, leb, ◌==◌, length,
}
use peer_application_runtime.Base.Bytes.{Bytes, bytes_eq}
use peer_application_runtime.Wire.Error.{
  Result, ok, raised, ◌>>=◌, ◌>>◌, refuse, domain as bad_domain, role as bad_role,
  profile as bad_profile, transport_binding, message_type, app_binding, reflection, negotiation,
  fault,
}
use peer_application_runtime.Wire.Value.{
  nat, Value, uint, bytes, text, array, dict, Values, nil, cons, end, field,
}
use peer_application_runtime.Wire.Encode.{encode, default_max_bytes, default_max_nodes}
use peer_application_runtime.Wire.Framing.{decode_frame}
use peer_application_runtime.Wire.Paging.{entry, as_dict, as_uint, as_bytes}

-- A `str`, as its code points.
abbrev pub Str : Type 0
Str = List ℕ

abbrev pub par : Str
par = 80 ∷ 65 ∷ 82 ∷ []

abbrev pub session_auth : Str
session_auth = 115 ∷ 101 ∷ 115 ∷ 115 ∷ 105 ∷ 111 ∷ 110 ∷ 45 ∷ 97 ∷ 117 ∷ 116 ∷ 104 ∷ []

abbrev pub session_id : Str
session_id = 115 ∷ 101 ∷ 115 ∷ 115 ∷ 105 ∷ 111 ∷ 110 ∷ 45 ∷ 105 ∷ 100 ∷ []

abbrev pub initiator_role : Str
initiator_role = 105 ∷ 110 ∷ 105 ∷ 116 ∷ 105 ∷ 97 ∷ 116 ∷ 111 ∷ 114 ∷ []

abbrev pub responder_role : Str
responder_role = 114 ∷ 101 ∷ 115 ∷ 112 ∷ 111 ∷ 110 ∷ 100 ∷ 101 ∷ 114 ∷ []

-- 'par/1-draft-2'
abbrev pub draft_2 : Str
draft_2 = 112 ∷ 97 ∷ 114 ∷ 47 ∷ 49 ∷ 45 ∷ 100 ∷ 114 ∷ 97 ∷ 102 ∷ 116 ∷ 45 ∷ 50 ∷ []

-- `['PAR',1,label,parts]`.
abbrev pub tagged : Str → Values → Value
tagged label parts =
    array (cons (text par) (cons (uint 1) (cons (text label) (cons (array parts) nil))))

unfoldable pub domain : Str → Values → Result Bytes
domain label parts = do
  refuse (not (bytes_eq label session_auth || bytes_eq label session_id)) bad_domain
  encode default_max_bytes default_max_nodes (tagged label parts)

pub record Transcript : Type 0 where
  pub canonical : Bytes
  pub candidate_session_id : Bytes
  pub authenticated : Bool

unfoldable pub signing_bytes : Transcript → Str → Result Bytes
signing_bytes t role = do
  refuse (not (bytes_eq role initiator_role || bytes_eq role responder_role)) bad_role
  domain session_auth (cons (bytes t.canonical) (cons (text role) nil))

abbrev pub as_text : Value → Result Str
as_text (text t) = ok t
as_text _ = raised fault

abbrev pub as_values : Value → Result Values
as_values (array vs) = ok vs
as_values _ = raised fault

unfoldable pub lists_text : Str → Values → Bool
lists_text t nil = false
lists_text t (cons (text u) vs) = bytes_eq u t || lists_text t vs
lists_text t (cons _ vs) = lists_text t vs

unfoldable pub lists_uint : ℕ → Values → Bool
lists_uint n nil = false
lists_uint n (cons (uint m) vs) = m == n || lists_uint n vs
lists_uint n (cons _ vs) = lists_uint n vs

-- The body of a HELLO frame, `a[4]`.
pub record Hello : Type 0 where
  pub app : Str
  pub challenge : Bytes
  pub wires : Values
  pub suites : Values
  pub profile : Bytes
  pub peer : Bytes

-- `a[1]`.
unfoldable pub kind_of : Value → Result ℕ
kind_of frame = do fs ← as_dict frame; v ← entry 1 fs; as_uint v

unfoldable pub hello_of : Value → Result Hello
hello_of frame = do
  fs ← as_dict frame
  body ← entry 4 fs
  b ← as_dict body
  app_value ← entry 0 b
  app ← as_text app_value
  challenge_value ← entry 2 b
  challenge ← as_bytes challenge_value
  wires_value ← entry 3 b
  wires ← as_values wires_value
  suites_value ← entry 4 b
  suites ← as_values suites_value
  profile_value ← entry 5 b
  profile ← as_bytes profile_value
  peer_value ← entry 6 b
  peer ← as_bytes peer_value
  ok (record {
    app = app;
    challenge = challenge;
    wires = wires;
    suites = suites;
    profile = profile;
    peer = peer;
  })

-- What the caller expects and has selected.
pub record Expected : Type 0 where
  pub profile : Bytes
  pub initiator_peer : Bytes
  pub responder_peer : Bytes
  pub wire : Str
  pub suite : ℕ

abbrev pub bad_peer : Bytes → Bool
bad_peer peer = not (leb 1 (length peer) && leb (length peer) 128)

-- The comparisons of the two bodies with what is expected, in their order.
unfoldable pub check_hellos : Hello → Hello → Expected → Result (Unit {0})
check_hellos aa bb x = do
  refuse (not (bytes_eq aa.app bb.app)) app_binding
  refuse (not (bytes_eq aa.profile x.profile) || not (bytes_eq bb.profile x.profile)) bad_profile
  refuse (not (bytes_eq aa.peer x.initiator_peer) || not (bytes_eq bb.peer x.responder_peer))
      transport_binding
  refuse (bytes_eq aa.peer bb.peer || bytes_eq aa.challenge bb.challenge) reflection
  refuse (not (bytes_eq x.wire draft_2) || not (x.suite == 1)) negotiation
  refuse (not (lists_text x.wire aa.wires) || not (lists_uint x.suite aa.suites)) negotiation
  refuse (not (lists_text x.wire bb.wires) || not (lists_uint x.suite bb.suites)) negotiation

module _ (validate : Value → Result (Unit {0})) (sha256 : Bytes → Bytes) where
  unfoldable pub payload : Bytes → Bytes → Hello → Hello → Expected → Value
  payload initiator responder aa bb x = dict (
      field (nat 0) (uint 1) (
        field (nat 1) (text aa.app) (
          field (nat 2) (text x.wire) (
            field (nat 3) (uint x.suite) (
              field (nat 4) (bytes x.profile) (
                field (nat 5) (bytes (sha256 initiator)) (
                  field (nat 6) (bytes (sha256 responder)) (
                    field (nat 7) (bytes aa.challenge) (
                      field (nat 8) (bytes bb.challenge) (
                        field (nat 9) (bytes aa.peer) (
                          field (nat 10) (bytes bb.peer) (
                            field (nat 11) (text initiator_role)
                              (field (nat 12) (text responder_role) end)))))))))))))

  unfoldable pub build_transcript : Bytes → Bytes → Expected → Result Transcript
  build_transcript initiator responder x = do
    refuse (not (length x.profile == 32)) bad_profile
    refuse (bad_peer x.initiator_peer || bad_peer x.responder_peer) transport_binding
    a ← decode_frame validate initiator
    b ← decode_frame validate responder
    kind ← kind_of a
    kind' ← kind_of b
    refuse (not (kind == 1) || not (kind' == 1)) message_type
    aa ← hello_of a
    bb ← hello_of b
    check_hellos aa bb x
    canonical ← encode default_max_bytes default_max_nodes (payload initiator responder aa bb x)
    preimage ← domain session_id (cons (bytes canonical) nil)
    ok (record {
      canonical = canonical;
      candidate_session_id = sha256 preimage;
      authenticated = false;
    })

  -- `auth_digest`.
  unfoldable pub auth_digest : Transcript → Str → Result Bytes
  auth_digest t role = do b ← signing_bytes t role; ok (sha256 b)
