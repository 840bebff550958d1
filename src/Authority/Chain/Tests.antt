-- ===== src/Authority/Chain/Tests.antt =====
-- A Space with one writer: the first control, its membership, a second control and one that competes with
-- it. The decoders of the tests read the first byte only, and it is a control's identifier.
use peer_application_runtime.Base.{
  ℕ, zero, suc, List, [], ◌∷◌, ◌++◌, true, false, none, some, ◌≡◌, refl, length, ap, ◌||◌, inl, inr,
  sym, ◌∙◌,
}
use peer_application_runtime.Base.Bytes.{has_entry, put, Bytes, bytes_eq, contains, lookup}
use peer_application_runtime.Base.Fallible.{done, failed}
use peer_application_runtime.Authority.Control.{
  schema_invalid, Outcome, Action, init, permission, Body, writer, Genesis, Services, parse,
}
use peer_application_runtime.Authority.Membership.{
  Membership, content_members, check_order, read_pages, verify_membership,
}
use peer_application_runtime.Authority.Membership.Roster.{IsRoster, verify_membership-IsRoster}
use peer_application_runtime.Authority.State.{
  Authority, id_at, has_raw, check_blocked, check_capacity, record_event, bump, control_at,
  parent_id, same, history, reuses, keeps_roots, check_first, check_transition, check_next, anchor,
}
use peer_application_runtime.Authority.Chain.{
  Call, observing, providing, append, admit, fork_with, check_room, check_rotation, check_control,
  inspect, observe, provide, provide_membership, settle, settle_permission, keep_view, resolve_head,
  membership_at, call, calls, create, total_bytes, members_eq, role_eq,
}
use peer_application_runtime.Authority.Chain.Linked.{IsChain}
use peer_application_runtime.Authority.Chain.Reached.{Observed, IsOffered, reachable-IsChain}
use peer_application_runtime.Authority.Chain.Frozen.{calls_frozen}
use peer_application_runtime.Authority.Chain.Bounded.{IsBounded, reachable-IsBounded}

abbrev times : ℕ → Bytes
times zero = []
times (suc n) = 0 ∷ times n

abbrev root : Bytes
root = times 32

abbrev body : ℕ → Bytes → Action → Body
body n parent action = record {
  app = [];
  space = root;
  sequence = n;
  epoch = 1;
  parent = parent;
  action = action;
  members = root;
  policy = root;
  packages = some (1 ∷ []);
  seeds = some (2 ∷ []);
  package_set = some (3 ∷ []);
  authority = 7 ∷ [];
  next_authority = none;
  features = [];
}

abbrev first_byte : Bytes → Outcome Body
first_byte [] = failed schema_invalid
first_byte (zero ∷ rest) = failed schema_invalid
first_byte (suc zero ∷ rest) = done (body 1 root init)
first_byte (suc (suc n) ∷ rest) = done (body 2 (1 ∷ []) permission)

-- Not injective.
abbrev first_of : Bytes → Bytes
first_of [] = []
first_of (b ∷ bs) = b ∷ []

abbrev a_genesis : Genesis
a_genesis = record { app = []; authority = 7 ∷ []; members = root; policy = root }

abbrev some_services : Services
some_services = record {
  read_object = λ raw. done (record { body_bytes = raw; signer = 7 ∷ []; signature = [] });
  read_genesis = λ raw. done a_genesis;
  read_entry = λ raw. done (record { body_bytes = raw; signature = []; possession = none });
  read_body = first_byte;
  read_page = λ raw. done (record { device_id = 4 ∷ []; certificate_id = []; role = writer } ∷ []);
  valid_app = λ app. true;
  space_id = λ raw. root;
  control_id = first_of;
  page_id = λ raw. raw;
  root_of = λ ids. root;
  verify_genesis = λ pk raw sig. true;
  verify_control = λ pk raw sig. true;
  verify_possession = λ pk raw sig. true;
}

abbrev blank : Authority
blank = record {
  app = [];
  space = root;
  genesis = a_genesis;
  max_controls = 9;
  nodes = [];
  sequences = [];
  memberships = [];
  resolved = [];
  head = root;
  revision = 0;
  events = [];
  event_bytes = 1;
  fork = none;
  invalid = false;
}

created : create some_services [] root (9 ∷ []) 9 ≡ done blank
unfolding create parse bytes_eq
created = refl

abbrev three : List Call
three = observing (1 ∷ []) ∷ providing ((5 ∷ []) ∷ []) ∷ observing (2 ∷ []) ∷ []

two_controls : length (calls some_services three blank).sequences ≡ 2
unfolding calls call observe inspect parse check_control check_first check_next check_rotation
    anchor check_blocked admit check_room check_capacity append fork_with bump record_event put
    id_at has_raw parent_id same reuses keeps_roots history check_transition control_at provide
    provide_membership settle settle_permission keep_view resolve_head membership_at total_bytes
    members_eq role_eq verify_membership read_pages check_order content_members bytes_eq contains
    lookup
two_controls = refl

-- A control for a number that has one.
competing :
    (calls some_services (three ++ observing (2 ∷ 2 ∷ []) ∷ []) blank).fork
    ≡ some (2 ∷ [], 2 ∷ 2 ∷ [])
unfolding calls call observe inspect parse check_control check_first check_next check_rotation
    anchor check_blocked admit check_room check_capacity append fork_with bump record_event put
    id_at has_raw parent_id same reuses keeps_roots history check_transition control_at provide
    provide_membership settle settle_permission keep_view resolve_head membership_at total_bytes
    members_eq role_eq verify_membership read_pages check_order content_members bytes_eq contains
    lookup
competing = refl

no_membership :
    (calls some_services (observing (1 ∷ []) ∷ observing (2 ∷ []) ∷ []) blank).head ≡ 1 ∷ []
unfolding calls call observe inspect parse check_control check_first check_next check_rotation
    anchor check_blocked admit check_room check_capacity append fork_with bump record_event put
    id_at has_raw parent_id same reuses keeps_roots history check_transition control_at provide
    provide_membership settle settle_permission keep_view resolve_head membership_at total_bytes
    members_eq role_eq verify_membership read_pages check_order content_members bytes_eq contains
    lookup
no_membership = refl

two_apart : (a b : Bytes) → Observed a three → Observed b three → first_of a ≡ first_of b → a ≡ b
two_apart a b (inl e) (inl e') same = e ∙ sym e'
two_apart a b (inr (inl e)) (inr (inl e')) same = e ∙ sym e'
two_apart a b (inl e) (inr (inl e')) same =
    let one : 1 ∷ [] ≡ 2 ∷ [] = sym (ap first_of e) ∙ same ∙ ap first_of e' in cc
two_apart a b (inr (inl e)) (inl e') same =
    let one : 2 ∷ [] ≡ 1 ∷ [] = sym (ap first_of e) ∙ same ∙ ap first_of e' in cc
two_apart a b (inr (inr none_left)) m same = absurd none_left
two_apart a b m (inr (inr none_left)) same = absurd none_left

reachable-IsChain_example :
    IsChain (IsOffered some_services three) some_services (calls some_services three blank)
reachable-IsChain_example =
    reachable-IsChain some_services [] root (9 ∷ []) 9 three blank two_apart created

reachable-IsBounded_example : IsBounded 1 (calls some_services three blank)
reachable-IsBounded_example =
    reachable-IsBounded some_services [] root (9 ∷ []) 9 three blank created

abbrev forked : Authority
forked = calls some_services (three ++ observing (2 ∷ 2 ∷ []) ∷ []) blank

calls_frozen_example : calls some_services (observing (3 ∷ []) ∷ providing [] ∷ []) forked ≡ forked
calls_frozen_example =
    calls_frozen some_services (observing (3 ∷ []) ∷ providing [] ∷ []) forked
      (ap (λ o. has_entry o || forked.invalid) competing)

abbrev a_view : Membership
a_view = record {
  root = root;
  pages = (5 ∷ []) ∷ [];
  members = record { device_id = 4 ∷ []; certificate_id = []; role = writer } ∷ [];
}

views : verify_membership some_services root ((5 ∷ []) ∷ []) ≡ done a_view
unfolding verify_membership read_pages check_order parse bytes_eq
views = refl

verify_membership-IsRoster_example : IsRoster a_view.members × (a_view.root ≡ root)
verify_membership-IsRoster_example =
    verify_membership-IsRoster some_services root ((5 ∷ []) ∷ []) a_view views
