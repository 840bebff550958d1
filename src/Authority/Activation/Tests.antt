-- ===== src/Authority/Activation/Tests.antt =====
-- A Space with one writer at its first control: a permit to write, and the activation of one seed.
use peer_application_runtime.Base.{ℕ, zero, suc, [], ◌∷◌, true, false, none, some, ◌≡◌, refl}
use peer_application_runtime.Base.Bytes.{Bytes, bytes_eq, contains, lookup}
use peer_application_runtime.Base.Fallible.{done, failed}
use peer_application_runtime.Authority.Control.{init, Control, writer, stale_decision}
use peer_application_runtime.Authority.State.{Authority, check_blocked, same, bump}
use peer_application_runtime.Authority.Chain.{membership_at}
use peer_application_runtime.Authority.Permit.{
  to_write, Material, Holder, Trust, Permit, get, membership, epoch_anchor, epoch_of,
  member_certificate, check_epoch, permit_for, authorize, validate_permit,
}
use peer_application_runtime.Authority.Permit.Current.{Granted, authorize_valid, permit_stale}
use peer_application_runtime.Authority.Activation.{
  Opening, Offer, Manifest, check_entries, is_sorted_set, check_manifest, parse_seed_manifest,
  open_seed, open_seeds, same_blocks, member_then, open_material, verify_activation,
}
use peer_application_runtime.Authority.Activation.Layout.{Verified, verify_activation-Verified}

abbrev times : ℕ → Bytes
times zero = []
times (suc n) = 0 ∷ times n

abbrev root : Bytes
root = times 32

abbrev first : Control
first = record {
  raw = root;
  body = record {
    app = [];
    space = root;
    sequence = 1;
    epoch = 1;
    parent = root;
    action = init;
    members = root;
    policy = root;
    packages = some root;
    seeds = some root;
    package_set = some root;
    authority = root;
    next_authority = none;
    features = [];
  };
  id = root;
  authority_after = root;
  anchor_id = root;
}

abbrev space : Authority
space = record {
  app = [];
  space = root;
  genesis = record { app = []; authority = root; members = root; policy = root };
  max_controls = 9;
  nodes = (root, first) ∷ [];
  sequences = (1, root) ∷ [];
  memberships =
      (
        root,
        record {
          root = root;
          pages = [];
          members = record { device_id = 4 ∷ []; certificate_id = []; role = writer } ∷ [];
        },
      )
      ∷ [];
  resolved = root ∷ [];
  head = root;
  revision = 2;
  events = [];
  event_bytes = 1;
  fork = none;
  invalid = false;
}

abbrev trust : Trust
trust = record {
  valid_app = λ app. true;
  read_certificate =
      λ raw. done (record { for_app = []; account = []; device_key = []; agreement_key = [] });
  device_of = λ app key. 4 ∷ [];
  certificate_of = λ raw. [];
  verify_certificate = λ app account raw. true;
  seal_of = λ device role op head epoch revision. device;
}

abbrev manifest : Manifest
manifest = record {
  app = [];
  space = root;
  epoch = 1;
  nonce = root;
  entries =
      record { object_id = 1 ∷ []; block_id = 2 ∷ []; kind = 0; size = 3; plain_digest = 9 ∷ [] }
      ∷ [];
  cut = [];
}

abbrev opening : Opening
opening = record {
  read_manifest = λ raw. done manifest;
  public_of = λ secret. [];
  open_package = λ secret a device certificate sealed ids. done (7 ∷ []);
  seed_root_of = λ raw. root;
  block_id_of = λ raw. 2 ∷ [];
  open_block = λ secret a e raw. done raw;
  sha256 = λ plain. 9 ∷ [];
  key_check = λ secret. secret;
}

abbrev offer : Offer
offer = record {
  certificate = 3 ∷ [];
  recipient_secret = root;
  sealed = [];
  package_ids = [];
  manifest = 6 ∷ [];
  seeds = (2 ∷ [], 8 ∷ []) ∷ [];
}

abbrev material : Material
material = record {
  epoch = 1;
  anchor_id = root;
  recipient_id = 4 ∷ [];
  secret = 7 ∷ [];
  seeds = (1 ∷ [], 8 ∷ []) ∷ [];
  cut = [];
}

opens : verify_activation trust opening offer space ≡ done material
unfolding verify_activation same_blocks membership epoch_anchor member_certificate get membership_at
    member_then open_material parse_seed_manifest check_manifest check_entries is_sorted_set
    open_seeds open_seed same bytes_eq contains lookup
opens = refl

verify_activation-Verified_example : Verified trust opening offer space material
verify_activation-Verified_example = verify_activation-Verified trust opening offer space opens

abbrev holder : Holder
holder = record { authority = space; active = some material; key_checks = [] }

abbrev permit : Permit
permit = permit_for trust (4 ∷ []) writer to_write space

permitted : authorize trust (3 ∷ []) to_write holder ≡ done permit
unfolding authorize check_blocked membership epoch_anchor member_certificate get check_epoch
    epoch_of bytes_eq contains lookup
permitted = refl

authorize_valid_example :
    Granted trust (3 ∷ []) to_write holder permit × (validate_permit trust permit space ≡ done tt)
authorize_valid_example = authorize_valid trust (3 ∷ []) to_write holder permitted

-- After any change of the state the permit is stale.
stale : validate_permit trust permit (bump space) ≡ failed stale_decision
unfolding validate_permit check_blocked bump epoch_of bytes_eq lookup
stale = refl

-- It is not by what the state holds beside its head, its epoch and its revision.
abbrev same_revision : Authority
same_revision = record space { event_bytes = 5 }

still_valid : validate_permit trust permit same_revision ≡ done tt
unfolding validate_permit check_blocked epoch_of bytes_eq lookup
still_valid = refl

permit_stale_example :
    (same_revision.head ≡ space.head)
    × (epoch_of same_revision ≡ epoch_of space)
    × (same_revision.revision ≡ space.revision)
permit_stale_example =
    permit_stale trust (3 ∷ []) to_write holder same_revision permitted still_valid
