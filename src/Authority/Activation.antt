-- ===== src/Authority/Activation.antt =====
-- activation.py and `activate` of chain.py. The manifest is the record its decoder reads, with the types and lengths
-- that `parse_seed_manifest` asks of its items; the packages, blocks and hashes are parameters.
pub mod Layout
mod Tests
use peer_application_runtime.Base.{
  ℕ, ◌+◌, List, [], ◌∷◌, Bool, true, false, not, ◌&&◌, ◌||◌, Option, none, some, leb, ◌==◌, length,
}
use peer_application_runtime.Base.Text.{str_lt}
use peer_application_runtime.Base.Bytes.{Bytes, bytes_eq, contains, lookup, has_entry}
use peer_application_runtime.Base.Fallible.{done, failed, demand, ◌>>=◌, ◌>>◌}
use peer_application_runtime.Authority.Control.{
  Outcome, Control, Member, Role, schema_invalid, context_mismatch, crypto_invalid,
  resource_blocked, not_authorized, certificate_binding, seed_layout, seed_root, seed_set,
  seed_digest, seed_plaintext, fault, epoch_secret_conflict, epoch_secret_reused,
}
use peer_application_runtime.Authority.Membership.{Membership, has_content}
use peer_application_runtime.Authority.State.{Authority, Answer, same, bump, check_blocked, id_at}
use peer_application_runtime.Authority.Chain.{membership_at}
use peer_application_runtime.Authority.Permit.{
  Material, Holder, Certificate, Trust, get, membership, epoch_anchor, member_certificate,
}

pub record Seed : Type 0 where
  pub object_id : Bytes
  pub block_id : Bytes
  pub kind : ℕ
  pub size : ℕ
  pub plain_digest : Bytes

pub record Manifest : Type 0 where
  pub app : Bytes
  pub space : Bytes
  pub epoch : ℕ
  pub nonce : Bytes
  pub entries : List Seed
  pub cut : List Bytes

pub record Opening : Type 0 where
  pub read_manifest : Bytes → Outcome Manifest
  pub public_of : Bytes → Bytes
  pub open_package : Bytes → Control → Bytes → Bytes → Bytes → List Bytes → Outcome Bytes
  pub seed_root_of : Bytes → Bytes
  pub block_id_of : Bytes → Bytes
  pub open_block : Bytes → Control → Seed → Bytes → Outcome Bytes
  pub sha256 : Bytes → Bytes
  pub key_check : Bytes → Bytes

abbrev pub above : Option Bytes → Bytes → Bool
above none id = true
above (some previous) id = str_lt previous id

-- The loop over the entries, with `previous` and `block_ids`; the result is `total`.
unfoldable pub check_entries : Option Bytes → List Bytes → List Seed → Outcome ℕ
check_entries previous blocks [] = done 0
check_entries previous blocks (e ∷ es) = do
  demand (leb e.size 262144) schema_invalid
  demand (above previous e.object_id && not (contains e.block_id blocks)) seed_layout
  total ← check_entries (some e.object_id) (e.block_id ∷ blocks) es
  done (e.size + total)

-- `m[6]==sorted(set(m[6]))`.
unfoldable pub is_sorted_set : Option Bytes → List Bytes → Bool
is_sorted_set previous [] = true
is_sorted_set previous (c ∷ cs) = above previous c && is_sorted_set (some c) cs

unfoldable pub check_manifest : Manifest → Outcome (Unit {0})
check_manifest m = do
  demand (leb (length m.entries) 256 && leb (length m.cut) 256) resource_blocked
  total ← check_entries none [] m.entries
  demand (leb total 4194304) resource_blocked
  demand (is_sorted_set none m.cut) seed_layout

-- `parse_seed_manifest`.
unfoldable pub parse_seed_manifest : Opening → Bytes → Outcome Manifest
parse_seed_manifest o raw = do
  demand (leb 1 (length raw) && leb (length raw) 65536) schema_invalid
  m ← o.read_manifest raw
  check_manifest m
  done m

abbrev pub is_supplied : List Seed → Bytes → Bool
is_supplied [] id = false
is_supplied (e ∷ es) id = bytes_eq e.block_id id || is_supplied es id

abbrev pub only_supplied : List Seed → List (Bytes × Bytes) → Bool
only_supplied es [] = true
only_supplied es ((id, raw) ∷ seeds) = is_supplied es id && only_supplied es seeds

abbrev pub all_there : List Seed → List (Bytes × Bytes) → Bool
all_there [] seeds = true
all_there (e ∷ es) seeds = has_entry (lookup e.block_id seeds) && all_there es seeds

-- `set(supplied)=={e[1] for e in m[5]}`.
unfoldable pub same_blocks : List Seed → List (Bytes × Bytes) → Bool
same_blocks es seeds = only_supplied es seeds && all_there es seeds

-- One entry of the manifest against the seeds supplied.
unfoldable pub open_seed :
    Opening → Bytes → Control → List (Bytes × Bytes) → Seed → Outcome (Bytes × Bytes)
open_seed o secret a seeds e = elim (lookup e.block_id seeds) [
  | none ↦ failed fault
  | some raw ↦ do
    demand (leb 1 (length raw) && leb (length raw) 270336) schema_invalid
    demand (bytes_eq (o.block_id_of raw) e.block_id) seed_digest
    plain ← o.open_block secret a e raw
    demand (bytes_eq (o.sha256 plain) e.plain_digest) seed_plaintext
    done (e.object_id, plain)
]

unfoldable pub open_seeds :
    Opening → Bytes → Control → List (Bytes × Bytes) → List Seed → Outcome (List (Bytes × Bytes))
open_seeds o secret a seeds [] = done []
open_seeds o secret a seeds (e ∷ es) = do
  plain ← open_seed o secret a seeds e
  rest ← open_seeds o secret a seeds es
  done (plain ∷ rest)

-- The member at the start of the epoch, whose certificate is still the same.
unfoldable pub member_then : Member → Membership → Outcome Member
member_then now past = elim (get now.device_id past.members) [
  | none ↦ failed certificate_binding
  | some old ↦ do
    demand (has_content old.role && bytes_eq old.certificate_id now.certificate_id)
        certificate_binding
    done old
]

-- What a member gives to `activate`; the seeds are keyed by their blocks.
pub record Offer : Type 0 where
  pub certificate : Bytes
  pub recipient_secret : Bytes
  pub sealed : Bytes
  pub package_ids : List Bytes
  pub manifest : Bytes
  pub seeds : List (Bytes × Bytes)

module _ (t : Trust) (o : Opening) where
  -- `verify_activation` from the package on.
  unfoldable pub open_material : Offer → Authority → Control → Member → Outcome Material
  open_material f s a m = do
    secret ← o.open_package f.recipient_secret a m.device_id m.certificate_id f.sealed f.package_ids
    demand (leb 1 (length f.manifest) && leb (length f.manifest) 65536) schema_invalid
    demand (same (some (o.seed_root_of f.manifest)) a.body.seeds) seed_root
    n ← parse_seed_manifest o f.manifest
    demand
        (bytes_eq n.app s.app
          && bytes_eq n.space s.space
          && n.epoch == a.body.epoch
          && same (some n.nonce) a.body.package_set)
        context_mismatch
    demand (leb (length f.seeds) 256 && same_blocks n.entries f.seeds) seed_set
    plains ← open_seeds o secret a f.seeds n.entries
    done (record {
      epoch = a.body.epoch;
      anchor_id = a.id;
      recipient_id = m.device_id;
      secret = secret;
      seeds = plains;
      cut = n.cut;
    })

  unfoldable pub verify_activation : Offer → Authority → Outcome Material
  verify_activation f s = do
    current ← membership s
    a ← epoch_anchor s
    found ← member_certificate t s.app current f.certificate
    demand (has_content found.1.role) not_authorized
    past ← membership_at a.id s
    old ← member_then found.1 past
    demand (length f.recipient_secret == 32) schema_invalid
    demand (bytes_eq (o.public_of f.recipient_secret) found.0.agreement_key) crypto_invalid
    open_material f s a old

  abbrev pub unreused : ℕ → Bytes → List (ℕ × Bytes) → Bool
  unreused epoch check [] = true
  unreused epoch check ((n, other) ∷ m) =
      (n == epoch || not (bytes_eq other check)) && unreused epoch check m

  abbrev pub unconflicted : Option Bytes → Bytes → Bool
  unconflicted none check = true
  unconflicted (some other) check = bytes_eq other check

  abbrev pub put_check : ℕ → Bytes → Option Bytes → List (ℕ × Bytes) → List (ℕ × Bytes)
  put_check epoch check none m = (epoch, check) ∷ m
  put_check epoch check (some other) m = m

  unfoldable pub check_keys : Material → List (ℕ × Bytes) → Outcome (Unit {0})
  check_keys m keys = do
    demand (unconflicted (id_at m.epoch keys) (o.key_check m.secret)) epoch_secret_conflict
    demand (unreused m.epoch (o.key_check m.secret) keys) epoch_secret_reused

  abbrev activated : Material → Holder → Holder
  activated m h = record h {
    authority = bump h.authority;
    active = some m;
    key_checks = put_check m.epoch (o.key_check m.secret) (id_at m.epoch h.key_checks) h.key_checks;
  }

  -- `activate`.
  unfoldable pub activate : Offer → Holder → Holder × Outcome ℕ
  activate f h =
      elim (check_blocked h.authority >> verify_activation f h.authority >>= λ m.
      check_keys m h.key_checks >> done m) [
        | failed e ↦ (h, failed e)
        | done m ↦ (activated m h, done m.epoch)
      ]
