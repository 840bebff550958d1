-- ===== src/Authority/Activation/Layout.antt =====
-- What material that becomes active has passed.
use peer_application_runtime.Base.{
  ℕ, ◌+◌, ◌≤◌, List, [], ◌∷◌, Bool, true, false, not, ◌&&◌, Option, none, some, leb, leb→le, ◌==◌,
  length, both, ==_iff, ◌≡◌, refl, sym, ap, subst, ◌∙◌, arith,
}
use peer_application_runtime.Base.Bytes.{Bytes, bytes_eq, bytes_eq_iff, contains, lookup}
use peer_application_runtime.Base.Fallible.{
  done, demanded, after, after_demand, after_option, done-injective,
}
use peer_application_runtime.Authority.Control.{
  Control, Member, schema_invalid, context_mismatch, crypto_invalid, resource_blocked, fault,
  certificate_binding, not_authorized, seed_layout, seed_root, seed_set, seed_digest,
  seed_plaintext,
}
use peer_application_runtime.Authority.Membership.{Membership, has_content}
use peer_application_runtime.Authority.State.{Authority, same}
use peer_application_runtime.Authority.Chain.{membership_at}
use peer_application_runtime.Authority.Permit.{
  Material, Trust, Certificate, get, membership, epoch_anchor, member_certificate,
}
use peer_application_runtime.Authority.Activation.{
  Seed, Manifest, Opening, Offer, above, check_entries, is_sorted_set, check_manifest,
  parse_seed_manifest, same_blocks, open_seed, open_seeds, member_then, open_material,
  verify_activation,
}

-- Entries that ascend by object, each of a block not in the list before it.
abbrev pub Ascends : Option Bytes → List Bytes → List Seed → Type 0
Ascends previous blocks [] = Unit {0}
Ascends previous blocks (e ∷ es) =
    (above previous e.object_id ≡ true)
    × (contains e.block_id blocks ≡ false)
    × Ascends (some e.object_id) (e.block_id ∷ blocks) es

abbrev pub total_size : List Seed → ℕ
total_size [] = 0
total_size (e ∷ es) = e.size + total_size es

check_entries-Ascends :
    (previous : Option Bytes) (blocks : List Bytes) (es : List Seed) {n : ℕ}
    → check_entries previous blocks es ≡ done n
    → Ascends previous blocks es × (n ≡ total_size es)
unfolding check_entries
check_entries-Ascends previous blocks [] eq = (tt, sym (done-injective eq))
check_entries-Ascends previous blocks (e ∷ es) eq =
    after_demand (leb e.size 262144) schema_invalid eq λ small rest.
      after_demand (above previous e.object_id && not (contains e.block_id blocks)) seed_layout rest
        λ layout rest.
          after (check_entries (some e.object_id) (e.block_id ∷ blocks) es) rest λ n more end.
            let (up, new) = both (above previous e.object_id) _ layout in
            let (ascends, total) = check_entries-Ascends _ _ es more in
            (
              (up, negated (contains e.block_id blocks) new, ascends),
              sym (done-injective end) ∙ ap (λ k. e.size + k) total,
            )
  where
    negated : (b : Bool) → not b ≡ true → b ≡ false
    negated b h = ground arith

pub record Layout (m : Manifest) : Type 0 where
  pub few_entries : length m.entries ≤ 256
  pub few_cut : length m.cut ≤ 256
  pub ascends : Ascends none [] m.entries
  pub bounded : total_size m.entries ≤ 4194304
  pub cut_sorted : is_sorted_set none m.cut ≡ true

check_manifest-Layout : (m : Manifest) {u : Unit {0}} → check_manifest m ≡ done u → Layout m
unfolding check_manifest
check_manifest-Layout m e =
    after_demand (leb (length m.entries) 256 && leb (length m.cut) 256) resource_blocked e
      λ few rest. after (check_entries none [] m.entries) rest λ n entries rest.
        after_demand (leb n 4194304) resource_blocked rest λ small rest.
          let (ascends, total) = check_entries-Ascends none [] m.entries entries in
          let (few_entries, few_cut) = both (leb (length m.entries) 256) _ few in
          record {
            few_entries = leb→le _ _ few_entries;
            few_cut = leb→le _ _ few_cut;
            ascends = ascends;
            bounded = omega (arith, leb→le n 4194304 small, total);
            cut_sorted = demanded (is_sorted_set none m.cut) seed_layout rest;
          }

parse-Layout :
    (o : Opening) (raw : Bytes) {m : Manifest} → parse_seed_manifest o raw ≡ done m → Layout m
unfolding parse_seed_manifest
parse-Layout o raw e =
    after_demand (leb 1 (length raw) && leb (length raw) 65536) schema_invalid e λ size rest.
      after (o.read_manifest raw) rest λ m read rest.
        after (check_manifest m) rest
          λ u checked end. subst Layout (done-injective end) (check_manifest-Layout m checked)

-- The block that is supplied for an entry: it has the entry's digest, it opens under the epoch's secret, and
-- what it opens to has the digest that the entry names.
pub record IsOpened (o : Opening) (secret : Bytes) (a : Control) (seeds : List (Bytes × Bytes))
    (e : Seed) (plain : Bytes) : Type 0 where
  pub block : Bytes
  pub supplied : lookup e.block_id seeds ≡ some block
  pub of_digest : o.block_id_of block ≡ e.block_id
  pub opens : o.open_block secret a e block ≡ done plain
  pub plain_of_digest : o.sha256 plain ≡ e.plain_digest

-- The plain bytes of every entry, in order.
abbrev pub Opened :
    Opening → Bytes → Control → List (Bytes × Bytes) → List Seed → List (Bytes × Bytes) → Type 0
Opened o secret a seeds [] [] = Unit {0}
Opened o secret a seeds (e ∷ es) ((id, plain) ∷ ps) =
    (id ≡ e.object_id) × IsOpened o secret a seeds e plain × Opened o secret a seeds es ps
Opened o secret a seeds [] (p ∷ ps) = ⊥
Opened o secret a seeds (e ∷ es) [] = ⊥

open_seed_lem :
    (o : Opening) (secret : Bytes) (a : Control) (seeds : List (Bytes × Bytes)) (e : Seed)
    {p : Bytes × Bytes}
    → open_seed o secret a seeds e ≡ done p
    → (p.0 ≡ e.object_id) × IsOpened o secret a seeds e p.1
unfolding open_seed
open_seed_lem o secret a seeds e eq0 =
    after_option (lookup e.block_id seeds) fault _ eq0 λ raw there eq.
      after_demand (leb 1 (length raw) && leb (length raw) 270336) schema_invalid eq λ size rest.
        after_demand (bytes_eq (o.block_id_of raw) e.block_id) seed_digest rest λ block rest.
          after (o.open_block secret a e raw) rest λ plain opened rest.
            after_demand (bytes_eq (o.sha256 plain) e.plain_digest) seed_plaintext rest
              λ digest end.
                subst (λ q. (q.0 ≡ e.object_id) × IsOpened o secret a seeds e q.1)
                  (done-injective end)
                  (
                    refl,
                    record {
                      block = raw;
                      supplied = there;
                      of_digest = (bytes_eq_iff _ _).0 block;
                      opens = opened;
                      plain_of_digest = (bytes_eq_iff _ _).0 digest;
                    },
                  )

open_seeds-Opened :
    (o : Opening) (secret : Bytes) (a : Control) (seeds : List (Bytes × Bytes)) (es : List Seed)
    {ps : List (Bytes × Bytes)}
    → open_seeds o secret a seeds es ≡ done ps
    → Opened o secret a seeds es ps
unfolding open_seeds
open_seeds-Opened o secret a seeds [] eq = subst (Opened o secret a seeds []) (done-injective eq) tt
open_seeds-Opened o secret a seeds (e ∷ es) eq =
    after (open_seed o secret a seeds e) eq λ p one rest.
      after (open_seeds o secret a seeds es) rest λ ps more end.
        let (id, opened) = open_seed_lem o secret a seeds e one in
        subst (Opened o secret a seeds (e ∷ es)) (done-injective end)
          (id, opened, open_seeds-Opened o secret a seeds es more)

-- The members that the material is for: the holder of the certificate is a content member now, and was one with the
-- same certificate at the opening of the epoch; the recipient's key is the one of the certificate.
pub record IsRecipient (t : Trust) (o : Opening) (f : Offer) (s : Authority) (opening : Control)
    (old : Member) : Type 0 where
  pub members_now : Membership
  pub is_now : membership s ≡ done members_now
  pub certificate : Certificate
  pub member : Member
  pub bound : member_certificate t s.app members_now f.certificate ≡ done (certificate, member)
  pub content_now : has_content member.role ≡ true
  pub members_then : Membership
  pub is_then : membership_at opening.id s ≡ done members_then
  pub was_member : get member.device_id members_then.members ≡ some old
  pub content_then : has_content old.role ≡ true
  pub same_certificate : old.certificate_id ≡ member.certificate_id
  pub own_key : o.public_of f.recipient_secret ≡ certificate.agreement_key

-- What `verify_activation` promises of the material it returns.
pub record Verified (t : Trust) (o : Opening) (f : Offer) (s : Authority) (m : Material)
    : Type 0 where
  pub opening : Control
  pub current : epoch_anchor s ≡ done opening
  pub same_anchor : m.anchor_id ≡ opening.id
  pub same_epoch : m.epoch ≡ opening.body.epoch
  pub old : Member
  pub recipient : IsRecipient t o f s opening old
  pub for_recipient : m.recipient_id ≡ old.device_id
  pub packaged :
      o.open_package f.recipient_secret opening old.device_id old.certificate_id f.sealed
        f.package_ids
      ≡ done m.secret
  pub manifest : Manifest
  pub read : parse_seed_manifest o f.manifest ≡ done manifest
  pub layout : Layout manifest
  pub committed : same (some (o.seed_root_of f.manifest)) opening.body.seeds ≡ true
  pub of_app : manifest.app ≡ s.app
  pub of_space : manifest.space ≡ s.space
  pub of_epoch : manifest.epoch ≡ opening.body.epoch
  pub of_package_set : same (some manifest.nonce) opening.body.package_set ≡ true
  pub all_supplied : same_blocks manifest.entries f.seeds ≡ true
  pub all_opened : Opened o m.secret opening f.seeds manifest.entries m.seeds
  pub same_cut : m.cut ≡ manifest.cut

module _ (t : Trust) (o : Opening) where
  open_material-Verified :
      (f : Offer) (s : Authority) (a : Control) (d : Member) {m : Material}
      → epoch_anchor s ≡ done a
      → IsRecipient t o f s a d
      → open_material t o f s a d ≡ done m
      → Verified t o f s m
  unfolding open_material
  open_material-Verified f s a d anchored recipient e =
      after
        (o.open_package f.recipient_secret a d.device_id d.certificate_id f.sealed f.package_ids) e
        λ secret opened rest.
          after_demand (leb 1 (length f.manifest) && leb (length f.manifest) 65536) schema_invalid
            rest
            λ size rest.
              after_demand (same (some (o.seed_root_of f.manifest)) a.body.seeds) seed_root rest
                λ root rest. after (parse_seed_manifest o f.manifest) rest λ n read rest.
                  after_demand
                    (bytes_eq n.app s.app
                      && bytes_eq n.space s.space
                      && n.epoch == a.body.epoch
                      && same (some n.nonce) a.body.package_set)
                    context_mismatch rest
                    λ context rest.
                      after_demand (leb (length f.seeds) 256 && same_blocks n.entries f.seeds)
                        seed_set rest
                        λ set rest.
                          after (open_seeds o secret a f.seeds n.entries) rest λ plains all end.
                            let (three, nonce) =
                              both
                                (bytes_eq n.app s.app
                                  && bytes_eq n.space s.space
                                  && n.epoch == a.body.epoch)
                                _ context in
                            let (two, epoch) =
                              both (bytes_eq n.app s.app && bytes_eq n.space s.space) _ three in
                            let (app, space) = both (bytes_eq n.app s.app) _ two in
                            let (few, supplied) = both (leb (length f.seeds) 256) _ set in
                            subst (Verified t o f s) (done-injective end) (record {
                              opening = a;
                              current = anchored;
                              same_anchor = refl;
                              same_epoch = refl;
                              old = d;
                              recipient = recipient;
                              for_recipient = refl;
                              packaged = opened;
                              manifest = n;
                              read = read;
                              layout = parse-Layout o f.manifest read;
                              committed = root;
                              of_app = (bytes_eq_iff _ _).0 app;
                              of_space = (bytes_eq_iff _ _).0 space;
                              of_epoch = (==_iff _ _).0 epoch;
                              of_package_set = nonce;
                              all_supplied = supplied;
                              all_opened = open_seeds-Opened o secret a f.seeds n.entries all;
                              same_cut = refl;
                            })

  member_then_ok :
      (now : Member) (past : Membership) {old : Member}
      → member_then now past ≡ done old
      → (get now.device_id past.members ≡ some old)
        × (has_content old.role ≡ true)
        × (old.certificate_id ≡ now.certificate_id)
  unfolding member_then
  member_then_ok now past e =
      after_option (get now.device_id past.members) certificate_binding _ e λ d there rest.
        after_demand (has_content d.role && bytes_eq d.certificate_id now.certificate_id)
          certificate_binding rest
          λ tests end.
            let (content, certificate) = both (has_content d.role) _ tests in
            subst
              (λ x.
                (get now.device_id past.members ≡ some x)
                × (has_content x.role ≡ true)
                × (x.certificate_id ≡ now.certificate_id))
              (done-injective end) (there, content, (bytes_eq_iff _ _).0 certificate)

  -- Material that `verify_activation` returns is for the anchor of the current epoch. Its recipient is a member that
  -- holds content now and held content at the anchor under the same certificate, the certificate offered is
  -- bound to that member, and the recipient's secret has the public key of the certificate. Its secret is the
  -- package's for that member. Its manifest has the root that the anchor commits to and is for the app, Space,
  -- epoch and package set; it has at most 256 entries, which ascend by object with distinct blocks, and at most
  -- 4194304 bytes in all. The blocks supplied are exactly those of the entries. The material has, in order, for
  -- every entry the plain bytes of a supplied block: the block has the digest that the entry names, it opens to
  -- these bytes under the secret, and they have the digest that the entry names.
  pub verify_activation-Verified :
      (f : Offer) (s : Authority) {m : Material}
      → verify_activation t o f s ≡ done m
      → Verified t o f s m
  unfolding verify_activation
  verify_activation-Verified f s e = after (membership s) e λ current seen rest.
      after (epoch_anchor s) rest λ a anchored rest.
        after (member_certificate t s.app current f.certificate) rest λ found bound rest.
          after_demand (has_content found.1.role) not_authorized rest λ role rest.
            after (membership_at a.id s) rest λ past before rest.
              after (member_then found.1 past) rest λ old same_then rest.
                after_demand (length f.recipient_secret == 32) schema_invalid rest λ size rest.
                  after_demand (bytes_eq (o.public_of f.recipient_secret) found.0.agreement_key)
                    crypto_invalid rest
                    λ own opened.
                      let (there, content, certificate) = member_then_ok found.1 past same_then in
                      open_material-Verified f s a old anchored
                        (record {
                          members_now = current;
                          is_now = seen;
                          certificate = found.0;
                          member = found.1;
                          bound = bound;
                          content_now = role;
                          members_then = past;
                          is_then = before;
                          was_member = there;
                          content_then = content;
                          same_certificate = certificate;
                          own_key = (bytes_eq_iff _ _).0 own;
                        })
                        opened
