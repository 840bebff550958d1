-- ===== src/Authority/Permit/Current.antt =====
-- What a permit shows of the state that gave it, and that it holds for that revision only.
use peer_application_runtime.Base.{true, ◌==◌, ==_iff, ◌≡◌, refl, sym, ap, ◌∙◌, subst}
use peer_application_runtime.Base.Bytes.{Bytes, bytes_eq, bytes_eq_iff, bytes_eq_refl}
use peer_application_runtime.Base.Fallible.{done, after, after_demand, done-injective}
use peer_application_runtime.Authority.Control.{Member, not_authorized, stale_decision}
use peer_application_runtime.Authority.Membership.{Membership}
use peer_application_runtime.Authority.State.{Authority, check_blocked}
use peer_application_runtime.Authority.Permit.{
  Operation, Certificate, Trust, Holder, Permit, membership, epoch_of, allows, member_certificate,
  check_epoch, permit_for, authorize, validate_permit,
}

-- What an operation of a member has been granted on.
pub record Granted (v : Trust) (raw : Bytes) (op : Operation) (h : Holder) (p : Permit)
    : Type 0 where
  pub view : Membership
  pub current_view : membership h.authority ≡ done view
  pub member : Member
  pub certificate : Certificate
  pub bound : member_certificate v h.authority.app view raw ≡ done (certificate, member)
  pub may : allows op member.role ≡ true
  pub in_epoch : check_epoch v op h ≡ done tt
  pub of_member : p ≡ permit_for v member.device_id member.role op h.authority

authorize-Granted :
    (v : Trust) (raw : Bytes) (op : Operation) (h : Holder) {p : Permit}
    → authorize v raw op h ≡ done p
    → Granted v raw op h p × (check_blocked h.authority ≡ done tt)
unfolding authorize
authorize-Granted v raw op h e = after (check_blocked h.authority) e λ u free rest.
    after (membership h.authority) rest λ view seen rest.
      after (member_certificate v h.authority.app view raw) rest λ found bound rest.
        after_demand (allows op found.1.role) not_authorized rest λ may rest.
          after (check_epoch v op h) rest λ w epoch end. (
            record {
              view = view;
              current_view = seen;
              member = found.1;
              certificate = found.0;
              bound = bound;
              may = may;
              in_epoch = epoch;
              of_member = sym (done-injective end);
            },
            free,
          )

fresh_permit :
    (v : Trust) (device : Bytes) (m : Member) (op : Operation) (s : Authority)
    → check_blocked s ≡ done tt
    → validate_permit v (permit_for v device m.role op s) s ≡ done tt
unfolding validate_permit
fresh_permit v device m op s free =
    rw
      (
        free,
        bytes_eq_refl s.head,
        (==_iff (epoch_of s) (epoch_of s)).1 refl,
        (==_iff s.revision s.revision).1 refl,
        bytes_eq_refl (v.seal_of device m.role op s.head (epoch_of s) s.revision),
      )
      refl

-- When `authorize` gives a permit, the certificate is that of a member of the current membership, whose role allows
-- the operation, and unless it is to retain, the current epoch's material is active; the permit names the
-- member and is valid on the state that gave it.
pub authorize_valid :
    (v : Trust) (raw : Bytes) (op : Operation) (h : Holder) {p : Permit}
    → authorize v raw op h ≡ done p
    → Granted v raw op h p × (validate_permit v p h.authority ≡ done tt)
authorize_valid v raw op h e =
    let (granted, free) = authorize-Granted v raw op h e in
    (
      granted,
      subst (λ p. validate_permit v p h.authority ≡ done tt) (sym granted.of_member)
          (fresh_permit v granted.member.device_id granted.member op h.authority free),
    )

validated :
    (v : Trust) (p : Permit) (s : Authority) {u : Unit {0}}
    → validate_permit v p s ≡ done u
    → (p.at_head ≡ s.head) × (p.at_epoch ≡ epoch_of s) × (p.at_revision ≡ s.revision)
unfolding validate_permit
validated v p s e = after (check_blocked s) e λ u free rest.
    after_demand (bytes_eq p.at_head s.head) stale_decision rest λ head rest.
      after_demand (p.at_epoch == epoch_of s) stale_decision rest λ epoch rest.
        after_demand (p.at_revision == s.revision) stale_decision rest λ revision rest.
          ((bytes_eq_iff _ _).0 head, (==_iff _ _).0 epoch, (==_iff _ _).0 revision)

-- A permit that one state gives is valid on another only if the head, the epoch and the revision are the same.
pub permit_stale :
    (v : Trust) (raw : Bytes) (op : Operation) (h : Holder) (s : Authority) {p : Permit}
    {u : Unit {0}}
    → authorize v raw op h ≡ done p
    → validate_permit v p s ≡ done u
    → (s.head ≡ h.authority.head)
      × (epoch_of s ≡ epoch_of h.authority)
      × (s.revision ≡ h.authority.revision)
permit_stale v raw op h s given valid =
    let same = (authorize_valid v raw op h given).0.of_member in
    let (head, epoch, revision) = validated v _ s valid in
    (
      sym head ∙ ap (λ p. p.at_head) same,
      sym epoch ∙ ap (λ p. p.at_epoch) same,
      sym revision ∙ ap (λ p. p.at_revision) same,
    )
