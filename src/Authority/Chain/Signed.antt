-- ===== src/Authority/Chain/Signed.antt =====
-- The signature of a control that `_inspect` passes, and the authority that it leaves.
use peer_application_runtime.Base.{
  true, false, ◌⊎◌, ◌+◌, not, ◌&&◌, Option, none, some, ◌≡◌, refl, sym, ap, subst, ◌∙◌, arith,
  Bool-cases, inl, inr, both, leb, ◌==◌, if◌then◌else◌, length,
}
use peer_application_runtime.Base.Bytes.{Bytes, bytes_eq, bytes_eq_iff, lookup, has_entry}
use peer_application_runtime.Base.Fallible.{done, done-injective, after, after_demand, after_option}
use peer_application_runtime.Authority.Control.{Services, Code, Control, Body, Entry, parse}
use peer_application_runtime.Authority.State.{
  Authority, parent_id, signer, check_first, check_next, anchor, is_rotation,
}
use peer_application_runtime.Authority.Chain.{check_rotation, check_control, inspect}
use peer_application_runtime.Authority.Chain.Inspected.{check_control_lem}

-- A control leaves the authority that it is under, unless it rotates it: then it leaves another one, the next authority
-- that it names, which has signed the body as well.
abbrev pub IsLeft : Services → Entry → Body → Bytes → Bytes → Type 0
IsLeft v o b key next =
    ((is_rotation b.action ≡ false) × (next ≡ key))
    ⊎ ((is_rotation b.action ≡ true)
        × (b.next_authority ≡ some next)
        × (bytes_eq next key ≡ false)
        × ((proof : Bytes) × (o.possession ≡ some proof)
            × (v.verify_possession next o.body_bytes proof ≡ true)))

possessed :
    (v : Services) (next body : Bytes) (possession : Option Bytes)
    → (elim possession [ none ↦ false | some proof ↦ v.verify_possession next body proof ]) ≡ true
    → (proof : Bytes) × (possession ≡ some proof) × (v.verify_possession next body proof ≡ true)
possessed v next body none e = cc
possessed v next body (some proof) e = (proof, refl, e)

check_rotation-IsLeft :
    (v : Services) (o : Entry) (b : Body) (key next : Bytes)
    → check_rotation v o b key ≡ done next
    → IsLeft v o b key next
unfolding check_rotation
check_rotation-IsLeft v o b key next e = elim (Bool-cases (is_rotation b.action)) [
  | inl turns ↦
      after_option b.next_authority Code.rotation_proof _ (rw (check_rotation, turns) at e)
        (λ other named e1.
          after_demand (not (bytes_eq other key) && has_entry o.possession) _ e1 (λ differs e2.
            after_demand
              (elim o.possession [
                | none ↦ false
                | some proof ↦ v.verify_possession other o.body_bytes proof
              ])
              _ e2
              (λ proved e3.
                let new : bytes_eq other key ≡ false =
                  let differs' = both (not (bytes_eq other key)) _ differs in
                  ground (arith, differs'.0) in
                subst (λ n. IsLeft v o b key n) (done-injective e3)
                  (inr (turns, named, new, possessed v other o.body_bytes o.possession proved)))))
  | inr stays ↦
      after_demand (not (has_entry b.next_authority) && not (has_entry o.possession)) _
        (rw (check_rotation, stays) at e) (λ _ e1. inl (stays, sym (done-injective e1)))
]

-- The control's bytes decode to its body, with a signature that is verified under the authority that the body names,
-- and it leaves the authority that it may.
unfoldable pub IsSigned : Services → Control → Type 0
IsSigned v c =
    (o : Entry) × (parse v.read_entry 66000 c.raw ≡ done o)
    × (parse v.read_body 66000 o.body_bytes ≡ done c.body)
    × (v.verify_control c.body.authority o.body_bytes o.signature ≡ true)
    × IsLeft v o c.body c.body.authority c.authority_after

-- The signature and the authority that a checked control leaves.
check_control-signed :
    (v : Services) (raw : Bytes) (o : Entry) (b : Body) (parent : Option Control) (s : Authority)
    (c : Control)
    → check_control v raw o b parent s ≡ done c
    → (v.verify_control b.authority o.body_bytes o.signature ≡ true)
      × IsLeft v o b b.authority c.authority_after
unfolding check_control
check_control-signed v raw o b parent s c e0 =
    after_demand (bytes_eq b.authority (signer parent s)) _ e0 (λ own e1.
      after_demand (v.verify_control (signer parent s) o.body_bytes o.signature) _ e1 (λ signed e2.
        after_demand (has_entry b.packages && has_entry b.seeds && has_entry b.package_set) _ e2
          (λ _ e3.
            after (if b.sequence == 1 then check_first b s else check_next b parent s) e3 (λ u _ e4.
              after (check_rotation v o b (signer parent s)) e4 (λ next turned e5.
                after (anchor b.action (v.control_id raw) parent) e5 (λ opened _ e.
                  let mine = sym ((bytes_eq_iff _ _).0 own) in
                  let left : IsLeft v o b (signer parent s) c.authority_after =
                    subst (λ d. IsLeft v o b (signer parent s) d.authority_after) (done-injective e)
                      (check_rotation-IsLeft v o b _ next turned) in
                  (
                    subst (λ k. v.verify_control k o.body_bytes o.signature ≡ true) mine signed,
                    subst (λ k. IsLeft v o b k c.authority_after) mine left,
                  )))))))

pub inspect-IsSigned :
    (v : Services) (raw : Bytes) (s : Authority) (c : Control)
    → inspect v raw s ≡ done c
    → (c.raw ≡ raw) × IsSigned v c
unfolding inspect IsSigned
inspect-IsSigned v raw s c e0 = after (parse v.read_entry 66000 raw) e0 (λ o read e1.
    after (parse v.read_body 66000 o.body_bytes) e1 (λ b decoded e2.
      after_demand (bytes_eq b.app s.app && bytes_eq b.space s.space) _ e2 (λ _ e3.
        after_demand (leb 1 b.sequence) _ e3 (λ low e4.
          after_demand (leb b.sequence (length s.sequences + 1)) _ e4 (λ high e5.
            after_option (parent_id b.sequence s) Code.control_parent _ e5 (λ p found e6.
              after_demand (bytes_eq b.parent p) _ e6 (λ parent e.
                let (bytes, id, body, rest, passed) =
                  check_control_lem v raw o b (lookup p s.nodes) s c e in
                let signed = check_control-signed v raw o b (lookup p s.nodes) s c e in
                (
                  bytes,
                  (
                    o,
                    ap (λ r. parse v.read_entry 66000 r) bytes ∙ read,
                    decoded ∙ ap done (sym body),
                    subst (λ d. v.verify_control d.authority o.body_bytes o.signature ≡ true)
                        (sym body) signed.0,
                    subst (λ d. IsLeft v o d d.authority c.authority_after) (sym body) signed.1,
                  ),
                ))))))))
