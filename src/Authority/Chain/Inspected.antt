-- ===== src/Authority/Chain/Inspected.antt =====
-- What a control that `_inspect` passes has been held against.
use peer_application_runtime.Base.{
  ◌+◌, ◌≤◌, not, ◌&&◌, Option, none, some, ◌≡◌, refl, sym, ap, subst, ◌∙◌, arith, Bool-cases, inl,
  inr, ==_iff, both, leb, ◌==◌, if◌then◌else◌, length,
}
use peer_application_runtime.Base.Bytes.{Bytes, bytes_eq, bytes_eq_iff, lookup, has_entry}
use peer_application_runtime.Base.Fallible.{done, done-injective, after, after_demand, after_option}
use peer_application_runtime.Authority.Control.{Services, Code, Control, Body, Entry, parse}
use peer_application_runtime.Authority.State.{
  Authority, parent_id, signer, check_first, check_next, anchor, is_transition, is_init,
}
use peer_application_runtime.Authority.Chain.{check_rotation, check_control, inspect}

pub check_next-epoch :
    (b : Body) (parent : Option Control) (s : Authority)
    → check_next b parent s ≡ done tt
    → (p : Control) × (parent ≡ some p) × (p.body.epoch ≤ b.epoch) × (b.epoch ≤ p.body.epoch + 1)
unfolding check_next
check_next-epoch b none s e = cc
check_next-epoch b (some p) s e0 = after_demand (not (is_init b.action)) _ e0 (λ _ e1.
    after_demand (b.epoch == p.body.epoch + (if is_transition b.action then 1 else 0)) _ e1
      (λ here _.
        let same = (==_iff _ _).0 here in
        elim (Bool-cases (is_transition b.action)) [
          | inl t ↦
              let step : b.epoch ≡ p.body.epoch + 1 =
                same ∙ ap (λ x. p.body.epoch + (if x then 1 else 0)) t in
              (p, refl, omega arith, omega arith)
          | inr f ↦
              let step : b.epoch ≡ p.body.epoch + 0 =
                same ∙ ap (λ x. p.body.epoch + (if x then 1 else 0)) f in
              (p, refl, omega arith, omega arith)
        ]))

pub check_first-epoch : (b : Body) (s : Authority) → check_first b s ≡ done tt → b.epoch ≡ 1
unfolding check_first
check_first-epoch b s e0 =
    after_demand (is_init b.action) _ e0
      (λ _ e1. after_demand (b.epoch == 1) _ e1 (λ one _. (==_iff _ _).0 one))

-- The facts on a control `c` read from `raw`, with its parent's identifier.
unfoldable pub IsInspected : Services → Bytes → Authority → Control → Bytes → Type 0
IsInspected v raw s c p =
    (c.raw ≡ raw)
    × (c.id ≡ v.control_id raw)
    × (length raw ≤ 66000)
    × (1 ≤ c.body.sequence)
    × (c.body.sequence ≤ length s.sequences + 1)
    × (parent_id c.body.sequence s ≡ some p)
    × (c.body.parent ≡ p)
    × (c.body.authority ≡ signer (lookup p s.nodes) s)
    × ((if c.body.sequence == 1
          then check_first c.body s
          else check_next c.body (lookup p s.nodes) s)
        ≡ done tt)

pub check_control_lem :
    (v : Services) (raw : Bytes) (o : Entry) (b : Body) (parent : Option Control) (s : Authority)
    (c : Control)
    → check_control v raw o b parent s ≡ done c
    → (c.raw ≡ raw)
      × (c.id ≡ v.control_id raw)
      × (c.body ≡ b)
      × (b.authority ≡ signer parent s)
      × ((if b.sequence == 1 then check_first b s else check_next b parent s) ≡ done tt)
unfolding check_control
check_control_lem v raw o b parent s c e0 =
    after_demand (bytes_eq b.authority (signer parent s)) _ e0 (λ signed e1.
      after_demand (v.verify_control (signer parent s) o.body_bytes o.signature) _ e1 (λ _ e2.
        after_demand (has_entry b.packages && has_entry b.seeds && has_entry b.package_set) _ e2
          (λ _ e3.
            after (if b.sequence == 1 then check_first b s else check_next b parent s) e3
              (λ u passed e4. after (check_rotation v o b (signer parent s)) e4 (λ next _ e5.
                after (anchor b.action (v.control_id raw) parent) e5 (λ opened _ e.
                  let made = done-injective e in
                  (
                    sym (ap (λ x. x.raw) made),
                    sym (ap (λ x. x.id) made),
                    sym (ap (λ x. x.body) made),
                    (bytes_eq_iff _ _).0 signed,
                    passed,
                  )))))))

pub inspect-IsInspected :
    (v : Services) (raw : Bytes) (s : Authority) (c : Control)
    → inspect v raw s ≡ done c
    → (p : Bytes) × IsInspected v raw s c p
unfolding inspect parse IsInspected
inspect-IsInspected v raw s c e0 = after (parse v.read_entry 66000 raw) e0 (λ o read e1.
    after (parse v.read_body 66000 o.body_bytes) e1 (λ b _ e2.
      after_demand (bytes_eq b.app s.app && bytes_eq b.space s.space) _ e2 (λ _ e3.
        after_demand (leb 1 b.sequence) _ e3 (λ low e4.
          after_demand (leb b.sequence (length s.sequences + 1)) _ e4 (λ high e5.
            after_option (parent_id b.sequence s) Code.control_parent _ e5 (λ p found e6.
              after_demand (bytes_eq b.parent p) _ e6 (λ parent e.
                let (bytes, id, body, signed, passed) =
                  check_control_lem v raw o b (lookup p s.nodes) s c e in
                after_demand (leb 1 (length raw) && leb (length raw) 66000) _ read (λ size _.
                  subst
                    (λ d.
                      (x : Bytes) × ((c.raw ≡ raw)
                        × (c.id ≡ v.control_id raw)
                        × (length raw ≤ 66000)
                        × (1 ≤ d.sequence)
                        × (d.sequence ≤ length s.sequences + 1)
                        × (parent_id d.sequence s ≡ some x)
                        × (d.parent ≡ x)
                        × (d.authority ≡ signer (lookup x s.nodes) s)
                        × ((if d.sequence == 1
                              then check_first d s
                              else check_next d (lookup x s.nodes) s)
                            ≡ done tt)))
                    (sym body)
                    (
                      p,
                      (
                        bytes,
                        id,
                        ground (arith, both (leb 1 (length raw)) _ size),
                        ground arith,
                        ground arith,
                        found,
                        (bytes_eq_iff _ _).0 parent,
                        signed,
                        passed,
                      ),
                    )))))))))
