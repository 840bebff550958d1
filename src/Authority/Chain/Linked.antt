-- ===== src/Authority/Chain/Linked.antt =====
-- The history is one chain: each control refers to the one before it and is signed by the authority that
-- the one before it leaves.
use peer_application_runtime.Base.{
  ℕ, zero, suc, ◌+◌, ◌≤◌, List, [], ◌∷◌, ◌++◌, true, false, ◌&&◌, none, some, ◌≡◌, sym, ap, ◌∙◌,
  arith, Bool-cases, inl, inr, ◌==◌, length,
}
use peer_application_runtime.Base.Bytes.{
  put, lookup-put_other, Bytes, bytes_eq, bytes_eq_iff, bytes_eq_refl, lookup,
}
use peer_application_runtime.Base.Fallible.{demand, ◌>>◌}
use peer_application_runtime.Authority.Control.{Services, Code, Control, Body}
use peer_application_runtime.Authority.State.{
  Authority, id_at, has_raw, check_blocked, check_capacity, record_event, bump, is_resolved,
  has_nodes, opens_epoch, is_permission,
}
use peer_application_runtime.Authority.Membership.{Membership, content_members, verify_membership}
use peer_application_runtime.Base.Outcomes.{on_if, on_outcome, on_option}
use peer_application_runtime.Authority.Chain.{
  fork_with, provide, provide_membership, settle, settle_permission, keep_view, invalidate,
  resolve_head, membership_at, total_bytes,
}

-- The control at the sequence number `n`, of which `P` holds.
unfoldable pub IsAt :
    (Control → Type 0) → Services → List (Bytes × Control) → List (ℕ × Bytes) → ℕ → Control → Type 0
IsAt P v nodes sequences n c =
    (id_at n sequences ≡ some c.id)
    × (lookup c.id nodes ≡ some c)
    × (c.id ≡ v.control_id c.raw)
    × (c.body.sequence ≡ n)
    × P c

-- How it stands to the one before it, and the first one to the genesis.
unfoldable pub IsLinked :
    (Control → Type 0)
    → Services
    → Bytes
    → Bytes
    → List (Bytes × Control)
    → List (ℕ × Bytes)
    → ℕ
    → Control
    → Type 0
IsLinked P v space authority nodes sequences zero c = ⊥
IsLinked P v space authority nodes sequences (suc zero) c =
    (c.body.parent ≡ space) × (c.body.authority ≡ authority) × (c.body.epoch ≡ 1)
IsLinked P v space authority nodes sequences (suc (suc n)) c =
    (p : Control) × IsAt P v nodes sequences (suc n) p
    × (c.body.parent ≡ p.id)
    × (c.body.authority ≡ p.authority_after)
    × (p.body.epoch ≤ c.body.epoch)
    × (c.body.epoch ≤ p.body.epoch + 1)

-- Every sequence number up to the last has a control, and the controls are linked.
unfoldable pub IsChain : (Control → Type 0) → Services → Authority → Type 0
IsChain P v s =
    (s.sequences ≡ [] → s.nodes ≡ [])
    × ((n : ℕ)
        → 1 ≤ n
        → n ≤ length s.sequences
        → (c : Control) × IsAt P v s.nodes s.sequences n c
          × IsLinked P v s.space s.genesis.authority s.nodes s.sequences n c)

resolve_head-IsChain :
    (P : Control → Type 0) (v : Services) (s : Authority)
    → IsChain P v s
    → IsChain P v (resolve_head s)
unfolding IsChain resolve_head bump
resolve_head-IsChain P v s h = h

invalidate-IsChain :
    (P : Control → Type 0) (v : Services) (s : Authority)
    → IsChain P v s
    → IsChain P v (invalidate s)
unfolding IsChain invalidate bump
invalidate-IsChain P v s h = h

keep_view-IsChain :
    (P : Control → Type 0) (v : Services) (view : Membership) (size : ℕ) (s : Authority)
    → IsChain P v s
    → IsChain P v (keep_view view size s)
unfolding IsChain keep_view record_event
keep_view-IsChain P v view size s h = h

pub fork_with-IsChain :
    (P : Control → Type 0) (v : Services) (kept raw : Bytes) (s : Authority)
    → IsChain P v s
    → IsChain P v (fork_with kept raw s)
unfolding IsChain fork_with bump record_event
fork_with-IsChain P v kept raw s h = h

settle_permission-IsChain :
    (P : Control → Type 0) (v : Services) (b : Body) (view : Membership) (s : Authority)
    → IsChain P v s
    → IsChain P v (settle_permission b view s).0
unfolding settle_permission
settle_permission-IsChain P v b view s h =
    on_outcome (IsChain P v) (membership_at b.parent s) _ _ (λ e. h)
      (λ previous _.
        on_if (IsChain P v) _ _ _ (λ _. resolve_head-IsChain P v s h)
          (λ _. invalidate-IsChain P v s h))

settle-IsChain :
    (P : Control → Type 0) (v : Services) (b : Body) (view : Membership) (s : Authority)
    → IsChain P v s
    → IsChain P v (settle b view s).0
unfolding settle
settle-IsChain P v b view s h =
    on_if (IsChain P v) (opens_epoch b.action && length (content_members view.members) == 0) _ _
      (λ _. invalidate-IsChain P v s h)
      (λ _.
        on_if (IsChain P v) (is_permission b.action) _ _
          (λ _. settle_permission-IsChain P v b view s h) (λ _. resolve_head-IsChain P v s h))

provide-IsChain :
    (P : Control → Type 0) (v : Services) (pages : List Bytes) (c : Control) (s : Authority)
    → IsChain P v s
    → IsChain P v (provide v pages c s).0
unfolding provide
provide-IsChain P v pages c s h =
    on_outcome (IsChain P v) (verify_membership v c.body.members pages) _ _ (λ e. h)
      (λ view _.
        on_if (IsChain P v) (is_resolved s) _ _ (λ _. h)
          (λ _.
            on_outcome (IsChain P v) (check_capacity (total_bytes view.pages) s) _ _ (λ e. h)
              (λ u _.
                settle-IsChain P v c.body view (keep_view view (total_bytes view.pages) s)
                  (keep_view-IsChain P v view (total_bytes view.pages) s h))))

pub provide_membership-IsChain :
    (P : Control → Type 0) (v : Services) (pages : List Bytes) (s : Authority)
    → IsChain P v s
    → IsChain P v (provide_membership v pages s).0
unfolding provide_membership
provide_membership-IsChain P v pages s h =
    on_outcome (IsChain P v) (check_blocked s >> demand (has_nodes s) Code.control_required) _ _
      (λ e. h)
      (λ u _.
        on_option (IsChain P v) (lookup s.head s.nodes) _ _ (λ _. h)
          (λ c _. provide-IsChain P v pages c s h))

id_at-append :
    (n : ℕ) (m : List (ℕ × Bytes)) (id : Bytes) (more : List (ℕ × Bytes))
    → id_at n m ≡ some id
    → id_at n (m ++ more) ≡ some id
unfolding id_at
id_at-append n [] id more h = cc
id_at-append n ((k, i) ∷ m) id more h = ground (arith, id_at-append n m id more)

pub id_at_last :
    (n : ℕ) (m : List (ℕ × Bytes)) (id : Bytes)
    → id_at n m ≡ none
    → id_at n (m ++ (n, id) ∷ []) ≡ some id
unfolding id_at
id_at_last n [] id h = ground arith
id_at_last n ((k, i) ∷ m) id h = ground (arith, id_at_last n m id)

lookup-has_raw :
    (k : Bytes) (c : Control) (nodes : List (Bytes × Control))
    → lookup k nodes ≡ some c
    → has_raw c.raw nodes ≡ true
unfolding lookup has_raw
lookup-has_raw k c [] h = cc
lookup-has_raw k c ((i, w) ∷ m) h = elim (Bool-cases (bytes_eq i k)) [
  | inl e ↦
      ground
        (arith, bytes_eq_refl c.raw, ap {B = Bytes} (λ o. elim o [ none ↦ [] | some d ↦ d.raw ]) h)
  | inr e ↦ ground (arith, lookup-has_raw k c m)
]

pub IsAt-append :
    (P : Control → Type 0) (v : Services) (c : Control) (nodes : List (Bytes × Control))
    (sequences : List (ℕ × Bytes)) (n : ℕ) (p : Control)
    → bytes_eq c.id p.id ≡ false
    → IsAt P v nodes sequences n p
    → IsAt P v (put c.id c nodes) (sequences ++ (c.body.sequence, c.id) ∷ []) n p
unfolding IsAt
IsAt-append P v c nodes sequences n p apart (at, kept, id, number, holds) = (
  id_at-append n sequences p.id _ at,
  lookup-put_other p.id c.id c nodes apart ∙ kept,
  id,
  number,
  holds,
)

-- A control that the state does not have gets an identifier of its own.
pub fresh :
    (P : Control → Type 0) (v : Services) (c p : Control) (nodes : List (Bytes × Control))
    → ((a b : Control) → P a → P b → v.control_id a.raw ≡ v.control_id b.raw → a.raw ≡ b.raw)
    → c.id ≡ v.control_id c.raw
    → p.id ≡ v.control_id p.raw
    → P c
    → P p
    → lookup p.id nodes ≡ some p
    → has_raw c.raw nodes ≡ false
    → bytes_eq c.id p.id ≡ false
fresh P v c p nodes apart mine its held holds kept none_has =
    elim (Bool-cases (bytes_eq c.id p.id)) [
      | inl e ↦
          let raws : c.raw ≡ p.raw =
            apart c p held holds (sym mine ∙ (bytes_eq_iff c.id p.id).0 e ∙ its) in
          absurd (ground (arith, lookup-has_raw p.id p nodes kept, ap (λ r. has_raw r nodes) raws))
      | inr e ↦ e
    ]
