-- ===== src/Authority/Chain/Extended.antt =====
-- A control that `observe` takes makes the chain one longer.
use peer_application_runtime.Base.{
  ℕ, zero, suc, ◌+◌, ◌-◌, ◌≤◌, List, [], ◌∷◌, ◌++◌, true, false, Option, none, some, ◌≡◌, refl, sym,
  ap, subst, ◌∙◌, arith, Bool-cases, inl, inr, ==_iff, leb, ◌==◌, if◌then◌else◌, length,
}
use peer_application_runtime.Base.Bytes.{put, lookup-put, Bytes, bytes_eq, lookup}
use peer_application_runtime.Base.Fallible.{done, after, ◌>>◌}
use peer_application_runtime.Authority.Control.{Services, Control}
use peer_application_runtime.Authority.State.{
  Authority, id_at, has_raw, parent_id, signer, check_first, check_next, check_blocked, bump,
  record_event,
}
use peer_application_runtime.Base.Outcomes.{on_if, on_outcome, on_option}
use peer_application_runtime.Authority.Chain.Inspected.{
  IsInspected, inspect-IsInspected, check_first-epoch, check_next-epoch,
}
use peer_application_runtime.Authority.Chain.Linked.{
  IsAt, IsLinked, IsChain, IsAt-append, fresh, id_at_last, fork_with-IsChain,
}
use peer_application_runtime.Authority.Chain.{append, admit, check_room, inspect, observe}

length-append_one : {A : Type 0} (xs : List A) (x : A) → length (xs ++ x ∷ []) ≡ length xs + 1
length-append_one [] x = refl
length-append_one (y ∷ ys) x = ground (arith, length-append_one ys x)

append-not_nil : {A : Type 0} (xs : List A) (x : A) → (xs ++ x ∷ []) ≡ [] → ⊥
append-not_nil [] x e = cc
append-not_nil (y ∷ ys) x e = cc

IsLinked-append :
    (P : Control → Type 0) (v : Services) (space authority : Bytes) (c : Control)
    (nodes : List (Bytes × Control)) (sequences : List (ℕ × Bytes)) (n : ℕ) (d : Control)
    → ((m : ℕ) (p : Control) → IsAt P v nodes sequences m p → bytes_eq c.id p.id ≡ false)
    → IsLinked P v space authority nodes sequences n d
    → IsLinked P v space authority
        (put c.id c nodes)
        (sequences ++ (c.body.sequence, c.id) ∷ [])
        n
        d
unfolding IsLinked
IsLinked-append P v space authority c nodes sequences zero d apart l = l
IsLinked-append P v space authority c nodes sequences (suc zero) d apart l = l
IsLinked-append P v space authority c nodes sequences (suc (suc n)) d apart
      (p, at, parent, signed, low, high) =
    (
      p,
      IsAt-append P v c nodes sequences (suc n) p (apart (suc n) p at) at,
      parent,
      signed,
      low,
      high,
    )

-- The new control comes next.
next_number :
    (P : Control → Type 0) (v : Services) (s : Authority) (c : Control) (raw p : Bytes)
    → IsChain P v s
    → IsInspected v raw s c p
    → id_at c.body.sequence s.sequences ≡ none
    → c.body.sequence ≡ length s.sequences + 1
unfolding IsChain IsInspected IsAt
next_number P v s c raw p (start, chain) (bytes, id, size, low, high, found, parent, signed, passed)
      free =
    elim (Bool-cases (leb c.body.sequence (length s.sequences))) [
      | inl e ↦
          let (d, at, linked) = chain c.body.sequence low (ground arith) in
          let taken : none ≡ some d.id = sym free ∙ at.0 in cc
      | inr e ↦ ground arith
    ]

length_zero : {A : Type 0} (xs : List A) → length xs ≡ 0 → xs ≡ []
length_zero [] e = refl
length_zero (x ∷ xs) e = ground arith

value_or {ℓ} : {A : Type ℓ} → A → Option A → A
value_or a none = a
value_or a (some b) = b

value_injective {ℓ} : {A : Type ℓ} {a b : A} → ◌≡◌ {A = Option A} (some a) (some b) → a ≡ b
unfolding value_or
value_injective {a = a} e = ap (value_or a) e

-- The link of the new control.
new-IsLinked :
    (P : Control → Type 0) (v : Services) (s : Authority) (c : Control) (raw p : Bytes)
    (more : List (ℕ × Bytes)) (nodes : List (Bytes × Control)) (n : ℕ)
    → ((m : ℕ) (q : Control) → IsAt P v s.nodes s.sequences m q → IsAt P v nodes more m q)
    → IsChain P v s
    → IsInspected v raw s c p
    → c.body.sequence ≡ suc n
    → length s.sequences ≡ n
    → IsLinked P v s.space s.genesis.authority nodes more (suc n) c
unfolding IsChain IsInspected IsLinked IsAt parent_id lookup
new-IsLinked P v s c raw p more nodes zero keep (start, chain)
      (bytes, id, size, low, high, found, parent, signed, passed) seq len =
    let one : (c.body.sequence == 1) ≡ true = (==_iff _ _).1 seq in
    let root : some s.space ≡ some p =
      sym (ap (λ b. if b then some s.space else id_at (c.body.sequence - 1) s.sequences) one)
      ∙ found in
    let none_yet : s.nodes ≡ [] = start (length_zero s.sequences len) in
    (
      parent ∙ sym (value_injective root),
      signed ∙ ap (λ ns. signer (lookup p ns) s) none_yet,
      check_first-epoch c.body s (
          sym (
            ap (λ b. if b then check_first c.body s else check_next c.body (lookup p s.nodes) s)
              one)
          ∙ passed),
    )
new-IsLinked P v s c raw p more nodes (suc n) keep (start, chain)
      (bytes, id, size, low, high, found, parent, signed, passed) seq len =
    let later : (c.body.sequence == 1) ≡ false = ground arith in
    let before : c.body.sequence - 1 ≡ suc n = omega arith in
    let (q, at, linked) = chain (suc n) (omega arith) (omega arith) in
    let found_id : some p ≡ some q.id =
      sym found
      ∙ ap (λ b. if b then some s.space else id_at (c.body.sequence - 1) s.sequences) later
      ∙ ap (λ m. id_at m s.sequences) before
      ∙ at.0 in
    let here : p ≡ q.id = value_injective found_id in
    let kept : lookup p s.nodes ≡ some q = ap (λ k. lookup k s.nodes) here ∙ at.1 in
    let (r, its, low', high') = check_next-epoch c.body (lookup p s.nodes) s (
      sym
        (ap (λ b. if b then check_first c.body s else check_next c.body (lookup p s.nodes) s) later)
      ∙ passed) in
    let one_parent : r ≡ q = value_injective (sym its ∙ kept) in
    (
      q,
      keep (suc n) q at,
      parent ∙ here,
      signed ∙ ap (λ o. signer o s) kept,
      subst (λ x. x.body.epoch ≤ c.body.epoch) one_parent low',
      subst (λ x. c.body.epoch ≤ x.body.epoch + 1) one_parent high',
    )

others :
    (P : Control → Type 0) (v : Services) (s : Authority) (c : Control)
    → ((a b : Control) → P a → P b → v.control_id a.raw ≡ v.control_id b.raw → a.raw ≡ b.raw)
    → c.id ≡ v.control_id c.raw
    → P c
    → has_raw c.raw s.nodes ≡ false
    → (m : ℕ) (q : Control) → IsAt P v s.nodes s.sequences m q
    → bytes_eq c.id q.id ≡ false
unfolding IsAt
others P v s c apart mine held unseen m q (at, kept, its, number, holds) =
    fresh P v c q s.nodes apart mine its held holds kept unseen

new-IsAt :
    (P : Control → Type 0) (v : Services) (s : Authority) (c : Control) (n : ℕ)
    → c.id ≡ v.control_id c.raw
    → id_at c.body.sequence s.sequences ≡ none
    → c.body.sequence ≡ n
    → P c
    → IsAt P v (put c.id c s.nodes) (s.sequences ++ (c.body.sequence, c.id) ∷ []) n c
unfolding IsAt
new-IsAt P v s c n mine free number held = (
  ap (λ m. id_at m (s.sequences ++ (c.body.sequence, c.id) ∷ [])) (sym number)
      ∙ id_at_last c.body.sequence s.sequences c.id free,
  lookup-put c.id c s.nodes,
  mine,
  number,
  held,
)

inspected-raw :
    (v : Services) (raw : Bytes) (s : Authority) (c : Control) (p : Bytes)
    → IsInspected v raw s c p
    → (c.raw ≡ raw) × (c.id ≡ v.control_id raw)
unfolding IsInspected
inspected-raw v raw s c p (bytes, id, rest, a, b, d, e, f, g) = (bytes, id)

append-IsChain :
    (P : Control → Type 0) (v : Services) (s : Authority) (c : Control) (raw p : Bytes)
    → ((a b : Control) → P a → P b → v.control_id a.raw ≡ v.control_id b.raw → a.raw ≡ b.raw)
    → IsChain P v s
    → has_raw raw s.nodes ≡ false
    → IsInspected v raw s c p
    → P c
    → id_at c.body.sequence s.sequences ≡ none
    → IsChain P v (append c s)
unfolding append bump record_event IsChain
append-IsChain P v s c raw p apart h none_has inspected held free =
    let parts = inspected-raw v raw s c p inspected in
    let same_id : c.id ≡ v.control_id c.raw = parts.1 ∙ ap v.control_id (sym parts.0) in
    let unseen : has_raw c.raw s.nodes ≡ false = ap (λ r. has_raw r s.nodes) parts.0 ∙ none_has in
    let other = others P v s c apart same_id held unseen in
    let number = next_number P v s c raw p h inspected free in
    (
      λ e. absurd (append-not_nil s.sequences _ e),
      λ n low high. elim (Bool-cases (leb n (length s.sequences))) [
        | inl e ↦
            let (d, at, linked) = h.1 n low (ground arith) in
            (
              d,
              IsAt-append P v c s.nodes s.sequences n d (other n d at) at,
              IsLinked-append P v s.space s.genesis.authority c s.nodes s.sequences n d other
                  linked,
            )
        | inr e ↦
            let count = length-append_one s.sequences (c.body.sequence, c.id) in
            let last : c.body.sequence ≡ n = ground arith in
            let next : c.body.sequence ≡ suc (length s.sequences) = omega arith in
            let linked =
              new-IsLinked P v s c raw p _ (put c.id c s.nodes) (length s.sequences)
                (λ m q at. IsAt-append P v c s.nodes s.sequences m q (other m q at) at) h inspected
                next refl in
            (
              c,
              new-IsAt P v s c n same_id free last held,
              subst
                  (λ m.
                    IsLinked P v s.space s.genesis.authority (put c.id c s.nodes)
                      (s.sequences ++ (c.body.sequence, c.id) ∷ []) m c)
                  (sym next ∙ last) linked,
            )
      ],
    )

admit-IsChain :
    (P : Control → Type 0) (v : Services) (s : Authority) (c : Control) (raw p : Bytes)
    → ((a b : Control) → P a → P b → v.control_id a.raw ≡ v.control_id b.raw → a.raw ≡ b.raw)
    → IsChain P v s
    → has_raw raw s.nodes ≡ false
    → IsInspected v raw s c p
    → P c
    → IsChain P v (admit c s).0
unfolding admit
admit-IsChain P v s c raw p apart h none_has inspected held =
    on_option (IsChain P v) (id_at c.body.sequence s.sequences) _ _
      (λ free.
        on_outcome (IsChain P v) (check_room c s) _ _ (λ e. h)
          (λ u _. append-IsChain P v s c raw p apart h none_has inspected held free))
      (λ id _.
        on_option (IsChain P v) (lookup id s.nodes) _ _ (λ _. h)
          (λ kept _. fork_with-IsChain P v kept.raw c.raw s h))

pub observe-IsChain :
    (P : Control → Type 0) (v : Services) (raw : Bytes) (s : Authority)
    → ((a b : Control) → P a → P b → v.control_id a.raw ≡ v.control_id b.raw → a.raw ≡ b.raw)
    → ((c : Control) → inspect v raw s ≡ done c → P c)
    → IsChain P v s
    → IsChain P v (observe v raw s).0
unfolding observe
observe-IsChain P v raw s apart holds h =
    on_if (IsChain P v) (has_raw raw s.nodes) _ _ (λ _. h)
      (λ none_has.
        on_outcome (IsChain P v) (check_blocked s >> inspect v raw s) _ _ (λ e. h)
          (λ c e0. after (check_blocked s) e0 (λ u _ e.
            let (p, inspected) = inspect-IsInspected v raw s c e in
            admit-IsChain P v s c raw p apart h none_has inspected (holds c e))))
