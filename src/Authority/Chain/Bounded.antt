-- ===== src/Authority/Chain/Bounded.antt =====
-- The evidence that a state keeps is bounded: its count of bytes is that of the events it holds.
use peer_application_runtime.Base.{
  both, ℕ, ◌+◌, ◌≤◌, ◌&&◌, List, [], ◌∷◌, ◌++◌, false, not, ◌≡◌, sym, subst, arith, leb, ◌==◌,
  length,
}
use peer_application_runtime.Base.Bytes.{Bytes, bytes_eq, lookup, has_entry}
use peer_application_runtime.Base.Fallible.{
  done, demand, demanded, after, after_demand, done-injective, ◌>>◌,
}
use peer_application_runtime.Authority.Control.{parse, Services, Code, Control, Body}
use peer_application_runtime.Authority.State.{
  Event, observed_raw, provided_pages, Authority, id_at, has_raw, check_blocked, bump, record_event,
}
use peer_application_runtime.Base.Outcomes.{on_if, on_outcome, on_option}
use peer_application_runtime.Authority.Chain.Inspected.{IsInspected, inspect-IsInspected}
use peer_application_runtime.Authority.Membership.{Membership, content_members, verify_membership}
use peer_application_runtime.Authority.Chain.{
  settle, settle_permission, provide, provide_membership, keep_view, invalidate, resolve_head,
  membership_at, total_bytes, members_eq,
}
use peer_application_runtime.Authority.State.{
  check_capacity, is_resolved, has_nodes, opens_epoch, is_permission, max_history_bytes,
}
use peer_application_runtime.Authority.Chain.{
  Call, observing, providing, append, admit, fork_with, check_room, inspect, observe, call, calls,
  create,
}

-- The bytes of an event.
abbrev pub weight_of : Event → ℕ
weight_of (observed_raw raw) = length raw
weight_of (provided_pages pages) = total_bytes pages

unfoldable pub weights : List Event → ℕ
weights [] = 0
weights (e ∷ es) = weight_of e + weights es

-- The state's count is the bytes of a genesis of `g` bytes and of the events it holds. They are within the limit of a
-- history, and with the bytes of a competing control at most one control above it.
unfoldable pub IsBounded : ℕ → Authority → Type 0
IsBounded g s =
    (s.event_bytes ≡ g + weights s.events)
    × (has_entry s.fork ≡ false → g + weights s.events ≤ 786432)
    × (g + weights s.events ≤ 852432)

weights-append : (es : List Event) (e : Event) → weights (es ++ e ∷ []) ≡ weights es + weight_of e
unfolding weights
weights-append [] e = omega arith
weights-append (d ∷ es) e = let more = weights-append es e in omega (arith, more)

within_capacity :
    (weight : ℕ) (s : Authority) (u : Unit {0})
    → check_capacity weight s ≡ done u
    → s.event_bytes + weight ≤ 786432
unfolding check_capacity
within_capacity weight s u e =
    let fits = demanded (leb (s.event_bytes + weight) max_history_bytes) _ e in ground arith

unfrozen : (s : Authority) (u : Unit {0}) → check_blocked s ≡ done u → has_entry s.fork ≡ false
unfolding check_blocked
unfrozen s u e0 = after_demand (not (has_entry s.fork)) _ e0 (λ free _. ground (arith, free))

resolve_head-IsBounded : (g : ℕ) (s : Authority) → IsBounded g s → IsBounded g (resolve_head s)
unfolding IsBounded resolve_head bump
resolve_head-IsBounded g s h = h

invalidate-IsBounded : (g : ℕ) (s : Authority) → IsBounded g s → IsBounded g (invalidate s)
unfolding IsBounded invalidate bump
invalidate-IsBounded g s h = h

keep_view-IsBounded :
    (g : ℕ) (view : Membership) (s : Authority)
    → s.event_bytes + total_bytes view.pages ≤ 786432
    → IsBounded g s
    → IsBounded g (keep_view view (total_bytes view.pages) s)
unfolding IsBounded keep_view record_event
keep_view-IsBounded g view s room h =
    let more = weights-append s.events (provided_pages view.pages) in
    let counted = h.0 in (omega (arith, more), λ _. omega (arith, more), omega (arith, more))

append-IsBounded :
    (g : ℕ) (c : Control) (s : Authority)
    → s.event_bytes + length c.raw ≤ 786432
    → IsBounded g s
    → IsBounded g (append c s)
unfolding IsBounded append bump record_event
append-IsBounded g c s room h =
    let more = weights-append s.events (observed_raw c.raw) in
    let counted = h.0 in (omega (arith, more), λ _. omega (arith, more), omega (arith, more))

fork_with-IsBounded :
    (g : ℕ) (kept raw : Bytes) (s : Authority)
    → has_entry s.fork ≡ false
    → length raw ≤ 66000
    → IsBounded g s
    → IsBounded g (fork_with kept raw s)
unfolding IsBounded fork_with bump record_event
fork_with-IsBounded g kept raw s free size h =
    let more = weights-append s.events (observed_raw raw) in
    let counted = h.0 in let most = h.1 free in (omega (arith, more), λ e. cc, omega (arith, more))

inspected-size :
    (v : Services) (raw : Bytes) (s : Authority) (c : Control)
    → inspect v raw s ≡ done c
    → length c.raw ≤ 66000
unfolding IsInspected
inspected-size v raw s c e =
    let (p, (bytes, id, size, rest, a, b, d, g, i)) = inspect-IsInspected v raw s c e in
    subst (λ r. length r ≤ 66000) (sym bytes) size

settle_permission-IsBounded :
    (g : ℕ) (b : Body) (view : Membership) (s : Authority)
    → IsBounded g s
    → IsBounded g (settle_permission b view s).0
unfolding settle_permission
settle_permission-IsBounded g b view s h =
    on_outcome (IsBounded g) (membership_at b.parent s) _ _ (λ e. h)
      (λ previous _.
        on_if (IsBounded g)
          (members_eq (content_members view.members) (content_members previous.members)) _ _
          (λ _. resolve_head-IsBounded g s h) (λ _. invalidate-IsBounded g s h))

settle-IsBounded :
    (g : ℕ) (b : Body) (view : Membership) (s : Authority)
    → IsBounded g s
    → IsBounded g (settle b view s).0
unfolding settle
settle-IsBounded g b view s h =
    on_if (IsBounded g) (opens_epoch b.action && length (content_members view.members) == 0) _ _
      (λ _. invalidate-IsBounded g s h)
      (λ _.
        on_if (IsBounded g) (is_permission b.action) _ _
          (λ _. settle_permission-IsBounded g b view s h) (λ _. resolve_head-IsBounded g s h))

provide-IsBounded :
    (g : ℕ) (v : Services) (pages : List Bytes) (c : Control) (s : Authority)
    → IsBounded g s
    → IsBounded g (provide v pages c s).0
unfolding provide
provide-IsBounded g v pages c s h =
    on_outcome (IsBounded g) (verify_membership v c.body.members pages) _ _ (λ e. h)
      (λ view _.
        on_if (IsBounded g) (is_resolved s) _ _ (λ _. h)
          (λ _.
            on_outcome (IsBounded g) (check_capacity (total_bytes view.pages) s) _ _ (λ e. h)
              (λ u room.
                settle-IsBounded g c.body view (keep_view view (total_bytes view.pages) s)
                  (keep_view-IsBounded g view s (within_capacity _ s u room) h))))

admit-IsBounded :
    (g : ℕ) (v : Services) (s : Authority) (c : Control)
    → has_entry s.fork ≡ false
    → length c.raw ≤ 66000
    → IsBounded g s
    → IsBounded g (admit c s).0
unfolding admit check_room
admit-IsBounded g v s c free size h =
    on_option (IsBounded g) (id_at c.body.sequence s.sequences) _ _
      (λ _.
        on_outcome (IsBounded g) (check_room c s) _ _ (λ e. h)
          (λ u room.
            after (check_capacity (length c.raw) s) room
              (λ w fits _. append-IsBounded g c s (within_capacity _ s w fits) h)))
      (λ id _.
        on_option (IsBounded g) (lookup id s.nodes) _ _ (λ _. h)
          (λ kept _. fork_with-IsBounded g kept.raw c.raw s free size h))

call-IsBounded :
    (g : ℕ) (v : Services) (c : Call) (s : Authority) → IsBounded g s → IsBounded g (call v c s).0
unfolding call observe provide_membership
call-IsBounded g v (observing raw) s h =
    on_if (IsBounded g) (has_raw raw s.nodes) _ _ (λ _. h)
      (λ _.
        on_outcome (IsBounded g) (check_blocked s >> inspect v raw s) _ _ (λ e. h)
          (λ c e0. after (check_blocked s) e0 (λ u free e.
            admit-IsBounded g v s c (unfrozen s u free) (inspected-size v raw s c e) h)))
call-IsBounded g v (providing pages) s h =
    on_outcome (IsBounded g) (check_blocked s >> demand (has_nodes s) Code.control_required) _ _
      (λ e. h)
      (λ u _.
        on_option (IsBounded g) (lookup s.head s.nodes) _ _ (λ _. h)
          (λ c _. provide-IsBounded g v pages c s h))

calls-IsBounded :
    (g : ℕ) (v : Services) (cs : List Call) (s : Authority)
    → IsBounded g s
    → IsBounded g (calls v cs s)
unfolding calls
calls-IsBounded g v [] s h = h
calls-IsBounded g v (c ∷ cs) s h = calls-IsBounded g v cs _ (call-IsBounded g v c s h)

create-IsBounded :
    (v : Services) (app space genesis : Bytes) (most : ℕ) (s : Authority)
    → create v app space genesis most ≡ done s
    → IsBounded (length genesis) s
unfolding create IsBounded parse weights
create-IsBounded v app space genesis most s e0 =
    after_demand (v.valid_app app && length space == 32) _ e0 (λ _ e1.
      after_demand (leb 1 most && leb most 1024) _ e1 (λ _ e2.
        after (parse v.read_object 66000 genesis) e2 (λ o read e3.
          after (parse v.read_genesis 66000 o.body_bytes) e3 (λ b _ e4.
            after_demand
              (bytes_eq b.app app
                && bytes_eq (v.space_id o.body_bytes) space
                && bytes_eq o.signer b.authority)
              _ e4
              (λ _ e5.
                after_demand (v.verify_genesis b.authority o.body_bytes o.signature) _ e5 (λ _ e.
                  after_demand (leb 1 (length genesis) && leb (length genesis) 66000) _ read
                    (λ size _.
                      let most : length genesis ≤ 66000 =
                        ground (arith, both (leb 1 (length genesis)) _ size) in
                      subst (IsBounded (length genesis)) (done-injective e)
                        (omega arith, λ _. omega arith, omega arith))))))))

-- After a state is created and any calls of `observe` and `provide_membership` are made, `event_bytes` is the bytes of
-- the genesis and of all the controls and membership pages that its history holds. They are within 786432
-- bytes, unless a fork has been seen: then within 852432 bytes, since a competing control is kept whatever its
-- length.
pub reachable-IsBounded :
    (v : Services) (app space genesis : Bytes) (most : ℕ) (cs : List Call) (s : Authority)
    → create v app space genesis most ≡ done s
    → IsBounded (length genesis) (calls v cs s)
reachable-IsBounded v app space genesis most cs s made =
    calls-IsBounded (length genesis) v cs s (create-IsBounded v app space genesis most s made)
