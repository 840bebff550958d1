-- ===== src/Subscriptions/Presence/Limits.antt =====
-- The peers stay within the limit, and a clock that was uncertain once is never trusted again.
use peer_application_runtime.Base.{
  ℕ, ◌≤◌, List, [], ◌∷◌, Bool, true, ◌&&◌, ◌||◌, Option, none, some, ◌≡◌, refl, sym, ap, subst, ◌∙◌,
  arith, Bool-cases, inl, inr, leb, ltb, ◌==◌, length,
}
use peer_application_runtime.Base.Bytes.{Bytes, lookup, has_entry, length-put, length-put_there}
use peer_application_runtime.Base.Fallible.{done, failed, done-injective, after_demand}
use peer_application_runtime.Base.Outcomes.{on_if, on_outcome, on_option}
use peer_application_runtime.Subscriptions.Presence.{
  Code, Row, Presence, create, goes_back, time, has_session, activate_now, activate, check_row,
  update_now, check_update, update, get, drop_peer, forget, Call, activating, updating, getting,
  forgetting, call, calls, hint_at,
}

-- The limit is still the first one, and there are no more peers than it allows.
abbrev pub IsWithin : ℕ → Presence → Type 0
IsWithin m s = (s.limit ≡ m) × (length s.peers ≤ m)

-- A property of the state that every call keeps, if the parts of the calls keep it.
module _ (P : Presence → Type 0)
    (kept_by_time : (reading : Option ℕ) (s : Presence) → P s → P (time reading s).0)
    (kept_by_activate : (peer session : Bytes) (s : Presence)
      → P s
      → P (activate_now peer session s).0)
    (kept_by_update : (n : ℕ) (peer session : Bytes) (sequence : ℕ) (value : Bytes) (ttl : ℕ)
        (s : Presence)
      → P s
      → P (update_now n peer session sequence value ttl s).0)
    (kept_by_forget : (peer : Bytes) (s : Presence)
      → P s
      → P (record s { peers = drop_peer peer s.peers })) where
  call_keeps : (c : Call) (s : Presence) → P s → P (call c s)
  unfolding call activate update get forget
  call_keeps (activating peer session reading) s h =
      on_if P (length peer == 32 && length session == 16) _ _
        (λ _.
          on_outcome P (time reading s).1 _ _ (λ e. kept_by_time reading s h)
            (λ n _. kept_by_activate peer session _ (kept_by_time reading s h)))
        (λ _. h)
  call_keeps (updating peer session sequence value ttl reading) s h =
      on_outcome P (check_update peer session sequence value ttl) _ _ (λ e. h)
        (λ u _.
          on_outcome P (time reading s).1 _ _ (λ e. kept_by_time reading s h)
            (λ n _. kept_by_update n peer session sequence value ttl _ (kept_by_time reading s h)))
  call_keeps (getting peer reading) s h =
      on_if P (length peer == 32) _ _
        (λ _.
          on_outcome P (time reading s).1 _ _ (λ e. kept_by_time reading s h)
            (λ n _. kept_by_time reading s h))
        (λ _. h)
  call_keeps (forgetting peer) s h =
      on_if P (length peer == 32) _ _ (λ _. kept_by_forget peer s h) (λ _. h)

  calls_keep : (cs : List Call) (s : Presence) → P s → P (calls cs s)
  unfolding calls
  calls_keep [] s h = h
  calls_keep (c ∷ cs) s h = calls_keep cs _ (call_keeps c s h)

time-IsWithin :
    (m : ℕ) (reading : Option ℕ) (s : Presence) → IsWithin m s → IsWithin m (time reading s).0
unfolding time
time-IsWithin m reading s h =
    on_if (IsWithin m) s.uncertain _ _ (λ _. h)
      (λ _.
        on_option (IsWithin m) reading _ _ (λ _. h)
          (λ n _. on_if (IsWithin m) (goes_back s.now n) _ _ (λ _. (h.0, omega arith)) (λ _. h)))

activate-IsWithin :
    (m : ℕ) (peer session : Bytes) (s : Presence)
    → IsWithin m s
    → IsWithin m (activate_now peer session s).0
unfolding activate_now
activate-IsWithin m peer session s h =
    on_if (IsWithin m) (has_entry (lookup peer s.peers) || ltb (length s.peers) s.limit) _ _
      (λ room.
        on_if (IsWithin m) (has_session session (lookup peer s.peers)) _ _ (λ _. h)
          (λ _. elim (Bool-cases (has_entry (lookup peer s.peers))) [
            | inl there ↦
                let kept =
                  length-put_there peer (record { session = session; hint = none }) s.peers there in
                (h.0, let most = h.1 in omega (arith, kept))
            | inr gone ↦
                let grown = length-put peer (record { session = session; hint = none }) s.peers in
                let free : ltb (length s.peers) s.limit ≡ true =
                  sym (ap (λ b. b || ltb (length s.peers) s.limit) gone) ∙ room in
                (h.0, let same = h.0 in ground (arith, grown, free))
          ]))
      (λ _. h)

row-there :
    (session : Bytes) (sequence : ℕ) (value : Bytes) (ttl : ℕ) (o : Option Row) (keep : Bool)
    → check_row session sequence value ttl o ≡ done keep
    → has_entry o ≡ true
unfolding check_row
row-there session sequence value ttl none keep e = cc
row-there session sequence value ttl (some row) keep e = refl

update-IsWithin :
    (m : ℕ) (n : ℕ) (peer session : Bytes) (sequence : ℕ) (value : Bytes) (ttl : ℕ) (s : Presence)
    → IsWithin m s
    → IsWithin m (update_now n peer session sequence value ttl s).0
unfolding update_now
update-IsWithin m n peer session sequence value ttl s h =
    on_outcome (IsWithin m) (check_row session sequence value ttl (lookup peer s.peers)) _ _
      (λ e. h)
      (λ keep e.
        let there = row-there session sequence value ttl (lookup peer s.peers) keep e in
        on_if (IsWithin m) keep _ _
          (λ _.
            let kept =
              length-put_there peer
                (record { session = session; hint = some (hint_at n sequence value ttl) }) s.peers
                there in
            (h.0, let most = h.1 in omega (arith, kept)))
          (λ _. h))

length-drop_peer : (peer : Bytes) (m : List (Bytes × Row)) → length (drop_peer peer m) ≤ length m
unfolding drop_peer
length-drop_peer peer [] = omega arith
length-drop_peer peer ((k, row) ∷ m) = ground (arith, length-drop_peer peer m)

create-IsWithin : (limit : ℕ) (s : Presence) → create limit ≡ done s → IsWithin limit s
unfolding create
create-IsWithin limit s e0 =
    after_demand (leb 1 limit && leb limit 1024) _ e0
      (λ _ e. subst (IsWithin limit) (done-injective e) (refl, omega arith))

-- After any calls, whatever they answer and whatever the clock says, the limit is the one that the object was
-- created with, and there are no more peers than it allows.
pub reachable-IsWithin :
    (limit : ℕ) (s : Presence) (cs : List Call)
    → create limit ≡ done s
    → IsWithin limit (calls cs s)
reachable-IsWithin limit s cs made =
    calls_keep (IsWithin limit) (time-IsWithin limit) (activate-IsWithin limit)
      (update-IsWithin limit)
      (λ peer t h.
        let shorter = length-drop_peer peer t.peers in (h.0, let most = h.1 in omega arith))
      cs s (create-IsWithin limit s made)

abbrev IsUncertain : Presence → Type 0
IsUncertain s = s.uncertain ≡ true

time-IsUncertain :
    (reading : Option ℕ) (s : Presence) → IsUncertain s → IsUncertain (time reading s).0
unfolding time
time-IsUncertain reading s h =
    on_if IsUncertain s.uncertain _ _ (λ _. h)
      (λ _.
        on_option IsUncertain reading _ _ (λ _. refl)
          (λ n _. on_if IsUncertain (goes_back s.now n) _ _ (λ _. refl) (λ _. h)))

activate-IsUncertain :
    (peer session : Bytes) (s : Presence)
    → IsUncertain s
    → IsUncertain (activate_now peer session s).0
unfolding activate_now
activate-IsUncertain peer session s h =
    on_if IsUncertain (has_entry (lookup peer s.peers) || ltb (length s.peers) s.limit) _ _
      (λ _. on_if IsUncertain (has_session session (lookup peer s.peers)) _ _ (λ _. h) (λ _. h))
      (λ _. h)

update-IsUncertain :
    (n : ℕ) (peer session : Bytes) (sequence : ℕ) (value : Bytes) (ttl : ℕ) (s : Presence)
    → IsUncertain s
    → IsUncertain (update_now n peer session sequence value ttl s).0
unfolding update_now
update-IsUncertain n peer session sequence value ttl s h =
    on_outcome IsUncertain (check_row session sequence value ttl (lookup peer s.peers)) _ _ (λ e. h)
      (λ keep _. on_if IsUncertain keep _ _ (λ _. h) (λ _. h))

refused :
    (peer : Bytes) (reading : Option ℕ) (s : Presence)
    → length peer ≡ 32
    → IsUncertain s
    → (get peer reading s).1 ≡ failed Code.clock_uncertain
unfolding get time
refused peer reading s size h = ground (arith, size, h)

-- Once the clock has failed or gone back, no call makes the object trust it again: whatever calls follow, a
-- peer's state is never told, but the request is refused as CLOCK_UNCERTAIN.
pub calls-get :
    (cs : List Call) (peer : Bytes) (reading : Option ℕ) (s : Presence)
    → s.uncertain ≡ true
    → length peer ≡ 32
    → (get peer reading (calls cs s)).1 ≡ failed Code.clock_uncertain
calls-get cs peer reading s h size = refused peer reading (calls cs s) size (
    calls_keep IsUncertain time-IsUncertain activate-IsUncertain update-IsUncertain
      (λ p t held. held) cs s h)
