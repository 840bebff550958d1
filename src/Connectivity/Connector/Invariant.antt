-- ===== src/Connectivity/Connector/Invariant.antt =====
-- What every step of the connector keeps: distinct identities, a bound on the live connections, and none once
-- it is closed.
pub mod Passed
pub mod Kept
pub mod Steps
use peer_application_runtime.Connectivity.State.{
  is_same, Connection, Operation, Connector, Diagnostics, create, diagnostics, find_active,
  remove_active, connection, find_op, update_op, discard, is_set, check_fence, fence, is_closing,
  without_key, schedule_close, close_ended, set_stop, abandon, without_task, disposes, task_ended,
}
use peer_application_runtime.Base.{
  ℕ, zero, suc, ◌+◌, ◌≤◌, ◌<◌, ◌≡◌, refl, sym, ap, subst, ◌∙◌, List, [], ◌∷◌, Bool, true, false,
  not, ◌&&◌, Option, none, some, ◌==◌, ltb, length, All, arith, if◌then◌else◌, if-both, ==_iff,
  ltb→lt, leb, both,
}
use peer_application_runtime.Base.Text.{Str}
use peer_application_runtime.Base.Fallible.{
  Fallible, done, failed, demand, after, after_demand, done-injective, ◌>>=◌, ◌>>◌,
}
use peer_application_runtime.Connectivity.Model.{
  Code, invalid_id, invalid_source, invalid_policy, invalid_resolver, invalid_network,
  invalid_alias, duplicate_grant, invalid_budget, invalid_address, invalid_endpoint,
  metadata_denied, local_address_denied, special_address_denied, address_not_granted, egress_denied,
  candidate_budget, candidate_bytes, route_not_granted, resolution_mismatch, dns_not_granted,
  resolution_required, dns_alias_budget, dns_alias_cycle, dns_alias_denied, address_budget,
  no_addresses, closed, connection_not_current, stale_generation, cancelled, deadline,
  resolve_failed, dial_failed, auth_failed, peer_address_mismatch, invalid_purpose, cleanup_failed,
  cleanup_pending, inflight_budget, connection_budget, metered_denied, no_candidates, no_route,
  relay_unavailable, adapter_unavailable, authenticator_unavailable, resolver_unavailable,
  total_address_budget, attempt_budget, auth_mismatch, path_unverified, Outcome, Endpoint,
  endpoint_key, Candidate, RouteGrant, Policy, Resolution, DialTarget, PeerProof, Stage, at_policy,
  at_dial, at_auth, Attempt, State, connected, local_only, ConnectResult, same_route,
}
use peer_application_runtime.Connectivity.Policy.{select_candidates}
use peer_application_runtime.Connectivity.Connector.{
  check_peer, is_proof, is_path, path_of, check_authenticated, register, end_operation, Call,
  metered_allows, check_call, operation_of, add_operation, close_all, drain_active, policy_or,
  stop_all, change_network, close, disconnect, set_caller, Event, admitted, registered, ended,
  stopped, restarted, abandoned_task, retired, close_finished, task_finished, caller_cancels,
  network_changed, connector_closed, disconnected, step, run,
}

abbrev pub gens : List Operation → List ℕ
gens [] = []
gens (o ∷ os) = o.op_generation ∷ gens os

abbrev pub count : ℕ → List ℕ → ℕ
count g [] = 0
count g (h ∷ hs) = (if h == g then 1 else 0) + count g hs

-- Identities that fall from below `n`.
abbrev pub Below : ℕ → List (ℕ × Connection) → Type 0
Below n [] = Unit {0}
Below n ((i, c) ∷ rows) = (i < n) × Below i rows

pub record Inv (s : Connector) : Type 0 where
  pub fresh : Below s.next_id s.active
  pub none_after_close : s.is_closed ≡ true → s.active ≡ []
  pub past : All (λ g. g ≤ s.generation) (gens s.operations)
  pub bounded : length s.active + count s.generation (gens s.operations) ≤ s.policy.max_connections

pub Below-weaken : (n m : ℕ) (rows : List (ℕ × Connection)) → n ≤ m → Below n rows → Below m rows
Below-weaken n m [] h v = tt
Below-weaken n m ((i, c) ∷ rows) h (v, vs) = (omega arith, vs)

pub remove_active-Below :
    (i n : ℕ) (rows : List (ℕ × Connection)) → Below n rows → Below n (remove_active i rows)
unfolding remove_active
remove_active-Below i n [] v = tt
remove_active-Below i n ((j, c) ∷ rows) (v, vs) =
    if-both (Below n) (j == i) _ _
      (λ e. remove_active-Below i n rows (Below-weaken j n rows (omega arith) vs))
      λ e. (v, remove_active-Below i j rows vs)

pub length-remove_active :
    (i : ℕ) (rows : List (ℕ × Connection)) → length (remove_active i rows) ≤ length rows
unfolding remove_active
length-remove_active i [] = omega arith
length-remove_active i ((j, c) ∷ rows) = ground (arith, length-remove_active i rows)

pub remove_active_empty :
    (i : ℕ) (rows : List (ℕ × Connection)) → rows ≡ [] → remove_active i rows ≡ []
unfolding remove_active
remove_active_empty i [] e = refl
remove_active_empty i (r ∷ rows) e = cc

pub count_le : (g : ℕ) (hs : List ℕ) → count g hs ≤ length hs
count_le g [] = omega arith
count_le g (h ∷ hs) = ground (arith, count_le g hs)

pub length-gens : (os : List Operation) → length (gens os) ≡ length os
length-gens [] = refl
length-gens (o ∷ os) = ap suc (length-gens os)

-- No operation is of a generation yet to come.
pub count_later : (g : ℕ) (hs : List ℕ) → All (λ h. h ≤ g) hs → count (suc g) hs ≡ 0
count_later g [] v = refl
count_later g (h ∷ hs) (v, vs) = ground (arith, count_later g hs vs)

pub past-suc : (g : ℕ) (hs : List ℕ) → All (λ h. h ≤ g) hs → All (λ h. h ≤ suc g) hs
past-suc g [] v = tt
past-suc g (h ∷ hs) (v, vs) = (omega arith, past-suc g hs vs)

gens-update_op :
    (n : ℕ) (f : Operation → Operation) (os : List Operation)
    → ((o : Operation) → (f o).op_generation ≡ o.op_generation)
    → gens (update_op n f os) ≡ gens os
unfolding update_op
gens-update_op n f [] h = refl
gens-update_op n f (o ∷ os) h =
    if-both (λ us. gens us ≡ gens (o ∷ os)) (o.number == n) _ _ (λ e. ap (λ g. g ∷ gens os) (h o))
      λ e. ap (λ gs. o.op_generation ∷ gs) (gens-update_op n f os h)

pub gens-stop_all : (os : List Operation) → gens (stop_all os) ≡ gens os
unfolding stop_all
gens-stop_all [] = refl
gens-stop_all (o ∷ os) = ap (λ gs. o.op_generation ∷ gs) (gens-stop_all os)

pub discard-past :
    (P : ℕ → Type 0) (op : Operation) (os : List Operation)
    → All P (gens os)
    → All P (gens (discard op os))
unfolding discard
discard-past P op [] v = tt
discard-past P op (o ∷ os) (v, vs) =
    if-both (λ us. All P (gens us)) (is_same o op) _ _ (λ e. vs) λ e. (v, discard-past P op os vs)

pub count-discard :
    (g : ℕ) (op : Operation) (os : List Operation)
    → count g (gens (discard op os)) ≤ count g (gens os)
unfolding discard
count-discard g op [] = omega arith
count-discard g op (o ∷ os) = ground (arith, count-discard g op os)

-- To discard an operation of a generation that is there leaves one less.
pub count-discard_there :
    (g : ℕ) (op : Operation) (os : List Operation) {o : Operation}
    → find_op op os ≡ some o
    → (o.op_generation == g) ≡ true
    → suc (count g (gens (discard op os))) ≡ count g (gens os)
unfolding discard find_op
count-discard_there g op [] h e = cc
count-discard_there g op (p ∷ os) {o = o} h e = ground (arith, count-discard_there g op os {o = o})

-- What leaves the connections, the generation and the policy alone, and the generations of the operations, keeps
-- the invariant.
pub operations-Inv :
    (s : Connector) (os : List Operation)
    → gens os ≡ gens s.operations
    → Inv s
    → Inv (record s { operations = os })
operations-Inv s os same v = record {
  fresh = v.fresh;
  none_after_close = v.none_after_close;
  past = subst (All (λ g. g ≤ s.generation)) (sym same) v.past;
  bounded =
      subst (λ gs. length s.active + count s.generation gs ≤ s.policy.max_connections) (sym same)
        v.bounded;
}

pub update-Inv :
    (s : Connector) (n : ℕ) (f : Operation → Operation)
    → ((o : Operation) → (f o).op_generation ≡ o.op_generation)
    → Inv s
    → Inv (record s { operations = update_op n f s.operations })
update-Inv s n f h = operations-Inv s _ (gens-update_op n f s.operations h)

pub schedule_close-Inv : (c : Connection) (s : Connector) → Inv s → Inv (schedule_close c s)
unfolding schedule_close
schedule_close-Inv c s v =
    if-both Inv (is_closing c.key s.closing) _ _ (λ e. v)
      λ e. record {
        fresh = v.fresh;
        none_after_close = v.none_after_close;
        past = v.past;
        bounded = v.bounded;
      }
