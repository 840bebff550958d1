-- ===== src/Connectivity/Connector.antt =====
-- What the `Connector` of controller.py does between two awaits, each an event. The calls of the ports, the clock
-- and the tasks that end are values. The running loop is the connector's.
pub mod Awaits
pub mod Connect
pub mod Invariant
use peer_application_runtime.Connectivity.State.{
  Connection, Operation, Connector, Diagnostics, create, diagnostics, find_active, remove_active,
  connection, find_op, update_op, discard, is_set, check_fence, fence, is_closing, without_key,
  schedule_close, close_ended, set_stop, abandon, without_task, disposes, task_ended,
}
use peer_application_runtime.Base.{
  ◌++◌, ◌≡◌, refl, ℕ, suc, ◌+◌, List, [], ◌∷◌, map, Bool, true, false, not, ◌&&◌, ◌||◌, Option,
  none, some, leb, ltb, ◌==◌, length, if◌then◌else◌,
}
use peer_application_runtime.Base.Text.{Str, codes}
use peer_application_runtime.Base.Bytes.{bytes_eq}
use peer_application_runtime.Base.Fallible.{Fallible, done, failed, demand, ◌>>=◌, ◌>>◌}
use peer_application_runtime.Connectivity.Ip.{write_ip}
use peer_application_runtime.Connectivity.Model.{
  Code, invalid_id, invalid_source, invalid_policy, invalid_resolver, invalid_network,
  invalid_alias, duplicate_grant, invalid_budget, invalid_address, invalid_endpoint,
  metadata_denied, local_address_denied, special_address_denied, address_not_granted, egress_denied,
  candidate_budget, candidate_bytes, route_not_granted, resolution_mismatch, dns_not_granted,
  resolution_required, dns_alias_budget, dns_alias_cycle, dns_alias_denied, address_budget,
  no_addresses, closed, connection_not_current, stale_generation, cancelled, deadline,
  resolve_failed, dial_failed, auth_failed, peer_address_mismatch, invalid_purpose, cleanup_failed,
  cleanup_pending, inflight_budget, connection_budget, metered_denied, no_candidates, no_route,
  relay_unavailable, adapter_unavailable, authenticator_unavailable, resolver_unavailable,
  total_address_budget, attempt_budget, auth_mismatch, path_unverified, Outcome, Endpoint,
  endpoint_key, Candidate, RouteGrant, Policy, Resolution, DialTarget, PeerProof, Stage, at_policy,
  at_dial, at_auth, Attempt, State, connected, local_only, ConnectResult, same_route,
}
use peer_application_runtime.Connectivity.Endpoint.{numeric_ip}
use peer_application_runtime.Connectivity.Policy.{select_candidates}

-- `_check_peer`, with what `peername()` gave: `none` where it raises or is no pair of a text and a port.
unfoldable pub check_peer : Option (Str × ℕ) → DialTarget → Outcome (Unit {0})
check_peer none t = failed peer_address_mismatch
check_peer (some (text, port)) t = elim (numeric_ip text) [
  | failed e ↦ failed peer_address_mismatch
  | done ip ↦ demand (bytes_eq (write_ip ip) t.ip && port == t.dial_port) peer_address_mismatch
]

abbrev pub is_proof : Option PeerProof → DialTarget → Str → Bool
is_proof none t scope = false
is_proof (some p) t scope = bytes_eq p.proved_peer t.dial_peer && bytes_eq p.proved_scope scope

abbrev pub is_path : Str → Bool
is_path s = bytes_eq s (codes "direct") || bytes_eq s (codes "local-fixture")

abbrev pub path_of : Option Str → Outcome Str
path_of none = failed path_unverified
path_of (some path) = demand (is_path path) path_unverified >> done path

-- The tests after an authentication; they return the path of the connection.
unfoldable pub check_authenticated :
    Operation
    → ℕ
    → Option (Str × ℕ)
    → Option PeerProof
    → Connection
    → DialTarget
    → Connector
    → Outcome Str
check_authenticated op now peer proof c t s = do
  fence op now s
  check_peer peer t
  demand (is_proof proof t s.scope) auth_mismatch
  path_of c.observed_path

-- A connection that has passed them becomes active, and its operation ends, with no await between.
unfoldable pub register : Operation → Connection → Connector → Connector
register op c s = record s {
  active = (s.next_id, c) ∷ s.active;
  next_id = suc s.next_id;
  operations = discard op s.operations;
}

unfoldable pub end_operation : Operation → Connector → Connector
end_operation op s = record s { operations = discard op s.operations }

pub record Call : Type 0 where
  pub candidates : List Candidate
  pub purpose : Str
  pub cancel : Option Bool
  pub called_at : ℕ

unfoldable pub is_purpose : Str → Bool
is_purpose p = bytes_eq p (codes "user") || bytes_eq p (codes "background")

abbrev pub has_slot : Connector → Bool
has_slot s = ltb (length s.operations + length s.lingering) s.policy.max_inflight

abbrev pub has_room : Connector → Bool
has_room s =
    ltb (length s.active + length s.closing + length s.operations + length s.lingering)
      s.policy.max_connections

unfoldable pub metered_allows : Str → Connector → Bool
metered_allows purpose s =
    not s.metered
    || (if bytes_eq purpose (codes "user")
        then s.policy.allow_metered_user
        else s.policy.allow_metered_background)

unfoldable pub check_call : Call → Connector → Outcome (List RouteGrant)
check_call call s = do
  demand (not s.is_closed) closed
  demand (is_purpose call.purpose) invalid_purpose
  demand (not (is_set call.cancel)) cancelled
  demand (s.cleanup_failures == 0) cleanup_failed
  demand (has_slot s) inflight_budget
  demand (has_room s) connection_budget
  demand (metered_allows call.purpose s) metered_denied
  grants ← select_candidates call.candidates s.policy
  demand (leb 1 (length grants)) no_candidates
  done grants

unfoldable pub operation_of : Call → Connector → Operation
operation_of call s = record {
  number = s.next_number;
  op_generation = s.generation;
  op_deadline = call.called_at + s.policy.timeout;
  stop = false;
  caller = call.cancel;
}

unfoldable pub add_operation : Operation → Connector → Connector
add_operation op s = record s { operations = op ∷ s.operations; next_number = suc s.next_number }

abbrev pub close_all : List (ℕ × Connection) → Connector → Connector
close_all [] s = s
close_all ((i, c) ∷ rows) s = close_all rows (schedule_close c s)

-- `_drain_active`, up to its await.
unfoldable pub drain_active : Connector → Connector
drain_active s = close_all s.active (record s { active = [] })

abbrev pub policy_or : Policy → Option Policy → Policy
policy_or p none = p
policy_or p (some q) = q

unfoldable pub stop_all : List Operation → List Operation
stop_all [] = []
stop_all (o ∷ os) = record o { stop = true } ∷ stop_all os

unfoldable pub change_network : Bool → Option Policy → Connector → Connector × Outcome (Unit {0})
change_network metered p s = if s.is_closed then (s, failed closed) else (
  drain_active (record s {
    generation = suc s.generation;
    metered = metered;
    policy = policy_or s.policy p;
    operations = stop_all s.operations;
  }),
  done tt,
)

unfoldable pub close : Connector → Connector
close s =
    if s.is_closed
    then drain_active s
    else drain_active (record s {
      is_closed = true;
      generation = suc s.generation;
      operations = stop_all s.operations;
    })

unfoldable pub disconnect : ℕ → Connector → Connector × Outcome (Unit {0})
disconnect i s = elim (connection i s) [
  | failed e ↦ (s, failed e)
  | done c ↦ (schedule_close c (record s { active = remove_active i s.active }), done tt)
]

unfoldable pub set_caller : ℕ → Connector → Connector
set_caller n s = record s {
  operations = update_op n (λ o. record o { caller = some true }) s.operations;
}

-- What another task does between two awaits of an operation, or a port's task that ends.
pub data Event : Type 0 where
  admitted : Call → Event
  registered : Operation → ℕ → Option (Str × ℕ) → Option PeerProof → Connection → DialTarget → Event
  ended stopped restarted : Operation → Event
  abandoned_task : Bool → Operation → Event
  retired : Connection → Event
  close_finished : Connection → Bool → Event
  task_finished : ℕ → Option Connection → Event
  caller_cancels : ℕ → Event
  network_changed : Bool → Option Policy → Event
  connector_closed : Event
  disconnected : ℕ → Event

unfoldable pub step : Event → Connector → Connector
step (admitted call) s = elim (check_call call s) [
  | failed e ↦ s
  | done grants ↦ add_operation (operation_of call s) s
]
step (registered op now peer proof c t) s = elim (check_authenticated op now peer proof c t s) [
  | failed e ↦ s
  | done path ↦ register op c s
]
step (ended op) s = end_operation op s
step (stopped op) s = set_stop true op s
step (restarted op) s = set_stop false op s
step (abandoned_task dispose op) s = abandon dispose op s
step (retired c) s = schedule_close c s
step (close_finished c ok) s = close_ended c ok s
step (task_finished n value) s = task_ended n value s
step (caller_cancels n) s = set_caller n s
step (network_changed metered p) s = (change_network metered p s).0
step connector_closed s = close s
step (disconnected i) s = (disconnect i s).0

unfoldable pub run : List Event → Connector → Connector
run [] s = s
run (e ∷ es) s = run es (step e s)

pub run-append : (xs ys : List Event) (s : Connector) → run (xs ++ ys) s ≡ run ys (run xs s)
unfolding run
run-append [] ys s = refl
run-append (x ∷ xs) ys s = run-append xs ys (step x s)
