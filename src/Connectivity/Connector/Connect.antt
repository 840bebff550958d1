-- ===== src/Connectivity/Connector/Connect.antt =====
-- `connect` of controller.py from its admission to its result, in a `World` that says what each await meets.
pub mod Events
pub mod Joined
mod Tests
use peer_application_runtime.Connectivity.State.{
  Connection, Operation, Connector, Diagnostics, create, diagnostics, find_active, remove_active,
  connection, find_op, update_op, discard, is_set, check_fence, fence, is_closing, without_key,
  schedule_close, close_ended, set_stop, abandon, without_task, disposes, task_ended,
}
use peer_application_runtime.Connectivity.Connector.Awaits.{
  Ended, pending, raised, returned, Wait, World, Ports, stage_ended, stage_of, is_terminal,
}
use peer_application_runtime.Base.{
  ℕ, zero, suc, ◌+◌, List, [], ◌∷◌, ◌++◌, Bool, true, false, not, ◌&&◌, ◌||◌, Option, none, some,
  leb, ltb, ◌==◌, length, if◌then◌else◌,
}
use peer_application_runtime.Base.Text.{Str, codes}
use peer_application_runtime.Base.Bytes.{bytes_eq, contains}
use peer_application_runtime.Base.Fallible.{Fallible, done, failed, demand, ◌>>=◌, ◌>>◌}
use peer_application_runtime.Connectivity.Model.{
  Code, invalid_id, invalid_source, invalid_policy, invalid_resolver, invalid_network,
  invalid_alias, duplicate_grant, invalid_budget, invalid_address, invalid_endpoint,
  metadata_denied, local_address_denied, special_address_denied, address_not_granted, egress_denied,
  candidate_budget, candidate_bytes, route_not_granted, resolution_mismatch, dns_not_granted,
  resolution_required, dns_alias_budget, dns_alias_cycle, dns_alias_denied, address_budget,
  no_addresses, closed, connection_not_current, stale_generation, cancelled, deadline,
  resolve_failed, dial_failed, auth_failed, peer_address_mismatch, invalid_purpose, cleanup_failed,
  cleanup_pending, inflight_budget, connection_budget, metered_denied, no_candidates, no_route,
  relay_unavailable, adapter_unavailable, authenticator_unavailable, resolver_unavailable,
  total_address_budget, attempt_budget, auth_mismatch, path_unverified, Outcome, Endpoint,
  endpoint_key, Candidate, RouteGrant, Policy, Resolution, DialTarget, PeerProof, Stage, at_policy,
  at_dial, at_auth, Attempt, State, connected, local_only, ConnectResult, same_route,
}
use peer_application_runtime.Connectivity.Endpoint.{parse_endpoint}
use peer_application_runtime.Connectivity.Policy.{authorize_addresses}
use peer_application_runtime.Connectivity.Connector.{
  check_peer, is_proof, is_path, path_of, check_authenticated, register, end_operation, Call,
  is_purpose, has_slot, has_room, metered_allows, check_call, operation_of, add_operation,
  close_all, drain_active, policy_or, stop_all, change_network, close, disconnect, set_caller,
  Event, admitted, registered, ended, stopped, restarted, abandoned_task, retired, close_finished,
  task_finished, caller_cancels, network_changed, connector_closed, disconnected, step, run,
}

abbrev supports : Option (List Str) → Str → Bool
supports none scheme = false
supports (some schemes) scheme = contains scheme schemes

abbrev pub is_some : Option Str → Bool
is_some none = false
is_some (some s) = true

-- The tests of a route before its name is resolved.
unfoldable pub check_route : Ports → RouteGrant → Outcome Endpoint
check_route ports g = do
  demand (not (bytes_eq g.route.source (codes "relay"))) relay_unavailable
  e ← parse_endpoint g.route.endpoint
  demand (supports ports.schemes e.scheme) adapter_unavailable
  demand ports.has_authenticator authenticator_unavailable
  demand (is_some e.literal || is_some g.resolver_id) dns_not_granted
  demand (is_some e.literal || ports.has_resolver) resolver_unavailable
  done e

unfoldable pub resolve_route :
    Endpoint
    → Operation
    → Wait (Option Resolution)
    → Connector
    → Connector × Outcome (Option Resolution)
resolve_route e op w s = elim e.literal [
  | some l ↦ (s, done none)
  | none ↦ stage_of resolve_failed false op w s
]

abbrev pub answers : Option Resolution → ℕ
answers none = 1
answers (some r) = length r.addresses

-- `reason` is the code of the last attempt that failed.
pub record Progress : Type 0 where
  pub here : Connector
  pub made : List Attempt
  pub dials : ℕ
  pub addresses_seen : ℕ
  pub last : Code

pub data Verdict : Type 0 where
  joined : ℕ → Str → Verdict
  raises : Code → Verdict
  goes_on : Verdict

unfoldable pub targets_of :
    RouteGrant → Policy → ℕ → ℕ → Option Resolution → Outcome (List DialTarget × ℕ)
targets_of g p generation seen r = do
  targets ← authorize_addresses g r p generation
  demand (leb (seen + answers r) p.max_total_addresses) total_address_budget
  done (targets, seen + answers r)

abbrev pub at_state : Progress → Connector → Progress
at_state pr s = record pr { here = s }

unfoldable pub note : ℕ → Stage → Code → Progress → Progress
note i at why pr = record pr {
  made = pr.made ++ record { candidate_index = i; stage = at; reason = some why } ∷ [];
  last = why;
}

abbrev pub has_any : List Connection → Bool
has_any [] = false
has_any (c ∷ cs) = true

abbrev pub retire : Option Connection → List Event → Connector → Connector
retire none es s = s
retire (some c) es s = run es (schedule_close c s)

-- The end of a dial that failed: a connection it made is retired first.
unfoldable pub after_failure :
    ℕ → ℕ → Stage → Code → Operation → Option Connection → World → Progress → Progress × Verdict
after_failure i j at why op c w pr =
    let s = retire c (w.retiring i j) pr.here in
    let noted = note i at why pr in
    if is_terminal why
    then (at_state noted s, raises why)
    else if not (s.cleanup_failures == 0)
    then (at_state noted s, raises cleanup_failed)
    else if has_any s.closing
    then (at_state noted s, raises cleanup_pending)
    else (at_state noted (set_stop false op s), goes_on)

-- The attempt that ends in a connection.
abbrev pub success : ℕ → Attempt
success i = record { candidate_index = i; stage = at_auth; reason = none }

unfoldable pub finish_dial :
    ℕ
    → ℕ
    → DialTarget
    → Operation
    → World
    → Connection
    → Option PeerProof
    → Progress
    → Progress × Verdict
finish_dial i j t op w c proof pr =
    elim (check_authenticated op (w.authenticate i j).later (w.authenticate i j).peer proof c t
      pr.here) [
        | failed e ↦ after_failure i j at_auth e op (some c) w pr
        | done path ↦ (
          record pr { here = register op c pr.here; made = pr.made ++ success i ∷ [] },
          joined pr.here.next_id path,
        )
      ]

unfoldable pub authenticate_dial :
    ℕ → ℕ → DialTarget → Operation → World → Connection → Progress → Progress × Verdict
authenticate_dial i j t op w c pr =
    let r = stage_of auth_failed false op (w.authenticate i j) pr.here in
    elim r.1 [
      | failed e ↦ after_failure i j at_auth e op (some c) w (at_state pr r.0)
      | done proof ↦ finish_dial i j t op w c proof (at_state pr r.0)
    ]

unfoldable pub dial_once : ℕ → ℕ → DialTarget → Operation → World → Progress → Progress × Verdict
dial_once i j t op w pr =
    let r = stage_of dial_failed true op (w.dial i j) pr.here in
    elim r.1 [
      | failed e ↦ after_failure i j at_dial e op none w (at_state pr r.0)
      | done c ↦ elim (check_peer (w.dial i j).peer t) [
        | failed e ↦ after_failure i j at_dial e op (some c) w (at_state pr r.0)
        | done u ↦ authenticate_dial i j t op w c (at_state pr r.0)
      ]
    ]

unfoldable pub dial_target :
    Policy → ℕ → ℕ → DialTarget → Operation → World → Progress → Progress × Verdict
dial_target p i j t op w pr = elim (fence op (w.dial i j).before pr.here) [
  | failed e ↦ (pr, raises e)
  | done u ↦
      if ltb pr.dials p.max_attempts
      then dial_once i j t op w (record pr { dials = suc pr.dials })
      else (pr, raises attempt_budget)
]

unfoldable pub dial_targets :
    Policy → ℕ → ℕ → List DialTarget → Operation → World → Progress → Progress × Verdict
dial_targets p i j [] op w pr = (pr, goes_on)
dial_targets p i j (t ∷ ts) op w pr =
    let r = dial_target p i j t op w pr in
    elim r.1 [ goes_on ↦ dial_targets p i (suc j) ts op w r.0 | joined n path ↦ r | raises e ↦ r ]

-- A route that is refused before any dial.
unfoldable pub route_refused : ℕ → Code → Operation → Progress → Progress × Verdict
route_refused i why op pr =
    let noted = note i at_policy why pr in
    if is_terminal why
    then (noted, raises why)
    else (at_state noted (set_stop false op pr.here), goes_on)

unfoldable pub resolved_route :
    Policy → ℕ → RouteGrant → Option Resolution → Operation → World → Progress → Progress × Verdict
resolved_route p i g r op w pr = elim (targets_of g p op.op_generation pr.addresses_seen r) [
  | failed e ↦ route_refused i e op pr
  | done (ts, seen) ↦ dial_targets p i 0 ts op w (record pr { addresses_seen = seen })
]

unfoldable pub try_route :
    Policy → Ports → ℕ → RouteGrant → Operation → World → Progress → Progress × Verdict
try_route p ports i g op w pr = elim (fence op (w.clock i) pr.here) [
  | failed e ↦ (pr, raises e)
  | done u ↦ elim (check_route ports g) [
    | failed e ↦ route_refused i e op pr
    | done e ↦
        let r = resolve_route e op (w.resolve i) pr.here in
        elim r.1 [
          | failed why ↦ route_refused i why op (at_state pr r.0)
          | done a ↦ resolved_route p i g a op w (at_state pr r.0)
        ]
  ]
]

-- `_connect`.
unfoldable pub try_routes :
    Policy → Ports → ℕ → List RouteGrant → Operation → World → Progress → Progress × Verdict
try_routes p ports i [] op w pr = (pr, raises pr.last)
try_routes p ports i (g ∷ gs) op w pr =
    let r = try_route p ports i g op w pr in
    elim r.1 [ goes_on ↦ try_routes p ports (suc i) gs op w r.0 | joined n path ↦ r | raises e ↦ r ]

abbrev pub starting : Connector → Progress
starting s = record { here = s; made = []; dials = 0; addresses_seen = 0; last = no_route }

-- The result of a call, and the state it leaves: the operation ends with it.
unfoldable pub conclude : ℕ → Operation → Progress × Verdict → Connector × ConnectResult
conclude generation op (pr, joined n path) =
    (pr.here, record { state = connected n path; in_generation = generation; attempts = pr.made })
conclude generation op (pr, raises e) = (
  end_operation op pr.here,
  record { state = local_only e; in_generation = generation; attempts = pr.made },
)
conclude generation op (pr, goes_on) = (
  end_operation op pr.here,
  record { state = local_only pr.last; in_generation = generation; attempts = pr.made },
)

unfoldable pub connect : Ports → World → Call → Connector → Connector × ConnectResult
connect ports w call s = elim (check_call call s) [
  | failed e ↦ (s, record { state = local_only e; in_generation = s.generation; attempts = [] })
  | done grants ↦
      let op = operation_of call s in
      conclude s.generation op
        (try_routes s.policy ports 0 grants op w (starting (add_operation op s)))
]
