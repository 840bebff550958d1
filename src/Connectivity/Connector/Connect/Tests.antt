-- ===== src/Connectivity/Connector/Connect/Tests.antt =====
-- A call of `connect` that ends in a connection, and one whose network changes meanwhile.
use peer_application_runtime.Connectivity.State.{
  Connector, create, find_op, update_op, discard, check_fence, fence, set_stop, abandon,
}
use peer_application_runtime.Connectivity.Connector.Awaits.{
  returned, Wait, World, Ports, stage_ended, stage_of,
}
use peer_application_runtime.Base.{◌≡◌, refl, List, [], ◌∷◌, true, false, none, some}
use peer_application_runtime.Base.Text.{codes, starts_with, decimal, digits}
use peer_application_runtime.Base.Bytes.{bytes_eq, contains}
use peer_application_runtime.Base.Fallible.{collect}
use peer_application_runtime.Connectivity.Ip.Text.{
  split, join, has_char, every, is_digits, read_decimal, read_hextets, hex,
}
use peer_application_runtime.Connectivity.Ip.{
  in_network, read_v4, read_v6, ip_address, unmapped, write_ip, ip_network,
}
use peer_application_runtime.Connectivity.Model.{stale_generation, connected, local_only}
use peer_application_runtime.Connectivity.Endpoint.{
  numeric_ip, host_literal, read_host, parse_endpoint, parse_network,
}
use peer_application_runtime.Connectivity.Grants.{has_route}
use peer_application_runtime.Connectivity.Policy.{
  authorize_addresses, answer_of, address_allowed, allowed_ip, check_range, within, unique,
  select_candidates, select_from, find_grant,
}
use peer_application_runtime.Connectivity.Policy.Tests.{near, policy}
use peer_application_runtime.Connectivity.Connector.{
  check_peer, check_authenticated, register, end_operation, Call, is_purpose, metered_allows,
  check_call, operation_of, add_operation, drain_active, stop_all, change_network, Event, admitted,
  network_changed, connector_closed, step, run,
}
use peer_application_runtime.Connectivity.Connector.Invariant.{Inv}
use peer_application_runtime.Connectivity.Connector.Invariant.Steps.{run-create-Inv}
use peer_application_runtime.Connectivity.Connector.Connect.{
  check_route, resolve_route, targets_of, note, after_failure, finish_dial, authenticate_dial,
  dial_once, dial_target, dial_targets, route_refused, resolved_route, try_route, try_routes,
  conclude, connect,
}
use peer_application_runtime.Connectivity.Connector.Connect.Events.{connect-Inv}
use peer_application_runtime.Connectivity.Connector.Connect.Joined.{
  Connected, IsAuthorised, connect-Connected,
}

abbrev fresh : Connector
fresh = create policy (codes "s") false

abbrev ports : Ports
ports = record { schemes = some (codes "tcp" ∷ []); has_resolver = false; has_authenticator = true }

abbrev wait {ℓ} : {A : Type ℓ} → List Event → A → Wait A
wait es a = record {
  before = 20;
  events = es;
  now = 30;
  settling = [];
  outcome = returned a;
  peer = some (codes "10.1.2.3", 443);
  later = 30;
}

abbrev world : List Event → World
world es = record {
  clock = λ i. 10;
  resolve = λ i. wait [] none;
  dial = λ i j. wait es (record { key = 5; observed_path = some (codes "direct") });
  authenticate =
      λ i j. wait [] (some (record { proved_peer = codes "p"; proved_scope = codes "s" }));
  retiring = λ i j. [];
}

abbrev call : Call
call = record { candidates = near.route ∷ []; purpose = codes "user"; cancel = none; called_at = 0 }

connects : (connect ports (world []) call fresh).1.state ≡ connected 1 (codes "direct")
unfolding connect check_call is_purpose metered_allows select_candidates select_from find_grant
    has_route bytes_eq operation_of add_operation conclude try_routes try_route fence check_fence
    find_op check_route resolve_route resolved_route targets_of dial_targets dial_target dial_once
    stage_of stage_ended run authenticate_dial finish_dial check_authenticated check_peer register
    discard create step parse_endpoint numeric_ip ip_address unmapped write_ip has_char every split
    read_decimal is_digits join starts_with decimal digits read_v4 read_v6 read_hextets hex
    host_literal read_host authorize_addresses answer_of address_allowed allowed_ip check_range
    within in_network collect parse_network ip_network unique contains
connects = refl

-- The generation has changed when the dial returns.
goes_stale :
    (connect ports (world (network_changed false none ∷ [])) call fresh).1.state
    ≡ local_only stale_generation
unfolding connect check_call is_purpose metered_allows select_candidates select_from find_grant
    has_route bytes_eq operation_of add_operation conclude try_routes try_route fence check_fence
    find_op check_route resolve_route resolved_route targets_of dial_targets dial_target dial_once
    stage_of stage_ended run authenticate_dial finish_dial check_authenticated check_peer register
    discard create step parse_endpoint numeric_ip ip_address unmapped write_ip has_char every split
    read_decimal is_digits join starts_with decimal digits read_v4 read_v6 read_hextets hex
    host_literal read_host authorize_addresses answer_of address_allowed allowed_ip check_range
    within in_network collect parse_network ip_network unique contains change_network drain_active
    stop_all abandon set_stop update_op route_refused note after_failure end_operation
goes_stale = refl

connect-Connected_example :
    Connected
      (IsAuthorised policy 0)
      (world [])
      0
      1
      (codes "direct")
      (connect ports (world []) call fresh).0
unfolding create
connect-Connected_example =
    connect-Connected ports (world []) call fresh 1 (codes "direct") connects

fresh-Inv : Inv fresh
unfolding run
fresh-Inv = run-create-Inv policy (codes "s") false []

connect-Inv_example : Inv (connect ports (world []) call fresh).0
connect-Inv_example = connect-Inv ports (world []) call fresh fresh-Inv

run-create-Inv_example :
    Inv (run (admitted call ∷ network_changed true none ∷ connector_closed ∷ []) fresh)
run-create-Inv_example =
    run-create-Inv policy (codes "s") false
      (admitted call ∷ network_changed true none ∷ connector_closed ∷ [])
