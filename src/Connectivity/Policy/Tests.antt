-- ===== src/Connectivity/Policy/Tests.antt =====
-- Runs of the policy: a literal route, a named route, and a choice of candidates.
use peer_application_runtime.Connectivity.Policy.{
  authorize_addresses, answer_of, resolved, check_aliases, address_allowed, allowed_ip, check_range,
  within, unique, select_candidates, select_from, find_grant,
}
use peer_application_runtime.Base.Bytes.{bytes_eq, contains}
use peer_application_runtime.Base.Fallible.{done, failed, collect}
use peer_application_runtime.Connectivity.Grants.{has_route}
use peer_application_runtime.Connectivity.Policy.Sound.{
  Target, Answered, authorize_addresses-Target, authorize_addresses-Answered,
}
use peer_application_runtime.Connectivity.Policy.Choice.{Selected, select_candidates-Selected}
use peer_application_runtime.Base.{◌≤◌, ◌≡◌, refl, [], ◌∷◌, true, false, none, some, All}
use peer_application_runtime.Base.Text.{Str, codes, starts_with, decimal, digits}
use peer_application_runtime.Connectivity.Ip.{
  in_network, read_v4, read_v6, ip_address, unmapped, write_ip, ip_network,
}
use peer_application_runtime.Connectivity.Ip.Text.{
  split, join, has_char, every, some_char, is_digits, read_decimal, read_hextets, hex,
}
use peer_application_runtime.Connectivity.Model.{
  special_address_denied, Endpoint, RouteGrant, Policy, Resolution, DialTarget,
}
use peer_application_runtime.Connectivity.Endpoint.{
  numeric_ip, is_legacy_number, is_label, dns_name, host_literal, read_host, parse_endpoint,
  parse_network,
}

abbrev pub near : RouteGrant
near = record {
  route = record {
    endpoint = codes "tcp://10.1.2.3:443";
    peer_id = codes "p";
    source = codes "lan";
  };
  networks = codes "10.0.0.0/8" ∷ [];
  allow_local = true;
  resolver_id = none;
  aliases = [];
}

abbrev named : RouteGrant
named = record {
  route = record {
    endpoint = codes "wss://a.example:443";
    peer_id = codes "q";
    source = codes "manual";
  };
  networks = codes "8.8.8.0/24" ∷ [];
  allow_local = false;
  resolver_id = some (codes "r");
  aliases = [];
}

abbrev pub policy : Policy
policy = record {
  grants = near ∷ named ∷ [];
  allow_egress = true;
  allow_metered_user = false;
  allow_metered_background = false;
  max_candidates = 16;
  max_candidate_bytes = 8192;
  max_addresses = 8;
  max_total_addresses = 32;
  max_aliases = 4;
  max_attempts = 4;
  max_inflight = 2;
  max_connections = 4;
  timeout = 5000;
  cleanup_timeout = 250;
}

abbrev answer : Resolution
answer = record {
  query = codes "a.example";
  by_resolver = codes "r";
  addresses = codes "8.8.8.8" ∷ codes "8.8.8.8" ∷ [];
  names = [];
}

abbrev near_target : DialTarget
near_target = record {
  dial_scheme = codes "tcp";
  ip = codes "10.1.2.3";
  dial_port = 443;
  server_name = none;
  dial_peer = codes "p";
  dial_source = codes "lan";
  for_generation = 7;
}

authorize-near : authorize_addresses near none policy 7 ≡ done (near_target ∷ [])
unfolding parse_endpoint numeric_ip ip_address unmapped write_ip has_char every split read_decimal
    is_digits join starts_with decimal digits read_v4 read_v6 read_hextets hex host_literal
    read_host authorize_addresses answer_of resolved check_aliases address_allowed allowed_ip
    check_range within in_network collect parse_network ip_network unique contains bytes_eq dns_name
    is_label is_legacy_number some_char
authorize-near = refl

authorize_addresses-Target_example : All (Target near 7) (near_target ∷ [])
authorize_addresses-Target_example = authorize_addresses-Target near none policy 7 authorize-near

abbrev named_target : DialTarget
named_target = record {
  dial_scheme = codes "wss";
  ip = codes "8.8.8.8";
  dial_port = 443;
  server_name = some (codes "a.example");
  dial_peer = codes "q";
  dial_source = codes "manual";
  for_generation = 7;
}

authorize-named : authorize_addresses named (some answer) policy 7 ≡ done (named_target ∷ [])
unfolding parse_endpoint numeric_ip ip_address unmapped write_ip has_char every split read_decimal
    is_digits join starts_with decimal digits read_v4 read_v6 read_hextets hex host_literal
    read_host authorize_addresses answer_of resolved check_aliases address_allowed allowed_ip
    check_range within in_network collect parse_network ip_network unique contains bytes_eq dns_name
    is_label is_legacy_number some_char
authorize-named = refl

authorize_addresses-Answered_example :
    All (λ a. (text : Str) × (address_allowed a named ≡ done text)) answer.addresses
    × (1 ≤ 2)
    × ((e : Endpoint) × Answered e named answer policy)
authorize_addresses-Answered_example =
    authorize_addresses-Answered named answer policy 7 authorize-named

-- A resolver's answer with the address of a metadata service is refused as a whole.
authorize-bad_answer :
    authorize_addresses named
      (some (record answer { addresses = codes "8.8.8.8" ∷ codes "169.254.169.254" ∷ [] }))
      policy
      7
    ≡ failed special_address_denied
unfolding parse_endpoint numeric_ip ip_address unmapped write_ip has_char every split read_decimal
    is_digits join starts_with decimal digits read_v4 read_v6 read_hextets hex host_literal
    read_host authorize_addresses answer_of resolved check_aliases address_allowed allowed_ip
    check_range within in_network collect parse_network ip_network unique contains bytes_eq dns_name
    is_label is_legacy_number some_char
authorize-bad_answer = refl

select-both :
    select_candidates (named.route ∷ near.route ∷ named.route ∷ []) policy
    ≡ done (named ∷ near ∷ [])
unfolding select_candidates select_from find_grant has_route bytes_eq
select-both = refl

select_candidates-Selected_example :
    Selected policy (named.route ∷ near.route ∷ named.route ∷ []) (named ∷ near ∷ [])
select_candidates-Selected_example = select_candidates-Selected _ policy select-both
