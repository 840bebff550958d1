-- ===== src/Connectivity/Policy.antt =====
-- policy.py: the addresses a grant admits, the choice of candidates, and the targets of a route.
pub mod Sound
pub mod Choice
pub mod Tests
use peer_application_runtime.Base.{
  ℕ, suc, ◌+◌, ◌*◌, ◌<◌, List, [], ◌∷◌, map, Bool, true, false, not, ◌&&◌, ◌||◌, Option, none, some,
  leb, ◌==◌, length, if◌then◌else◌,
}
use peer_application_runtime.Base.Text.{Str}
use peer_application_runtime.Base.Bytes.{bytes_eq, contains}
use peer_application_runtime.Base.Fallible.{Fallible, done, failed, demand, collect, ◌>>=◌, ◌>>◌}
use peer_application_runtime.Connectivity.Ip.{Ip, Network, in_network, write_ip}
use peer_application_runtime.Connectivity.Model.{
  Code, invalid_id, invalid_source, invalid_policy, invalid_resolver, invalid_network,
  invalid_alias, duplicate_grant, invalid_budget, invalid_address, invalid_endpoint,
  metadata_denied, local_address_denied, special_address_denied, address_not_granted, egress_denied,
  candidate_budget, candidate_bytes, route_not_granted, resolution_mismatch, dns_not_granted,
  resolution_required, dns_alias_budget, dns_alias_cycle, dns_alias_denied, address_budget,
  no_addresses, closed, connection_not_current, stale_generation, cancelled, deadline,
  resolve_failed, dial_failed, auth_failed, peer_address_mismatch, invalid_purpose, cleanup_failed,
  cleanup_pending, inflight_budget, connection_budget, metered_denied, no_candidates, no_route,
  relay_unavailable, adapter_unavailable, authenticator_unavailable, resolver_unavailable,
  total_address_budget, attempt_budget, auth_mismatch, path_unverified, Outcome, Endpoint,
  endpoint_key, Candidate, RouteGrant, Policy, Resolution, DialTarget, PeerProof, Stage, at_policy,
  at_dial, at_auth, Attempt, State, connected, local_only, ConnectResult, same_route,
}
use peer_application_runtime.Connectivity.Endpoint.{
  numeric_ip, dns_name, parse_endpoint, parse_network,
}
use peer_application_runtime.Connectivity.Grants.{has_route}

abbrev v4 : ℕ → ℕ → ℕ → ℕ → Network
v4 a b c p = record { in_v6 = false; base = ((a * 256 + b) * 256 + c) * 256; prefix = p }

-- The first three 16-bit groups of an IPv6 network.
abbrev v6 : ℕ → ℕ → ℕ → ℕ → Network
v6 a b c p = record {
  in_v6 = true;
  base = ((a * 65536 + b) * 65536 + c) * 1208925819614629174706176;
  prefix = p;
}

-- `SPECIAL_V4`.
abbrev pub special_v4 : List Network
special_v4 =
    v4 0 0 0 8
    ∷ v4 100 64 0 10
    ∷ v4 169 254 0 16
    ∷ v4 192 0 0 24
    ∷ v4 192 0 2 24
    ∷ v4 192 31 196 24
    ∷ v4 192 52 193 24
    ∷ v4 192 88 99 24
    ∷ v4 192 175 48 24
    ∷ v4 198 18 0 15
    ∷ v4 198 51 100 24
    ∷ v4 203 0 113 24
    ∷ v4 224 0 0 4
    ∷ v4 240 0 0 4
    ∷ []

-- `SPECIAL_V6`.
abbrev pub special_v6 : List Network
special_v6 =
    v6 8193 0 0 23 ∷ v6 8193 3512 0 32 ∷ v6 8194 0 0 16 ∷ v6 9760 79 32768 48 ∷ v6 16383 0 0 20 ∷ []

-- `LOCAL`.
abbrev pub local : List Network
local =
    v4 10 0 0 8
    ∷ v4 172 16 0 12
    ∷ v4 192 168 0 16
    ∷ v4 127 0 0 8
    ∷ record { in_v6 = true; base = 1; prefix = 128 }
    ∷ v6 64512 0 0 7
    ∷ []

-- `GLOBAL_V6`.
abbrev pub global_v6 : Network
global_v6 = v6 8192 0 0 3

-- `METADATA_V6`.
abbrev pub metadata_v6 : ℕ
metadata_v6 = 336294982257581694735330614659971547732

-- `_within`.
unfoldable pub within : Ip → List Network → Bool
within ip [] = false
within ip (n ∷ ns) = in_network ip n || within ip ns

unfoldable pub check_range : Bool → Ip → Outcome (Unit {0})
check_range allow_local ip = elim (within ip local) [
  | true ↦ demand allow_local local_address_denied
  | false ↦ elim ip.is_v6 [
    | false ↦ demand (not (within ip special_v4)) special_address_denied
    | true ↦ demand (in_network ip global_v6 && not (within ip special_v6)) special_address_denied
  ]
]

abbrev pub is_metadata : Ip → Bool
is_metadata ip = ip.is_v6 && ip.number == metadata_v6

-- `address_allowed`, with the address it has read.
unfoldable pub allowed_ip : Str → RouteGrant → Outcome Ip
allowed_ip text g = do
  ip ← numeric_ip text
  demand (not (is_metadata ip)) metadata_denied
  check_range g.allow_local ip
  networks ← collect parse_network g.networks
  demand (within ip networks) address_not_granted
  done ip

unfoldable pub address_allowed : Str → RouteGrant → Outcome Str
address_allowed text g = allowed_ip text g >>= λ ip. done (write_ip ip)

abbrev pub bytes_of : List Candidate → ℕ
bytes_of [] = 0
bytes_of (c ∷ cs) = length c.endpoint + length c.peer_id + length c.source + bytes_of cs

-- The grant of a route; a policy has one at most.
unfoldable pub find_grant : Candidate → List RouteGrant → Option RouteGrant
find_grant c [] = none
find_grant c (g ∷ gs) = if same_route g.route c then some g else find_grant c gs

-- The loop of `select_candidates`, with the routes it has taken.
unfoldable pub select_from :
    List RouteGrant → List RouteGrant → List Candidate → Outcome (List RouteGrant)
select_from grants taken [] = done []
select_from grants taken (c ∷ cs) = elim (find_grant c grants) [
  | none ↦ failed route_not_granted
  | some g ↦ elim (has_route c taken) [
    | true ↦ select_from grants taken cs
    | false ↦ select_from grants (g ∷ taken) cs >>= λ rest. done (g ∷ rest)
  ]
]

unfoldable pub select_candidates : List Candidate → Policy → Outcome (List RouteGrant)
select_candidates rows p = do
  demand p.allow_egress egress_denied
  demand (leb (length rows) p.max_candidates) candidate_budget
  demand (leb (bytes_of rows) p.max_candidate_bytes) candidate_bytes
  select_from p.grants [] rows

unfoldable pub check_aliases : List Str → List Str → List Str → Outcome (Unit {0})
check_aliases granted seen [] = done tt
check_aliases granted seen (alias ∷ rest) = do
  name ← dns_name alias
  demand (not (contains name seen)) dns_alias_cycle
  demand (contains name granted) dns_alias_denied
  check_aliases granted (name ∷ seen) rest

-- The answer of a resolver to the name of an endpoint.
unfoldable pub resolved : Endpoint → Str → RouteGrant → Resolution → Policy → Outcome (List Str)
resolved e resolver g r p = do
  demand (bytes_eq r.query e.host && bytes_eq r.by_resolver resolver) resolution_mismatch
  demand (leb (length r.names) p.max_aliases) dns_alias_budget
  check_aliases g.aliases (e.host ∷ []) r.names
  demand (leb (length r.addresses) p.max_addresses) address_budget
  demand (leb 1 (length r.addresses)) no_addresses
  done r.addresses

unfoldable pub answer_of : Endpoint → RouteGrant → Option Resolution → Policy → Outcome (List Str)
answer_of e g r p = elim e.literal [
  | some l ↦ elim r [ none ↦ done (l ∷ []) | some a ↦ failed resolution_mismatch ]
  | none ↦ elim g.resolver_id [
    | none ↦ failed dns_not_granted
    | some resolver ↦ elim r [
      | none ↦ failed resolution_required
      | some a ↦ resolved e resolver g a p
    ]
  ]
]

-- `tuple(dict.fromkeys(texts))`.
unfoldable pub unique : List Str → List Str → List Str
unique seen [] = []
unique seen (s ∷ ss) =
    let skip = unique seen ss in
    let keep = unique (s ∷ seen) ss in if contains s seen then skip else s ∷ keep

abbrev pub name_of : Endpoint → Option Str
name_of e = elim e.literal [ none ↦ some e.host | some l ↦ none ]

abbrev pub target_of : Endpoint → RouteGrant → ℕ → Str → DialTarget
target_of e g generation ip = record {
  dial_scheme = e.scheme;
  ip = ip;
  dial_port = e.port;
  server_name = name_of e;
  dial_peer = g.route.peer_id;
  dial_source = g.route.source;
  for_generation = generation;
}

unfoldable pub authorize_addresses :
    RouteGrant → Option Resolution → Policy → ℕ → Outcome (List DialTarget)
authorize_addresses g r p generation = do
  e ← parse_endpoint g.route.endpoint
  addresses ← answer_of e g r p
  ips ← collect (λ a. address_allowed a g) addresses
  done (map (target_of e g generation) (unique [] ips))
