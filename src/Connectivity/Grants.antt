-- ===== src/Connectivity/Grants.antt =====
-- The checks a `Candidate`, a `RouteGrant` and a `Policy` of model.py make of themselves.
use peer_application_runtime.Base.{
  ℕ, List, [], ◌∷◌, Bool, true, false, not, map, ◌&&◌, ◌||◌, Option, none, some, leb, length,
}
use peer_application_runtime.Base.Text.{Str, codes}
use peer_application_runtime.Base.Bytes.{contains}
use peer_application_runtime.Base.Fallible.{done, demand, collect, ◌>>=◌, ◌>>◌}
use peer_application_runtime.Connectivity.Ip.{write_network}
use peer_application_runtime.Connectivity.Model.{
  Outcome, Candidate, RouteGrant, Policy, endpoint_key, same_route, invalid_id, invalid_source,
  invalid_policy, invalid_resolver, invalid_network, invalid_alias, duplicate_grant, invalid_budget,
}
use peer_application_runtime.Connectivity.Endpoint.{
  identifier, parse_endpoint, parse_network, dns_name,
}

abbrev pub sources : List Str
sources = codes "peer-cache" ∷ codes "manual" ∷ codes "lan" ∷ codes "helper" ∷ codes "relay" ∷ []

-- `Candidate.__post_init__`.
unfoldable pub new_candidate : Candidate → Outcome Candidate
new_candidate c = do
  e ← parse_endpoint c.endpoint
  demand (identifier c.peer_id) invalid_id
  demand (contains c.source sources) invalid_source
  done (record c { endpoint = endpoint_key e })

abbrev is_resolver : Option Str → Bool
is_resolver none = true
is_resolver (some r) = identifier r

-- `RouteGrant.__post_init__`.
unfoldable pub new_grant : RouteGrant → Outcome RouteGrant
new_grant g = do
  c ← new_candidate g.route
  demand (is_resolver g.resolver_id) invalid_resolver
  demand (leb (length g.networks) 32) invalid_network
  networks ← collect parse_network g.networks
  demand (leb (length g.aliases) 16) invalid_alias
  aliases ← collect dns_name g.aliases
  done (record g { route = c; networks = map write_network networks; aliases = aliases })

abbrev pub has_route : Candidate → List RouteGrant → Bool
has_route c [] = false
has_route c (g ∷ gs) = same_route g.route c || has_route c gs

-- No two grants are of one source, peer and endpoint.
unfoldable pub distinct_routes : List RouteGrant → Bool
distinct_routes [] = true
distinct_routes (g ∷ gs) = not (has_route g.route gs) && distinct_routes gs

abbrev in_budget : ℕ → ℕ → Bool
in_budget maximum v = leb 1 v && leb v maximum

abbrev budgets : Policy → Bool
budgets p =
    in_budget 128 p.max_candidates
    && in_budget 65536 p.max_candidate_bytes
    && in_budget 64 p.max_addresses
    && in_budget 256 p.max_total_addresses
    && in_budget 16 p.max_aliases
    && in_budget 64 p.max_attempts
    && in_budget 16 p.max_inflight
    && in_budget 64 p.max_connections

-- `Policy.__post_init__`.
unfoldable pub new_policy : Policy → Outcome Policy
new_policy p = do
  demand (leb (length p.grants) 128) invalid_policy
  demand (distinct_routes p.grants) duplicate_grant
  demand (budgets p) invalid_budget
  demand (in_budget 60000 p.timeout && in_budget 60000 p.cleanup_timeout) invalid_budget
  done p
