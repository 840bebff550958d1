-- ===== src/Connectivity/Model.antt =====
-- The values of model.py. A time is a natural number of milliseconds; a value of another type than the one
-- declared, which the source refuses first, does not arise.
use peer_application_runtime.Base.{ℕ, ◌&&◌, List, [], ◌∷◌, ◌++◌, Bool, Option, if◌then◌else◌}
use peer_application_runtime.Base.Text.{Str, codes, decimal}
use peer_application_runtime.Base.Bytes.{bytes_eq}
use peer_application_runtime.Base.Fallible.{Fallible}
use peer_application_runtime.Connectivity.Ip.Text.{has_char}

-- The codes of `ConnectivityError`.
pub data Code : Type 0 where
  invalid_id invalid_source invalid_policy invalid_resolver invalid_network invalid_alias : Code
  duplicate_grant invalid_budget invalid_address invalid_endpoint metadata_denied : Code
  local_address_denied special_address_denied address_not_granted egress_denied : Code
  candidate_budget candidate_bytes route_not_granted resolution_mismatch dns_not_granted : Code
  resolution_required dns_alias_budget dns_alias_cycle dns_alias_denied address_budget : Code
  no_addresses closed connection_not_current stale_generation cancelled deadline : Code
  resolve_failed dial_failed auth_failed peer_address_mismatch invalid_purpose : Code
  cleanup_failed cleanup_pending inflight_budget connection_budget metered_denied : Code
  no_candidates no_route relay_unavailable adapter_unavailable : Code
  authenticator_unavailable resolver_unavailable total_address_budget attempt_budget : Code
  auth_mismatch path_unverified : Code

abbrev pub Outcome : Type 0 → Type 0
Outcome A = Fallible Code A

pub record Endpoint : Type 0 where
  pub scheme : Str
  pub host : Str
  pub port : ℕ
  pub literal : Option Str

-- `Endpoint.key`.
unfoldable pub endpoint_key : Endpoint → Str
endpoint_key e =
    let host = if has_char 58 e.host then 91 ∷ e.host ++ 93 ∷ [] else e.host in
    e.scheme ++ codes "://" ++ host ++ 58 ∷ decimal e.port

pub record Candidate : Type 0 where
  pub endpoint : Str
  pub peer_id : Str
  pub source : Str

pub record RouteGrant : Type 0 where
  pub route : Candidate
  pub networks : List Str
  pub allow_local : Bool
  pub resolver_id : Option Str
  pub aliases : List Str

pub record Policy : Type 0 where
  pub grants : List RouteGrant
  pub allow_egress : Bool
  pub allow_metered_user : Bool
  pub allow_metered_background : Bool
  pub max_candidates : ℕ
  pub max_candidate_bytes : ℕ
  pub max_addresses : ℕ
  pub max_total_addresses : ℕ
  pub max_aliases : ℕ
  pub max_attempts : ℕ
  pub max_inflight : ℕ
  pub max_connections : ℕ
  pub timeout : ℕ
  pub cleanup_timeout : ℕ

pub record Resolution : Type 0 where
  pub query : Str
  pub by_resolver : Str
  pub addresses : List Str
  pub names : List Str

pub record DialTarget : Type 0 where
  pub dial_scheme : Str
  pub ip : Str
  pub dial_port : ℕ
  pub server_name : Option Str
  pub dial_peer : Str
  pub dial_source : Str
  pub for_generation : ℕ

pub record PeerProof : Type 0 where
  pub proved_peer : Str
  pub proved_scope : Str

pub data Stage : Type 0 where
  at_policy at_dial at_auth : Stage

pub record Attempt : Type 0 where
  pub candidate_index : ℕ
  pub stage : Stage
  pub reason : Option Code

-- A result that is `CONNECTED` has an identity and a path; a `LOCAL_ONLY` one has a code.
pub data State : Type 0 where
  connected : (connection_id : ℕ) (observed_path : Str) → State
  local_only : Code → State

pub record ConnectResult : Type 0 where
  pub state : State
  pub in_generation : ℕ
  pub attempts : List Attempt

-- `(source, peer_id, endpoint)` of two routes.
abbrev pub same_route : Candidate → Candidate → Bool
same_route c d =
    bytes_eq c.source d.source && (bytes_eq c.peer_id d.peer_id && bytes_eq c.endpoint d.endpoint)
