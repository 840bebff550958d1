-- ===== src/Lifecycle/Inventory/Tests.antt =====
-- Walks over the references of small inventories.
use peer_application_runtime.Base.{List, [], ◌∷◌, none, ◌≡◌, refl}
use peer_application_runtime.Base.Bytes.{bytes_eq, contains}
use peer_application_runtime.Base.Text.{Str, codes}
use peer_application_runtime.Base.Fallible.{done, failed}
use peer_application_runtime.Lifecycle.Json.{reference_cycle, dangling_reference}
use peer_application_runtime.Lifecycle.Record.{Record, job, queued, find}
use peer_application_runtime.Lifecycle.Inventory.{visit_all, visit, check_graph}
use peer_application_runtime.Lifecycle.Inventory.Fuel.{IsAnswer, check_graph-IsFuelled}

-- A record of which only the key and the references matter.
abbrev referring : Str → List Str → Record
referring key refs = record {
  key = key;
  kind = job;
  local_id = [];
  state = queued;
  intent_digest = [];
  input_digest = [];
  proof_digest = [];
  refs = refs;
  evidence_digest = none;
  storage_bytes = 0;
  reserved_bytes = 0;
}

abbrev chain : List Record
chain = referring (codes "a") (codes "b" ∷ codes "p" ∷ []) ∷ referring (codes "b") [] ∷ []

abbrev cycle : List Record
cycle = referring (codes "a") (codes "b" ∷ []) ∷ referring (codes "b") (codes "a" ∷ []) ∷ []

ends : check_graph (codes "p" ∷ []) chain ≡ done (codes "a" ∷ codes "b" ∷ [])
unfolding check_graph visit_all visit find contains bytes_eq
ends = refl

dangles : check_graph [] chain ≡ failed dangling_reference
unfolding check_graph visit_all visit find contains bytes_eq
dangles = refl

cycles : check_graph [] cycle ≡ failed reference_cycle
unfolding check_graph visit_all visit find contains bytes_eq
cycles = refl

check_graph-IsFuelled_example : IsAnswer (codes "p" ∷ []) chain (check_graph (codes "p" ∷ []) chain)
check_graph-IsFuelled_example = check_graph-IsFuelled (codes "p" ∷ []) chain
