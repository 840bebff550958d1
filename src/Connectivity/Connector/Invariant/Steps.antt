-- ===== src/Connectivity/Connector/Invariant/Steps.antt =====
-- Every event keeps the connector's invariant, so it holds after any history.
use peer_application_runtime.Connectivity.State.{Connection, Operation, Connector, create, set_stop}
use peer_application_runtime.Connectivity.Connector.Invariant.Passed.{check_authenticated_lem}
use peer_application_runtime.Connectivity.Connector.Invariant.Kept.{
  register-Inv, end_operation-Inv, admitted-Inv, close_ended-Inv, abandon-Inv, task_ended-Inv,
  change_network-Inv, close-Inv, disconnect-Inv,
}
use peer_application_runtime.Base.{
  ℕ, ◌≡◌, refl, List, [], ◌∷◌, Bool, true, false, Option, some, arith,
}
use peer_application_runtime.Base.Text.{Str}
use peer_application_runtime.Base.Fallible.{done, failed}
use peer_application_runtime.Connectivity.Model.{Outcome, RouteGrant, Policy, DialTarget, PeerProof}
use peer_application_runtime.Connectivity.Connector.{
  check_authenticated, register, Call, check_call, operation_of, add_operation, set_caller, Event,
  admitted, registered, ended, stopped, restarted, abandoned_task, retired, close_finished,
  task_finished, caller_cancels, network_changed, connector_closed, disconnected, step, run,
}
use peer_application_runtime.Connectivity.Connector.Invariant.{Inv, update-Inv, schedule_close-Inv}

step-admitted-Inv : (call : Call) (s : Connector) → Inv s → Inv (step (admitted call) s)
unfolding step
step-admitted-Inv call s v = cases (check_call call s) refl
  where
    cases :
        (o : Outcome (List RouteGrant))
        → check_call call s ≡ o
        → Inv (elim o as (λ x. Connector) [
          | failed e ↦ s
          | done grants ↦ add_operation (operation_of call s) s
        ])
    cases (failed e) eq = v
    cases (done grants) eq = admitted-Inv call s eq v

step-registered-Inv :
    (op : Operation) (now : ℕ) (peer : Option (Str × ℕ)) (proof : Option PeerProof) (c : Connection)
    (t : DialTarget) (s : Connector)
    → Inv s
    → Inv (step (registered op now peer proof c t) s)
unfolding step
step-registered-Inv op now peer proof c t s v =
    cases (check_authenticated op now peer proof c t s) refl
  where
    cases :
        (o : Outcome Str)
        → check_authenticated op now peer proof c t s ≡ o
        → Inv (elim o as (λ x. Connector) [ failed e ↦ s | done path ↦ register op c s ])
    cases (failed e) eq = v
    cases (done path) eq =
        register-Inv op now c s (check_authenticated_lem op now peer proof c t s eq).passed v

pub step-Inv : (e : Event) (s : Connector) → Inv s → Inv (step e s)
unfolding step set_stop set_caller
step-Inv (admitted call) s v = step-admitted-Inv call s v
step-Inv (registered op now peer proof c t) s v = step-registered-Inv op now peer proof c t s v
step-Inv (ended op) s v = end_operation-Inv op s v
step-Inv (stopped op) s v = update-Inv s op.number (λ o. record o { stop = true }) (λ o. refl) v
step-Inv (restarted op) s v = update-Inv s op.number (λ o. record o { stop = false }) (λ o. refl) v
step-Inv (abandoned_task dispose op) s v = abandon-Inv dispose op s v
step-Inv (retired c) s v = schedule_close-Inv c s v
step-Inv (close_finished c ok) s v = close_ended-Inv c ok s v
step-Inv (task_finished n value) s v = task_ended-Inv n value s v
step-Inv (caller_cancels n) s v =
    update-Inv s n (λ o. record o { caller = some true }) (λ o. refl) v
step-Inv (network_changed metered p) s v = change_network-Inv metered p s v
step-Inv connector_closed s v = close-Inv s v
step-Inv (disconnected i) s v = disconnect-Inv i s v

pub run-Inv : (es : List Event) (s : Connector) → Inv s → Inv (run es s)
unfolding run
run-Inv [] s v = v
run-Inv (e ∷ es) s v = run-Inv es (step e s) (step-Inv e s v)

create-Inv : (p : Policy) (scope : Str) (metered : Bool) → Inv (create p scope metered)
unfolding create
create-Inv p scope metered = record {
  fresh = tt;
  none_after_close = λ e. refl;
  past = tt;
  bounded = omega arith;
}

-- After any history of a new connector the identities of the active connections are distinct and below the next
-- one; a closed connector has none; and the active connections, with the operations of the current generation, are
-- at most the policy's `max_connections`.
pub run-create-Inv :
    (p : Policy) (scope : Str) (metered : Bool) (es : List Event)
    → Inv (run es (create p scope metered))
run-create-Inv p scope metered es = run-Inv es _ (create-Inv p scope metered)
