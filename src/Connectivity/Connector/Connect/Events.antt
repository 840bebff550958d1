-- ===== src/Connectivity/Connector/Connect/Events.antt =====
-- A call of `connect` keeps the connector's invariant: it takes the connector through events of the connector.
use peer_application_runtime.Connectivity.State.{Connection, Operation, Connector, fence, abandon}
use peer_application_runtime.Connectivity.Connector.Awaits.{
  Ended, pending, raised, returned, Wait, World, Ports, stage_ended, stage_of, is_terminal,
}
use peer_application_runtime.Base.{
  ℕ, suc, ◌≡◌, refl, ap, subst, ◌∙◌, List, [], ◌∷◌, ◌++◌, Bool, true, false, not, Option, none,
  some, ltb, ◌==◌,
}
use peer_application_runtime.Base.Text.{Str}
use peer_application_runtime.Base.Outcomes.{on_if, on_outcome}
use peer_application_runtime.Base.Fallible.{done, failed}
use peer_application_runtime.Connectivity.Model.{
  Code, deadline, resolve_failed, dial_failed, auth_failed, Outcome, Endpoint, RouteGrant, Policy,
  Resolution, DialTarget, PeerProof, Stage, at_dial, at_auth,
}
use peer_application_runtime.Connectivity.Connector.{
  run-append, check_peer, check_authenticated, register, Call, check_call, operation_of,
  add_operation, Event, admitted, registered, ended, restarted, abandoned_task, retired, step, run,
}
use peer_application_runtime.Connectivity.Connector.Invariant.{Inv}
use peer_application_runtime.Connectivity.Connector.Invariant.Steps.{run-Inv}
use peer_application_runtime.Connectivity.Connector.Connect.{
  check_route, resolve_route, Progress, Verdict, joined, raises, goes_on, targets_of, at_state,
  note, has_any, retire, after_failure, finish_dial, authenticate_dial, dial_once, dial_target,
  dial_targets, route_refused, resolved_route, try_route, try_routes, conclude, connect,
}

-- Some events lead from the first state to the second.
record Reaches (s t : Connector) : Type 0 where
  path : List Event
  leads : run path s ≡ t

stay : (s : Connector) → Reaches s s
unfolding run
stay s = record { path = []; leads = refl }

by_events : (es : List Event) {s t : Connector} → Reaches s t → Reaches s (run es t)
by_events es {s = s} h = record {
  path = h.path ++ es;
  leads = run-append h.path es s ∙ ap (run es) h.leads;
}

by_event : (e : Event) {s t : Connector} → Reaches s t → Reaches s (step e t)
unfolding run
by_event e h = by_events (e ∷ []) h

module _ {A : Type 0} (origin : Connector) where
  stage_ended-Reaches :
      (code : Code) (dispose : Bool) (op : Operation) (w : Wait A) (s : Connector)
      → Reaches origin s
      → Reaches origin (stage_ended code dispose op w s).0
  unfolding stage_ended step
  stage_ended-Reaches code dispose op w s h =
      on_outcome (Reaches origin) (fence op w.now s) _ _ (λ e. gives_up) λ u passed. ends w.outcome
    where
      gives_up : Reaches origin (abandon dispose op (run w.settling s))
      gives_up = by_event (abandoned_task dispose op) (by_events w.settling h)

      ends :
          (o : Ended A)
          → Reaches origin
              (elim o as (λ x. Connector × Outcome A) [
                | pending ↦ (abandon dispose op (run w.settling s), failed deadline)
                | raised ↦ (abandon dispose op (run w.settling s), failed code)
                | returned a ↦ (run w.settling s, done a)
              ]).0
      ends pending = gives_up
      ends raised = gives_up
      ends (returned a) = by_events w.settling h

  stage_of-Reaches :
      (code : Code) (dispose : Bool) (op : Operation) (w : Wait A) (s : Connector)
      → Reaches origin s
      → Reaches origin (stage_of code dispose op w s).0
  unfolding stage_of
  stage_of-Reaches code dispose op w s h =
      on_outcome (Reaches origin) (fence op w.before s) _ _ (λ e. h)
        λ u passed. stage_ended-Reaches code dispose op w _ (by_events w.events h)

module _ (origin : Connector) where
  abbrev Led : Progress → Type 0
  Led pr = Reaches origin pr.here

  retire-Reaches :
      (c : Option Connection) (es : List Event) (s : Connector)
      → Reaches origin s
      → Reaches origin (retire c es s)
  unfolding step
  retire-Reaches none es s h = h
  retire-Reaches (some c) es s h = by_events es (by_event (retired c) h)

  note-Led : (i : ℕ) (at : Stage) (why : Code) (pr : Progress) → Led pr → Led (note i at why pr)
  unfolding note
  note-Led i at why pr h = h

  after_failure-Led :
      (i j : ℕ) (at : Stage) (why : Code) (op : Operation) (c : Option Connection) (w : World)
      (pr : Progress)
      → Led pr
      → Led (after_failure i j at why op c w pr).0
  unfolding after_failure step
  after_failure-Led i j at why op c w pr h =
      let r = retire-Reaches c (w.retiring i j) pr.here h in
      on_if Led (is_terminal why) _ _ (λ e. r)
        λ e.
          on_if Led (not ((retire c (w.retiring i j) pr.here).cleanup_failures == 0)) _ _ (λ e. r)
            λ e.
              on_if Led (has_any (retire c (w.retiring i j) pr.here).closing) _ _ (λ e. r)
                λ e. by_event (restarted op) r

  finish_dial-Led :
      (i j : ℕ) (t : DialTarget) (op : Operation) (w : World) (c : Connection)
      (proof : Option PeerProof) (pr : Progress)
      → Led pr
      → Led (finish_dial i j t op w c proof pr).0
  unfolding finish_dial step
  finish_dial-Led i j t op w c proof pr h =
      on_outcome Led
        (check_authenticated op (w.authenticate i j).later (w.authenticate i j).peer proof c t
          pr.here)
        _ _ (λ e. after_failure-Led i j at_auth e op (some c) w pr h)
        λ path ok.
          subst (Reaches origin)
            (ap
              (λ o. elim o as (λ x. Connector) [
                | failed e ↦ pr.here
                | done p ↦ register op c pr.here
              ])
              ok)
            (by_event (registered op (w.authenticate i j).later (w.authenticate i j).peer proof c t)
              h)

  authenticate_dial-Led :
      (i j : ℕ) (t : DialTarget) (op : Operation) (w : World) (c : Connection) (pr : Progress)
      → Led pr
      → Led (authenticate_dial i j t op w c pr).0
  unfolding authenticate_dial
  authenticate_dial-Led i j t op w c pr h =
      let r = stage_of auth_failed false op (w.authenticate i j) pr.here in
      let reached = stage_of-Reaches origin auth_failed false op (w.authenticate i j) pr.here h in
      on_outcome Led r.1 _ _
        (λ e. after_failure-Led i j at_auth e op (some c) w (at_state pr r.0) reached)
        λ proof ok. finish_dial-Led i j t op w c proof (at_state pr r.0) reached

  dial_once-Led :
      (i j : ℕ) (t : DialTarget) (op : Operation) (w : World) (pr : Progress)
      → Led pr
      → Led (dial_once i j t op w pr).0
  unfolding dial_once
  dial_once-Led i j t op w pr h =
      let r = stage_of dial_failed true op (w.dial i j) pr.here in
      let reached = stage_of-Reaches origin dial_failed true op (w.dial i j) pr.here h in
      on_outcome Led r.1 _ _
        (λ e. after_failure-Led i j at_dial e op none w (at_state pr r.0) reached)
        λ c ok.
          on_outcome Led (check_peer (w.dial i j).peer t) _ _
            (λ e. after_failure-Led i j at_dial e op (some c) w (at_state pr r.0) reached)
            λ u same. authenticate_dial-Led i j t op w c (at_state pr r.0) reached

  dial_target-Led :
      (p : Policy) (i j : ℕ) (t : DialTarget) (op : Operation) (w : World) (pr : Progress)
      → Led pr
      → Led (dial_target p i j t op w pr).0
  unfolding dial_target
  dial_target-Led p i j t op w pr h =
      on_outcome Led (fence op (w.dial i j).before pr.here) _ _ (λ e. h)
        λ u passed.
          on_if Led (ltb pr.dials p.max_attempts) _ _
            (λ e. dial_once-Led i j t op w (record pr { dials = suc pr.dials }) h) λ e. h

  on_verdict :
      (P : Progress → Type 0) (r : Progress × Verdict) (next : Progress × Verdict)
      → P r.0
      → (r.1 ≡ goes_on → P next.0)
      → P
          (elim r.1 as (λ x. Progress × Verdict) [
            | goes_on ↦ next
            | joined n path ↦ r
            | raises e ↦ r
          ]).0
  on_verdict P (pr, goes_on) next h k = k refl
  on_verdict P (pr, joined n path) next h k = h
  on_verdict P (pr, raises e) next h k = h

  dial_targets-Led :
      (p : Policy) (i j : ℕ) (ts : List DialTarget) (op : Operation) (w : World) (pr : Progress)
      → Led pr
      → Led (dial_targets p i j ts op w pr).0
  unfolding dial_targets
  dial_targets-Led p i j [] op w pr h = h
  dial_targets-Led p i j (t ∷ ts) op w pr h =
      let r = dial_target-Led p i j t op w pr h in
      on_verdict Led (dial_target p i j t op w pr) _ r
        λ e. dial_targets-Led p i (suc j) ts op w (dial_target p i j t op w pr).0 r

  route_refused-Led :
      (i : ℕ) (why : Code) (op : Operation) (pr : Progress)
      → Led pr
      → Led (route_refused i why op pr).0
  unfolding route_refused note step
  route_refused-Led i why op pr h =
      on_if Led (is_terminal why) _ _ (λ e. h) λ e. by_event (restarted op) h

  resolved_route-Led :
      (p : Policy) (i : ℕ) (g : RouteGrant) (r : Option Resolution) (op : Operation) (w : World)
      (pr : Progress)
      → Led pr
      → Led (resolved_route p i g r op w pr).0
  unfolding resolved_route
  resolved_route-Led p i g r op w pr h =
      on_outcome Led (targets_of g p op.op_generation pr.addresses_seen r) _ _
        (λ e. route_refused-Led i e op pr h)
        λ found ok. dial_targets-Led p i 0 found.0 op w (record pr { addresses_seen = found.1 }) h

  resolve_route-Reaches :
      (e : Endpoint) (op : Operation) (w : Wait (Option Resolution)) (s : Connector)
      → Reaches origin s
      → Reaches origin (resolve_route e op w s).0
  unfolding resolve_route
  resolve_route-Reaches e op w s h = cases e.literal
    where
      cases :
          (l : Option Str)
          → Reaches origin
              (elim l as (λ x. Connector × Outcome (Option Resolution)) [
                | some text ↦ (s, done none)
                | none ↦ stage_of resolve_failed false op w s
              ]).0
      cases (some text) = h
      cases none = stage_of-Reaches origin resolve_failed false op w s h

  try_route-Led :
      (p : Policy) (ports : Ports) (i : ℕ) (g : RouteGrant) (op : Operation) (w : World)
      (pr : Progress)
      → Led pr
      → Led (try_route p ports i g op w pr).0
  unfolding try_route
  try_route-Led p ports i g op w pr h =
      on_outcome Led (fence op (w.clock i) pr.here) _ _ (λ e. h)
        λ u passed.
          on_outcome Led (check_route ports g) _ _ (λ e. route_refused-Led i e op pr h)
            λ e ok.
              let r = resolve_route e op (w.resolve i) pr.here in
              let reached = resolve_route-Reaches e op (w.resolve i) pr.here h in
              on_outcome Led r.1 _ _ (λ why. route_refused-Led i why op (at_state pr r.0) reached)
                λ a got. resolved_route-Led p i g a op w (at_state pr r.0) reached

  try_routes-Led :
      (p : Policy) (ports : Ports) (i : ℕ) (gs : List RouteGrant) (op : Operation) (w : World)
      (pr : Progress)
      → Led pr
      → Led (try_routes p ports i gs op w pr).0
  unfolding try_routes
  try_routes-Led p ports i [] op w pr h = h
  try_routes-Led p ports i (g ∷ gs) op w pr h =
      let r = try_route-Led p ports i g op w pr h in
      on_verdict Led (try_route p ports i g op w pr) _ r
        λ e. try_routes-Led p ports (suc i) gs op w (try_route p ports i g op w pr).0 r

conclude-Reaches :
    (origin : Connector) (generation : ℕ) (op : Operation) (r : Progress × Verdict)
    → Reaches origin r.0.here
    → Reaches origin (conclude generation op r).0
unfolding conclude step
conclude-Reaches origin generation op (pr, joined n path) h = h
conclude-Reaches origin generation op (pr, raises e) h = by_event (ended op) h
conclude-Reaches origin generation op (pr, goes_on) h = by_event (ended op) h

-- A call of `connect`, whatever its awaits meet, takes the connector through some sequence of the connector's
-- events and nothing else.
connect-Reaches :
    (ports : Ports) (w : World) (call : Call) (s : Connector) → Reaches s (connect ports w call s).0
unfolding connect step
connect-Reaches ports w call s =
    on_outcome (Reaches s) (check_call call s) _ _ (λ e. stay s)
      λ grants ok. conclude-Reaches s s.generation (operation_of call s) _ (
        try_routes-Led s s.policy ports 0 grants (operation_of call s) w _ (
          subst (Reaches s)
            (ap
              (λ o. elim o as (λ x. Connector) [
                | failed e ↦ s
                | done gs ↦ add_operation (operation_of call s) s
              ])
              ok)
            (by_event (admitted call) (stay s))))

-- A call of `connect`, whatever its awaits meet and whatever else happens to the connector meanwhile, keeps the
-- connector's invariant `Inv`: the active connections have distinct identities, a closed connector has none, no
-- operation is of a later generation than the connector, and the active connections together with the operations
-- of the present generation are within the policy's `max_connections`.
pub connect-Inv :
    (ports : Ports) (w : World) (call : Call) (s : Connector)
    → Inv s
    → Inv (connect ports w call s).0
connect-Inv ports w call s v =
    let r = connect-Reaches ports w call s in subst Inv r.leads (run-Inv r.path s v)
