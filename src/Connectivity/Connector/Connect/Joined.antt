-- ===== src/Connectivity/Connector/Connect/Joined.antt =====
-- What a call that ends in a connection has established.
use peer_application_runtime.Connectivity.State.{
  Connection, Operation, Connector, find_active, is_set, fence, abandon,
}
use peer_application_runtime.Connectivity.Connector.Awaits.{
  Ended, pending, raised, returned, Wait, World, Ports, stage_ended, stage_of, is_terminal,
}
use peer_application_runtime.Connectivity.Connector.Invariant.Passed.{
  Authenticated, check_authenticated_lem,
}
use peer_application_runtime.Base.{
  sym, ap, ◌∙◌, Bool, ℕ, suc, ◌+◌, ◌≡◌, refl, subst, List, [], ◌∷◌, true, false, not, Option, none,
  some, leb, ltb, ◌==◌, length, if-both, All, ==_iff,
}
use peer_application_runtime.Base.Text.{Str}
use peer_application_runtime.Base.Outcomes.{by_outcome}
use peer_application_runtime.Base.Fallible.{done, failed, after, after_demand, done-injective}
use peer_application_runtime.Connectivity.Model.{
  Code, closed, cancelled, dial_failed, auth_failed, invalid_purpose, cleanup_failed,
  inflight_budget, connection_budget, metered_denied, no_candidates, total_address_budget, Outcome,
  deadline, RouteGrant, Policy, Resolution, DialTarget, PeerProof, Stage, at_dial, at_auth, State,
  connected, local_only, ConnectResult,
}
use peer_application_runtime.Connectivity.Policy.{authorize_addresses, select_candidates}
use peer_application_runtime.Connectivity.Policy.Sound.{Target, authorize_addresses-Target}
use peer_application_runtime.Connectivity.Policy.Choice.{IsGrant, select_candidates-Selected}
use peer_application_runtime.Connectivity.Connector.{
  check_peer, is_proof, path_of, check_authenticated, register, Call, is_purpose, has_slot,
  has_room, run, metered_allows, check_call, operation_of,
}
use peer_application_runtime.Connectivity.Connector.Connect.{
  check_route, resolve_route, answers, Progress, Verdict, joined, raises, goes_on, targets_of,
  at_state, has_any, retire, after_failure, finish_dial, authenticate_dial, dial_once, dial_target,
  dial_targets, route_refused, resolved_route, try_route, try_routes, conclude, connect,
}

-- A connection to a target that `T` holds of, and the state it was registered in. It is what the dial of one target
-- of one route gave in the world `w`; the peer name that the connection had after the dial and the one it had after
-- the authentication are the target's, and the proof is what the authenticator gave for that dial.
pub record Connected (T : DialTarget → Type 0) (w : World) (generation n : ℕ) (path : Str)
    (end : Connector) : Type 0 where
  pub of_generation : end.generation ≡ generation
  pub target : DialTarget
  pub is_target : T target
  pub made : Connection
  pub live : find_active n end.active ≡ some made
  pub not_closed : end.is_closed ≡ false
  pub route_index : ℕ
  pub target_index : ℕ
  pub dialled : (w.dial route_index target_index).outcome ≡ returned made
  pub same_peer : check_peer (w.dial route_index target_index).peer target ≡ done tt
  pub proof_seen : Option PeerProof
  pub authenticated : (w.authenticate route_index target_index).outcome ≡ returned proof_seen
  pub same_peer_later : check_peer (w.authenticate route_index target_index).peer target ≡ done tt
  pub proved : is_proof proof_seen target end.scope ≡ true
  pub with_path : path_of made.observed_path ≡ done path

-- A stage that gives a value gives the one that its await returned.
module _ {A : Type 0} where
  stage_ended_lem :
      (code : Code) (dispose : Bool) (op : Operation) (wait : Wait A) (s : Connector) (a : A)
      → (stage_ended code dispose op wait s).1 ≡ done a
      → wait.outcome ≡ returned a
  unfolding stage_ended
  stage_ended_lem code dispose op wait s a =
      by_outcome (λ (r : Connector × Outcome A). r.1 ≡ done a → wait.outcome ≡ returned a)
        (fence op wait.now s) _ _ (λ e bad eq. cc) λ u passed. ends wait.outcome refl
    where
      ends :
          (o : Ended A)
          → wait.outcome ≡ o
          → (elim o as (λ x. Connector × Outcome A) [
            | pending ↦ (abandon dispose op (run wait.settling s), failed deadline)
            | raised ↦ (abandon dispose op (run wait.settling s), failed code)
            | returned b ↦ (run wait.settling s, done b)
          ]).1
            ≡ done a
          → wait.outcome ≡ returned a
      ends pending same eq = cc
      ends raised same eq = cc
      ends (returned b) same eq = same ∙ ap returned (done-injective eq)

  stage_of_lem :
      (code : Code) (dispose : Bool) (op : Operation) (wait : Wait A) (s : Connector) (a : A)
      → (stage_of code dispose op wait s).1 ≡ done a
      → wait.outcome ≡ returned a
  unfolding stage_of
  stage_of_lem code dispose op wait s a =
      by_outcome (λ (r : Connector × Outcome A). r.1 ≡ done a → wait.outcome ≡ returned a)
        (fence op wait.before s) _ _ (λ e bad eq. cc)
        λ u passed. stage_ended_lem code dispose op wait (run wait.events s) a

module _ (T : DialTarget → Type 0) where
  abbrev Sound : World → ℕ → Progress × Verdict → Type 0
  Sound w g (pr, joined n path) = Connected T w g n path pr.here
  Sound w g (pr, raises e) = Unit {0}
  Sound w g (pr, goes_on) = Unit {0}

  -- What the world said of a dial and of the proof of its peer.
  abbrev Seen : World → ℕ → ℕ → DialTarget → Connection → Option PeerProof → Type 0
  Seen w i j t c proof =
      ((w.dial i j).outcome ≡ returned c)
      × (check_peer (w.dial i j).peer t ≡ done tt)
      × ((w.authenticate i j).outcome ≡ returned proof)

  after_failure-Sound :
      (i j : ℕ) (at : Stage) (why : Code) (op : Operation) (c : Option Connection) (w : World)
      (pr : Progress)
      → Sound w op.op_generation (after_failure i j at why op c w pr)
  unfolding after_failure
  after_failure-Sound i j at why op c w pr =
      if-both (Sound w op.op_generation) (is_terminal why) _ _ (λ e. tt)
        λ e.
          if-both (Sound w op.op_generation)
            (not ((retire c (w.retiring i j) pr.here).cleanup_failures == 0)) _ _ (λ e. tt)
            λ e.
              if-both (Sound w op.op_generation)
                (has_any (retire c (w.retiring i j) pr.here).closing) _ _ (λ e. tt) λ e. tt

  register-Connected :
      (i j : ℕ) (op : Operation) (w : World) (proof : Option PeerProof) (c : Connection)
      (t : DialTarget) (path : Str) (s : Connector)
      → T t
      → Seen w i j t c proof
      → Authenticated op (w.authenticate i j).later (w.authenticate i j).peer proof c t path s
      → Connected T w op.op_generation s.next_id path (register op c s)
  unfolding register find_active
  register-Connected i j op w proof c t path s h seen v = record {
    of_generation = sym v.passed.of_generation;
    target = t;
    is_target = h;
    made = c;
    live = rw ((==_iff s.next_id s.next_id).1 refl) refl;
    not_closed = v.passed.not_closed;
    route_index = i;
    target_index = j;
    dialled = seen.0;
    same_peer = seen.1;
    proof_seen = proof;
    authenticated = seen.2;
    same_peer_later = v.same_peer;
    proved = v.proved;
    with_path = v.with_path;
  }

  finish_dial-Sound :
      (i j : ℕ) (t : DialTarget) (op : Operation) (w : World) (c : Connection)
      (proof : Option PeerProof) (pr : Progress)
      → T t
      → Seen w i j t c proof
      → Sound w op.op_generation (finish_dial i j t op w c proof pr)
  unfolding finish_dial
  finish_dial-Sound i j t op w c proof pr h seen =
      let met = w.authenticate i j in
      by_outcome (Sound w op.op_generation)
        (check_authenticated op met.later met.peer proof c t pr.here) _ _
        (λ e failed_so. after_failure-Sound i j at_auth e op (some c) w pr)
        λ path ok.
          register-Connected i j op w proof c t path pr.here h seen
            (check_authenticated_lem op met.later met.peer proof c t pr.here ok)

  authenticate_dial-Sound :
      (i j : ℕ) (t : DialTarget) (op : Operation) (w : World) (c : Connection) (pr : Progress)
      → T t
      → ((w.dial i j).outcome ≡ returned c) × (check_peer (w.dial i j).peer t ≡ done tt)
      → Sound w op.op_generation (authenticate_dial i j t op w c pr)
  unfolding authenticate_dial
  authenticate_dial-Sound i j t op w c pr h made =
      let r = stage_of auth_failed false op (w.authenticate i j) pr.here in
      by_outcome (Sound w op.op_generation) r.1 _ _
        (λ e bad. after_failure-Sound i j at_auth e op (some c) w (at_state pr r.0))
        λ proof ok.
          finish_dial-Sound i j t op w c proof (at_state pr r.0) h (
            made.0,
            made.1,
            stage_of_lem auth_failed false op (w.authenticate i j) pr.here proof ok,
          )

  dial_once-Sound :
      (i j : ℕ) (t : DialTarget) (op : Operation) (w : World) (pr : Progress)
      → T t
      → Sound w op.op_generation (dial_once i j t op w pr)
  unfolding dial_once
  dial_once-Sound i j t op w pr h =
      let r = stage_of dial_failed true op (w.dial i j) pr.here in
      by_outcome (Sound w op.op_generation) r.1 _ _
        (λ e bad. after_failure-Sound i j at_dial e op none w (at_state pr r.0))
        λ c ok.
          by_outcome (Sound w op.op_generation) (check_peer (w.dial i j).peer t) _ _
            (λ e bad. after_failure-Sound i j at_dial e op (some c) w (at_state pr r.0))
            λ u same.
              authenticate_dial-Sound i j t op w c (at_state pr r.0) h
                (stage_of_lem dial_failed true op (w.dial i j) pr.here c ok, same)

  dial_target-Sound :
      (p : Policy) (i j : ℕ) (t : DialTarget) (op : Operation) (w : World) (pr : Progress)
      → T t
      → Sound w op.op_generation (dial_target p i j t op w pr)
  unfolding dial_target
  dial_target-Sound p i j t op w pr h =
      by_outcome (Sound w op.op_generation) (fence op (w.dial i j).before pr.here) _ _ (λ e bad. tt)
        λ u passed.
          if-both (Sound w op.op_generation) (ltb pr.dials p.max_attempts) _ _
            (λ e. dial_once-Sound i j t op w (record pr { dials = suc pr.dials }) h) λ e. tt

  by_verdict :
      (w : World) (g : ℕ) (r next : Progress × Verdict)
      → Sound w g r
      → Sound w g next
      → Sound w g (elim r.1 as (λ x. Progress × Verdict) [
        | goes_on ↦ next
        | joined n path ↦ r
        | raises e ↦ r
      ])
  by_verdict w g (pr, goes_on) next h k = k
  by_verdict w g (pr, joined n path) next h k = h
  by_verdict w g (pr, raises e) next h k = h

  dial_targets-Sound :
      (p : Policy) (i j : ℕ) (ts : List DialTarget) (op : Operation) (w : World) (pr : Progress)
      → All T ts
      → Sound w op.op_generation (dial_targets p i j ts op w pr)
  unfolding dial_targets
  dial_targets-Sound p i j [] op w pr h = tt
  dial_targets-Sound p i j (t ∷ ts) op w pr (h, hs) =
      by_verdict w op.op_generation (dial_target p i j t op w pr) _
        (dial_target-Sound p i j t op w pr h)
        (dial_targets-Sound p i (suc j) ts op w (dial_target p i j t op w pr).0 hs)

  route_refused-Sound :
      (i : ℕ) (why : Code) (op : Operation) (w : World) (pr : Progress)
      → Sound w op.op_generation (route_refused i why op pr)
  unfolding route_refused
  route_refused-Sound i why op w pr =
      if-both (Sound w op.op_generation) (is_terminal why) _ _ (λ e. tt) λ e. tt

-- A target of a grant of the policy, for an operation's generation.
abbrev pub IsAuthorised : Policy → ℕ → DialTarget → Type 0
IsAuthorised p generation t = (g : RouteGrant) × IsGrant p.grants g × Target g generation t

authorised :
    (p : Policy) (generation : ℕ) (g : RouteGrant) (ts : List DialTarget)
    → IsGrant p.grants g
    → All (Target g generation) ts
    → All (IsAuthorised p generation) ts
authorised p generation g [] i h = tt
authorised p generation g (t ∷ ts) i (h, hs) = ((g, i, h), authorised p generation g ts i hs)

targets_of_lem :
    (g : RouteGrant) (p : Policy) (generation seen : ℕ) (r : Option Resolution)
    {found : List DialTarget × ℕ}
    → targets_of g p generation seen r ≡ done found
    → All (Target g generation) found.0
unfolding targets_of
targets_of_lem g p generation seen r e =
    after (authorize_addresses g r p generation) e λ ts ok rest.
      after_demand (leb (seen + answers r) p.max_total_addresses) total_address_budget rest
        λ few end.
          subst (λ f. All (Target g generation) f.0) (done-injective end)
            (authorize_addresses-Target g r p generation ok)

resolved_route-Sound :
    (p : Policy) (i : ℕ) (g : RouteGrant) (r : Option Resolution) (op : Operation) (w : World)
    (pr : Progress)
    → IsGrant p.grants g
    → Sound (IsAuthorised p op.op_generation) w op.op_generation (resolved_route p i g r op w pr)
unfolding resolved_route
resolved_route-Sound p i g r op w pr granted =
    let T = IsAuthorised p op.op_generation in
    by_outcome (Sound T w op.op_generation) (targets_of g p op.op_generation pr.addresses_seen r) _
      _ (λ e bad. route_refused-Sound T i e op w pr)
      λ found ok.
        dial_targets-Sound T p i 0 found.0 op w (record pr { addresses_seen = found.1 })
          (authorised p op.op_generation g found.0 granted
            (targets_of_lem g p op.op_generation pr.addresses_seen r ok))

try_route-Sound :
    (p : Policy) (ports : Ports) (i : ℕ) (g : RouteGrant) (op : Operation) (w : World)
    (pr : Progress)
    → IsGrant p.grants g
    → Sound (IsAuthorised p op.op_generation) w op.op_generation (try_route p ports i g op w pr)
unfolding try_route
try_route-Sound p ports i g op w pr granted =
    let T = IsAuthorised p op.op_generation in
    by_outcome (Sound T w op.op_generation) (fence op (w.clock i) pr.here) _ _ (λ e bad. tt)
      λ u passed.
        by_outcome (Sound T w op.op_generation) (check_route ports g) _ _
          (λ e bad. route_refused-Sound T i e op w pr)
          λ e ok.
            let r = resolve_route e op (w.resolve i) pr.here in
            by_outcome (Sound T w op.op_generation) r.1 _ _
              (λ why bad. route_refused-Sound T i why op w (at_state pr r.0))
              λ a got. resolved_route-Sound p i g a op w (at_state pr r.0) granted

try_routes-Sound :
    (p : Policy) (ports : Ports) (i : ℕ) (gs : List RouteGrant) (op : Operation) (w : World)
    (pr : Progress)
    → All (IsGrant p.grants) gs
    → Sound (IsAuthorised p op.op_generation) w op.op_generation (try_routes p ports i gs op w pr)
unfolding try_routes
try_routes-Sound p ports i [] op w pr h = tt
try_routes-Sound p ports i (g ∷ gs) op w pr (h, hs) =
    by_verdict (IsAuthorised p op.op_generation) w op.op_generation (try_route p ports i g op w pr)
      _ (try_route-Sound p ports i g op w pr h)
      (try_routes-Sound p ports (suc i) gs op w (try_route p ports i g op w pr).0 hs)

check_call-grants :
    (call : Call) (s : Connector) {grants : List RouteGrant}
    → check_call call s ≡ done grants
    → All (IsGrant s.policy.grants) grants
unfolding check_call
check_call-grants call s e = after_demand (not s.is_closed) closed e λ a rest.
    after_demand (is_purpose call.purpose) invalid_purpose rest λ b rest.
      after_demand (not (is_set call.cancel)) cancelled rest λ d rest.
        after_demand (s.cleanup_failures == 0) cleanup_failed rest λ f rest.
          after_demand (has_slot s) inflight_budget rest λ slot rest.
            after_demand (has_room s) connection_budget rest λ room rest.
              after_demand (metered_allows call.purpose s) metered_denied rest λ may rest.
                after (select_candidates call.candidates s.policy) rest λ gs chosen rest.
                  after_demand (leb 1 (length gs)) no_candidates rest λ some_one end.
                    subst (All (IsGrant s.policy.grants)) (done-injective end)
                      (select_candidates-Selected call.candidates s.policy chosen).all_granted

-- What a result promises of the state it comes with.
abbrev Kept : Policy → World → ℕ → Connector × ConnectResult → Type 0
Kept p w generation (end, r) =
    (n : ℕ) (path : Str)
    → r.state ≡ connected n path
    → Connected (IsAuthorised p generation) w generation n path end

connected_same :
    {T : DialTarget → Type 0} {w : World} {g n m : ℕ} {path route : Str} {end : Connector}
    → connected n path ≡ connected m route
    → Connected T w g n path end
    → Connected T w g m route end
connected_same {T = T} {w = w} {g = g} {end = end} e h = subst (holds T w g end) e h
  where
    holds : (DialTarget → Type 0) → World → ℕ → Connector → State → Type 0
    holds T w g end (connected k text) = Connected T w g k text end
    holds T w g end (local_only why) = Unit {0}

conclude-Kept :
    (p : Policy) (w : World) (generation : ℕ) (op : Operation) (r : Progress × Verdict)
    → Sound (IsAuthorised p generation) w generation r
    → Kept p w generation (conclude generation op r)
unfolding conclude
conclude-Kept p w generation op (pr, joined n path) h m route e = connected_same e h
conclude-Kept p w generation op (pr, raises why) h m route e = cc
conclude-Kept p w generation op (pr, goes_on) h m route e = cc

-- When `connect` returns a connection, that connection is active under the identity returned, the
-- connector is not closed and is still in the generation of the call. The connection is what one dial
-- returned, for a target that is an authorised address of a grant of the policy at the call, in that
-- generation. Its peer name was the target's address after that dial and again after its authentication,
-- the proof that the authenticator returned for that dial is of the target's peer in the connector's
-- scope, and the path is `direct` or `local-fixture`.
pub connect-Connected :
    (ports : Ports) (w : World) (call : Call) (s : Connector) (n : ℕ) (path : Str)
    → (connect ports w call s).1.state ≡ connected n path
    → Connected
        (IsAuthorised s.policy s.generation)
        w
        s.generation
        n
        path
        (connect ports w call s).0
unfolding connect operation_of
connect-Connected ports w call s =
    by_outcome (Kept s.policy w s.generation) (check_call call s) _ _ (λ e bad n path eq. cc)
      λ grants ok. conclude-Kept s.policy w s.generation (operation_of call s) _ (
        try_routes-Sound s.policy ports 0 grants (operation_of call s) w _
          (check_call-grants call s ok))
