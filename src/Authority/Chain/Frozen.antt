-- ===== src/Authority/Chain/Frozen.antt =====
-- A fork, or a membership that is refused for what it says, freezes the history.
use peer_application_runtime.Base.{List, [], ◌∷◌, true, not, ◌||◌, ◌≡◌, refl, ap, ◌∙◌, arith}
use peer_application_runtime.Base.Bytes.{has_entry}
use peer_application_runtime.Base.Fallible.{done, demand, demanded, after, after_demand, ◌>>◌}
use peer_application_runtime.Base.Outcomes.{on_if, on_outcome}
use peer_application_runtime.Authority.Control.{Services, Outcome, Code}
use peer_application_runtime.Authority.State.{Authority, has_raw, has_nodes, check_blocked}
use peer_application_runtime.Authority.Chain.{
  Call, observing, providing, inspect, observe, provide_membership, call, calls,
}

not_blocked :
    (s : Authority) {A P : Type 0} (next : Outcome A) {a : A}
    → (has_entry s.fork || s.invalid) ≡ true
    → (check_blocked s >> next) ≡ done a
    → P
unfolding check_blocked
not_blocked s next frozen e0 = after (check_blocked s) e0 (λ u free _.
    after_demand (not (has_entry s.fork)) _ free (λ no_fork e.
      let valid = demanded (not s.invalid) _ e in absurd (ground (arith, frozen, no_fork, valid))))

call_frozen :
    (v : Services) (c : Call) (s : Authority)
    → (has_entry s.fork || s.invalid) ≡ true
    → (call v c s).0 ≡ s
unfolding call observe provide_membership
call_frozen v (observing raw) s frozen =
    on_if (λ t. t ≡ s) (has_raw raw s.nodes) _ _ (λ _. refl)
      (λ _.
        on_outcome (λ t. t ≡ s) (check_blocked s >> inspect v raw s) _ _ (λ e. refl)
          (λ c e. not_blocked s (inspect v raw s) frozen e))
call_frozen v (providing pages) s frozen =
    on_outcome (λ t. t ≡ s) (check_blocked s >> demand (has_nodes s) Code.control_required) _ _
      (λ e. refl) (λ u e. not_blocked s (demand (has_nodes s) Code.control_required) frozen e)

-- Once two controls compete for one sequence number, or a membership has been refused as one that its control
-- does not allow, no call of `observe` or `provide_membership` changes the state any more.
pub calls_frozen :
    (v : Services) (cs : List Call) (s : Authority)
    → (has_entry s.fork || s.invalid) ≡ true
    → calls v cs s ≡ s
unfolding calls
calls_frozen v [] s frozen = refl
calls_frozen v (c ∷ cs) s frozen =
    ap (calls v cs) (call_frozen v c s frozen) ∙ calls_frozen v cs s frozen
