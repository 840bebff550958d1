-- ===== src/Connectivity/Connector/Awaits.antt =====
-- An await of an operation: what it meets, and `_stage` of controller.py. Cancellation of the calling task itself is
-- left out.
use peer_application_runtime.Connectivity.State.{Connection, Operation, Connector, fence, abandon}
use peer_application_runtime.Base.{ℕ, List, Bool, true, false, Option}
use peer_application_runtime.Base.Text.{Str}
use peer_application_runtime.Base.Fallible.{done, failed}
use peer_application_runtime.Connectivity.Model.{
  Code, closed, stale_generation, cancelled, deadline, cleanup_failed, cleanup_pending,
  total_address_budget, attempt_budget, Outcome, Resolution, PeerProof,
}
use peer_application_runtime.Connectivity.Connector.{Event, run}

pub data Ended {ℓ} (A : Type ℓ) : Type ℓ where
  pending raised : Ended A
  returned : A → Ended A

-- One `_stage`: the clock before, the events until it wakes, the clock then, the events while its watchers end, how
-- the port's task stands, what `peername()` gives then, and the clock at the fence that follows.
pub record Wait {ℓ} (A : Type ℓ) : Type ℓ where
  pub before : ℕ
  pub events : List Event
  pub now : ℕ
  pub settling : List Event
  pub outcome : Ended A
  pub peer : Option (Str × ℕ)
  pub later : ℕ

-- By the index of the grant, and of the target. A port's value of another type than a resolution or a proof is
-- `none`.
pub record World : Type 0 where
  pub clock : ℕ → ℕ
  pub resolve : ℕ → Wait (Option Resolution)
  pub dial : ℕ → ℕ → Wait Connection
  pub authenticate : ℕ → ℕ → Wait (Option PeerProof)
  pub retiring : ℕ → ℕ → List Event

-- The ports a connector was given: the schemes of its dialer, and whether there are the others.
pub record Ports : Type 0 where
  pub schemes : Option (List Str)
  pub has_resolver : Bool
  pub has_authenticator : Bool

module _ {A : Type 0} where
  unfoldable pub stage_ended : Code → Bool → Operation → Wait A → Connector → Connector × Outcome A
  stage_ended code dispose op w s = elim (fence op w.now s) [
    | failed e ↦ (abandon dispose op (run w.settling s), failed e)
    | done u ↦ elim w.outcome [
      | pending ↦ (abandon dispose op (run w.settling s), failed deadline)
      | raised ↦ (abandon dispose op (run w.settling s), failed code)
      | returned a ↦ (run w.settling s, done a)
    ]
  ]

  -- `_stage`.
  unfoldable pub stage_of : Code → Bool → Operation → Wait A → Connector → Connector × Outcome A
  stage_of code dispose op w s = elim (fence op w.before s) [
    | failed e ↦ (s, failed e)
    | done u ↦ stage_ended code dispose op w (run w.events s)
  ]

-- `TERMINAL`.
abbrev pub is_terminal : Code → Bool
is_terminal closed = true
is_terminal stale_generation = true
is_terminal cancelled = true
is_terminal deadline = true
is_terminal attempt_budget = true
is_terminal total_address_budget = true
is_terminal cleanup_pending = true
is_terminal cleanup_failed = true
is_terminal _ = false
