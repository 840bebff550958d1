-- ===== src/Connectivity/Connector/Invariant/Passed.antt =====
-- What an operation has passed at the fence, and a connection before it becomes active.
use peer_application_runtime.Connectivity.State.{
  Connection, Operation, Connector, find_op, is_set, check_fence, fence,
}
use peer_application_runtime.Base.{
  List, [], ◌∷◌, sym, ◌∙◌, ==_iff, refl, ℕ, ◌<◌, ◌≡◌, refl, Bool, true, false, not, Option, none,
  some, ◌==◌, ltb, arith, ltb→lt,
}
use peer_application_runtime.Base.Text.{Str}
use peer_application_runtime.Base.Fallible.{done, after, after_demand}
use peer_application_runtime.Connectivity.Model.{
  closed, stale_generation, cancelled, deadline, auth_mismatch, DialTarget, PeerProof,
}
use peer_application_runtime.Connectivity.Connector.{
  check_peer, is_proof, path_of, check_authenticated,
}

-- What the fence has shown when it lets an operation pass.
pub record Passed (op : Operation) (now : ℕ) (s : Connector) : Type 0 where
  pub here : Operation
  pub found : find_op op s.operations ≡ some here
  pub not_closed : s.is_closed ≡ false
  pub current : (here.op_generation == s.generation) ≡ true
  pub of_generation : op.op_generation ≡ s.generation
  pub not_cancelled : is_set here.caller ≡ false
  pub in_time : now < here.op_deadline

negated : (b : Bool) → not b ≡ true → b ≡ false
negated b h = ground arith

find_op-same :
    (op : Operation) (os : List Operation) {o : Operation}
    → find_op op os ≡ some o
    → o.op_generation ≡ op.op_generation
unfolding find_op
find_op-same op [] e = cc
find_op-same op (p ∷ os) {o = o} e = ground (arith, find_op-same op os {o = o})

check_fence-Passed :
    (op : Operation) (o : Option Operation) (now : ℕ) (s : Connector) {u : Unit {0}}
    → find_op op s.operations ≡ o
    → check_fence o now s ≡ done u
    → Passed op now s
unfolding check_fence
check_fence-Passed op none now s found e = cc
check_fence-Passed op (some o) now s found e =
    after_demand (not s.is_closed) closed e λ open_here rest.
      after_demand (o.op_generation == s.generation) stale_generation rest λ current rest.
        after_demand (not (is_set o.caller)) cancelled rest λ wanted rest.
          after_demand (ltb now o.op_deadline) deadline rest λ early end. record {
            here = o;
            found = found;
            not_closed = negated _ open_here;
            current = current;
            of_generation = sym (find_op-same op s.operations found) ∙ (==_iff _ _).0 current;
            not_cancelled = negated _ wanted;
            in_time = ltb→lt _ _ early;
          }

pub fence-Passed :
    (op : Operation) (now : ℕ) (s : Connector) {u : Unit {0}}
    → fence op now s ≡ done u
    → Passed op now s
unfolding fence
fence-Passed op now s = check_fence-Passed op (find_op op s.operations) now s refl

-- What a connection has passed when it may become active.
pub record Authenticated (op : Operation) (now : ℕ) (peer : Option (Str × ℕ))
    (proof : Option PeerProof) (c : Connection) (t : DialTarget) (path : Str) (s : Connector)
    : Type 0 where
  pub passed : Passed op now s
  pub same_peer : check_peer peer t ≡ done tt
  pub proved : is_proof proof t s.scope ≡ true
  pub with_path : path_of c.observed_path ≡ done path

pub check_authenticated_lem :
    (op : Operation) (now : ℕ) (peer : Option (Str × ℕ)) (proof : Option PeerProof) (c : Connection)
    (t : DialTarget) (s : Connector) {path : Str}
    → check_authenticated op now peer proof c t s ≡ done path
    → Authenticated op now peer proof c t path s
unfolding check_authenticated
check_authenticated_lem op now peer proof c t s e = after (fence op now s) e λ u passed rest.
    after (check_peer peer t) rest λ w same rest.
      after_demand (is_proof proof t s.scope) auth_mismatch rest λ proved end. record {
        passed = fence-Passed op now s passed;
        same_peer = same;
        proved = proved;
        with_path = end;
      }
