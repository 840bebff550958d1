-- ===== src/Authority/Chain/Reached.antt =====
-- The history of a state that is created and then called is one chain of signed controls.
use peer_application_runtime.Base.{
  ℕ, ◌&&◌, List, [], ◌∷◌, ◌≡◌, refl, subst, arith, inl, inr, ◌⊎◌, leb, ◌==◌, length,
}
use peer_application_runtime.Base.Bytes.{Bytes, bytes_eq}
use peer_application_runtime.Base.Fallible.{done, after, after_demand, done-injective}
use peer_application_runtime.Authority.Control.{parse, Services, Control}
use peer_application_runtime.Authority.State.{Authority}
use peer_application_runtime.Authority.Chain.Signed.{IsSigned, inspect-IsSigned}
use peer_application_runtime.Authority.Chain.Linked.{IsChain, provide_membership-IsChain}
use peer_application_runtime.Authority.Chain.{Call, observing, providing, call, calls, create}
use peer_application_runtime.Authority.Chain.Extended.{observe-IsChain}

create-IsChain :
    (P : Control → Type 0) (v : Services) (app space genesis : Bytes) (most : ℕ) (s : Authority)
    → create v app space genesis most ≡ done s
    → IsChain P v s
unfolding create IsChain
create-IsChain P v app space genesis most s e0 =
    after_demand (v.valid_app app && length space == 32) _ e0 (λ _ e1.
      after_demand (leb 1 most && leb most 1024) _ e1 (λ _ e2.
        after (parse v.read_object 66000 genesis) e2 (λ o _ e3.
          after (parse v.read_genesis 66000 o.body_bytes) e3 (λ b _ e4.
            after_demand
              (bytes_eq b.app app
                && bytes_eq (v.space_id o.body_bytes) space
                && bytes_eq o.signer b.authority)
              _ e4
              (λ _ e5.
                after_demand (v.verify_genesis b.authority o.body_bytes o.signature) _ e5 (λ _ e.
                  subst (IsChain P v) (done-injective e)
                    (λ _. refl, λ n low high. absurd (omega arith))))))))

-- The bytes are a control offered in one of the calls.
abbrev pub Observed : Bytes → List Call → Type 0
Observed raw [] = ⊥
Observed raw (observing other ∷ cs) = (raw ≡ other) ⊎ Observed raw cs
Observed raw (providing pages ∷ cs) = Observed raw cs

-- The control's own bytes carry a valid signature, by the authority that its body names, and were offered in a call.
abbrev pub IsOffered : Services → List Call → Control → Type 0
IsOffered v offered c = IsSigned v c × Observed c.raw offered

calls-IsChain :
    (v : Services) (offered cs : List Call) (s : Authority)
    → ((a b : Control)
        → IsOffered v offered a
        → IsOffered v offered b
        → v.control_id a.raw ≡ v.control_id b.raw
        → a.raw ≡ b.raw)
    → ((raw : Bytes) → Observed raw cs → Observed raw offered)
    → IsChain (IsOffered v offered) v s
    → IsChain (IsOffered v offered) v (calls v cs s)
unfolding calls call
calls-IsChain v offered [] s apart among h = h
calls-IsChain v offered (observing raw ∷ cs) s apart among h =
    calls-IsChain v offered cs _ apart (λ r seen. among r (inr seen))
      (observe-IsChain (IsOffered v offered) v raw s apart
        (λ c e.
          let (bytes, signed) = inspect-IsSigned v raw s c e in (signed, among c.raw (inl bytes)))
        h)
calls-IsChain v offered (providing pages ∷ cs) s apart among h =
    calls-IsChain v offered cs _ apart among
      (provide_membership-IsChain (IsOffered v offered) v pages s h)

-- After a state is created and any calls of `observe` and `provide_membership` are made, whatever they answer, the
-- history is one chain, if no two different controls offered in these calls have one identifier. Every
-- sequence number up to the last has a control with this number, which was offered in the calls; its own bytes
-- decode to it and its signature is verified under the authority that its body names. The first refers to the
-- Space, names the authority of the genesis and has epoch 1, and each later one refers to the one before it,
-- names the authority that the one before it leaves, and has its epoch or the next. A control leaves its own
-- authority, unless it rotates it: then another one, which it names and which has proved its possession.
pub reachable-IsChain :
    (v : Services) (app space genesis : Bytes) (most : ℕ) (cs : List Call) (s : Authority)
    → ((a b : Bytes) → Observed a cs → Observed b cs → v.control_id a ≡ v.control_id b → a ≡ b)
    → create v app space genesis most ≡ done s
    → IsChain (IsOffered v cs) v (calls v cs s)
reachable-IsChain v app space genesis most cs s apart made =
    calls-IsChain v cs cs s (λ a b ma mb e. apart a.raw b.raw ma.1 mb.1 e) (λ raw seen. seen)
      (create-IsChain (IsOffered v cs) v app space genesis most s made)
