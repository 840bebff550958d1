-- ===== src/Subscriptions/Latest/Ascending.antt =====
-- The callback sees ever higher revisions.
use peer_application_runtime.Base.{
  ℕ, ◌+◌, ◌≤◌, ◌<◌, List, [], ◌∷◌, Bool, true, false, not, ◌&&◌, Option, none, some, ◌≡◌, refl, sym,
  ap, subst, ◌∙◌, arith, Bool-cases, inl, inr, leb, ◌==◌, if◌then◌else◌, length,
}
use peer_application_runtime.Base.Bytes.{Bytes, bytes_eq}
use peer_application_runtime.Base.Fallible.{
  done, failed, demand, done-injective, after_demand, ◌>>◌,
}
use peer_application_runtime.Subscriptions.Latest.{
  Code, follow, take_pending, Outcome, Snapshot, Latest, Dispatch, Step, publishing, beginning,
  ending, closing, is_uint, accept, publish, begin_dispatch, end_dispatch, close, create, kept,
  delivered, step, deliveries, with_first,
}

-- Each revision is at least `low`, and above the one before.
unfoldable pub ascends : ℕ → List Snapshot → Bool
ascends low [] = true
ascends low (i ∷ is) = leb low i.revision && ascends (i.revision + 1) is

-- What is pending is what was published last, and no delivery has reached `low` yet.
unfoldable IsFresh : ℕ → Bool → Option Snapshot → Option Snapshot → Type 0
IsFresh low closed none none = (closed ≡ false) → (low ≡ 0)
IsFresh low closed none (some p) = ⊥
IsFresh low closed (some l) none = low ≤ l.revision + 1
IsFresh low closed (some l) (some p) = (low ≤ p.revision) × (l.revision ≡ p.revision)

abbrev Holds : ℕ → Latest → Type 0
Holds low s = IsFresh low s.closed s.last s.pending

low_first :
    (low : ℕ) (closed : Bool) (p : Option Snapshot)
    → closed ≡ false
    → IsFresh low closed none p
    → low ≡ 0
unfolding IsFresh
low_first low closed none e h = h e
low_first low closed (some p) e h = absurd h

low_next :
    (low : ℕ) (closed : Bool) (l : Snapshot) (p : Option Snapshot)
    → IsFresh low closed (some l) p
    → low ≤ l.revision + 1
unfolding IsFresh
low_next low closed l none h = h
low_next low closed l (some p) h = let a = h.0 in let b = h.1 in omega arith

accept-IsFresh :
    (low : ℕ) (item : Snapshot) (s : Latest) → low ≤ item.revision → Holds low (accept item s)
unfolding IsFresh accept
accept-IsFresh low item s h = (h, refl)

follow-IsFresh :
    (low : ℕ) (o : Option Snapshot) (item : Snapshot) (s t : Latest)
    → s.closed ≡ false
    → IsFresh low s.closed o s.pending
    → Holds low s
    → follow o item s ≡ done t
    → Holds low t
unfolding follow
follow-IsFresh low none item s t live here h e =
    let zero_low = low_first low s.closed s.pending live here in
    subst (Holds low) (done-injective e) (accept-IsFresh low item s (omega arith))
follow-IsFresh low (some l) item s t live here h e0 =
    after_demand (leb l.revision item.revision) _ e0 (λ order e1.
      elim (Bool-cases (item.revision == l.revision)) [
        | inl same ↦
            after_demand (bytes_eq item.value l.value) Code.snapshot_conflict
              (sym (
                  ap
                    (λ b. elim b as (λ x. Outcome Latest) [
                      | true ↦ demand (bytes_eq item.value l.value) Code.snapshot_conflict >> done s
                      | false ↦ done (accept item s)
                    ])
                    same)
                ∙ e1)
              (λ _ e. subst (Holds low) (done-injective e) h)
        | inr more ↦
            let bound = low_next low s.closed l s.pending here in
            let above : l.revision < item.revision = ground arith in
            let e =
              sym (
                ap
                  (λ b. elim b as (λ x. Outcome Latest) [
                    | true ↦ demand (bytes_eq item.value l.value) Code.snapshot_conflict >> done s
                    | false ↦ done (accept item s)
                  ])
                  more)
              ∙ e1 in
            subst (Holds low) (done-injective e) (accept-IsFresh low item s (omega arith))
      ])

publish-IsFresh :
    (low revision : ℕ) (value : Bytes) (s t : Latest)
    → Holds low s
    → publish revision value s ≡ done t
    → Holds low t
unfolding publish
publish-IsFresh low revision value s t h e0 = after_demand (not s.closed) _ e0 (λ live e1.
    after_demand (is_uint revision) _ e1 (λ _ e2.
      after_demand (leb (length value) 65536) _ e2 (λ _ e.
        follow-IsFresh low s.last (record { revision = revision; value = value }) s t
          (ground (arith, live)) h h e)))

kept-IsFresh :
    (low : ℕ) (s : Latest) (o : Outcome Latest)
    → Holds low s
    → ((t : Latest) → o ≡ done t → Holds low t)
    → Holds low (kept s o)
kept-IsFresh low s (done t) h k = k t refl
kept-IsFresh low s (failed e) h k = h

close-IsFresh : (low : ℕ) (s : Latest) → Holds low (close s)
unfolding IsFresh close
close-IsFresh low s = λ e. cc

end-IsFresh : (low : ℕ) (s : Latest) → Holds low s → Holds low (end_dispatch s)
unfolding end_dispatch
end-IsFresh low s h = h

taken :
    (low : ℕ) (closed : Bool) (p : Snapshot) (o : Option Snapshot)
    → IsFresh low closed o (some p)
    → (low ≤ p.revision) × IsFresh (p.revision + 1) closed o none
unfolding IsFresh
taken low closed p none h = absurd h
taken low closed p (some l) h = let a = h.0 in let b = h.1 in (a, omega arith)

module _ (low : ℕ) (s : Latest) (rest : Latest → List Snapshot) where
  -- The deliveries ascend when this one comes first.
  abbrev Ascend : Latest × Option Snapshot → Type 0
  Ascend x = ascends low (with_first x.1 (rest x.0)) ≡ true

  pending_ascends :
      (o : Option Snapshot)
      → s.pending ≡ o
      → Holds low s
      → ((l : ℕ) (t : Latest) → Holds l t → ascends l (rest t) ≡ true)
      → Ascend (delivered s (done (take_pending o s)))
  unfolding ascends
  pending_ascends none e h k = k low s h
  pending_ascends (some p) e h k =
      let (first, later) = taken low s.closed p s.last (subst (IsFresh low s.closed s.last) e h) in
      let more = k (p.revision + 1) (record s { pending = none; dispatching = true }) later in
      ground (arith, more)

  closed_ascends :
      (b : Bool)
      → Holds low s
      → ((l : ℕ) (t : Latest) → Holds l t → ascends l (rest t) ≡ true)
      → Ascend
          (delivered s (done (if b then (s, Dispatch.was_closed) else take_pending s.pending s)))
  closed_ascends true h k = k low s h
  closed_ascends false h k = pending_ascends s.pending refl h k

  begin_ascends :
      (b : Bool)
      → Holds low s
      → ((l : ℕ) (t : Latest) → Holds l t → ascends l (rest t) ≡ true)
      → Ascend (
          delivered s (
            demand (not b) Code.reentrant_dispatch
            >> done (if s.closed then (s, Dispatch.was_closed) else take_pending s.pending s)))
  begin_ascends true h k = k low s h
  begin_ascends false h k = closed_ascends s.closed h k

deliveries-ascends :
    (cs : List Step) (low : ℕ) (s : Latest) → Holds low s → ascends low (deliveries cs s) ≡ true
unfolding deliveries step begin_dispatch
deliveries-ascends [] low s h = unfold ascends in refl
deliveries-ascends (publishing revision value ∷ cs) low s h = deliveries-ascends cs low _ (
    kept-IsFresh low s (publish revision value s) h
      (λ t e. publish-IsFresh low revision value s t h e))
deliveries-ascends (beginning ∷ cs) low s h =
    begin_ascends low s (deliveries cs) s.dispatching h (λ l t held. deliveries-ascends cs l t held)
deliveries-ascends (ending ∷ cs) low s h = deliveries-ascends cs low _ (end-IsFresh low s h)
deliveries-ascends (closing ∷ cs) low s h = deliveries-ascends cs low _ (close-IsFresh low s)

start-IsFresh :
    Holds 0 (record { closed = false; dispatching = false; last = none; pending = none })
unfolding IsFresh
start-IsFresh = λ e. refl

-- Whatever is published, dispatched and closed after a subscriber is created, also while a callback runs, the
-- callback is called with ever higher revisions: no snapshot comes twice, and none after a later one.
pub create-deliveries :
    (revision : ℕ) (value : Bytes) (cs : List Step) (s : Latest)
    → create revision value ≡ done s
    → ascends 0 (deliveries cs s) ≡ true
unfolding create
create-deliveries revision value cs s e =
    deliveries-ascends cs 0 s (publish-IsFresh 0 revision value _ s start-IsFresh e)
