-- ===== src/Lifecycle/Model/Restore/Fence.antt =====
-- A restored model has gone through the state that the pin describes, so what the pin says is closed stays
-- closed.
use peer_application_runtime.Base.Bytes.{bytes_eq, bytes_eq_iff}
use peer_application_runtime.Base.{
  both, ==_iff, ◌&&◌, ℕ, ◌+◌, ◌≤◌, ◌<◌, some, List, [], ◌∷◌, ◌++◌, true, ◌&&◌, ◌≡◌, refl, sym, ap,
  ◌∙◌, arith, Bool-cases, inl, inr, ltb, leb, ◌==◌, if◌then◌else◌, length,
}
use peer_application_runtime.Base.Text.{Str}
use peer_application_runtime.Base.Fallible.{
  done, done-injective, demanded, after, after_demand, ◌>>=◌,
}
use peer_application_runtime.Lifecycle.Record.{Record}
use peer_application_runtime.Lifecycle.Events.{
  Model, Event, admit, max_generations, event_json, max_events,
}
use peer_application_runtime.Lifecycle.Model.{
  check_controller, prefix, run, run_all, apply, apply_admit, create,
}
use peer_application_runtime.Lifecycle.Json.{canonical}
use peer_application_runtime.Lifecycle.Model.Stage.{create-IsLifecycle, run_all-Advances}
use peer_application_runtime.Lifecycle.Model.Restore.{
  Pin, Document, pin_eq, check_expected, check_document, pin, check_pin, check_at, replay, restore,
}

-- From `m` with `n` events, the events lead to `m'` by way of a model with this pin.
unfoldable pub PassesPin : (Str → Str) → ℕ → Pin → List Event → Model → Model → Type 0
PassesPin sha n p es m m' =
    (before later : List Event) × (at : Model) × (before ++ later ≡ es)
    × (n + length before ≡ p.sequence)
    × (run_all sha before m ≡ done at)
    × (pin sha at ≡ done p)
    × (run_all sha later at ≡ done m')

replay-run_all :
    (sha : Str → Str) (n : ℕ) (p : Pin) (es : List Event) (m m' : Model)
    → replay sha n p es m ≡ done m'
    → run_all sha es m ≡ done m'
unfolding replay run_all
replay-run_all sha n p [] m m' e = e
replay-run_all sha n p (ev ∷ es) m m' e0 = after (run sha ev m) e0 (λ next step e1.
    after (check_at sha (n + 1) p next) e1
      (λ _ _ e. ap (λ o. o >>= run_all sha es) step ∙ replay-run_all sha (n + 1) p es next m' e))

pin_eq-≡ : (p q : Pin) → pin_eq p q ≡ true → p ≡ q
unfolding pin_eq
pin_eq-≡ p q e0 =
    let (e1, revision) = both _ (p.controller_revision == q.controller_revision) e0 in
    let (e2, through) = both _ (p.closed_through == q.closed_through) e1 in
    let (e3, generation) = both _ (p.generation == q.generation) e2 in
    let (e4, digest) = both _ (bytes_eq p.prefix_digest q.prefix_digest) e3 in
    let (e5, count) = both _ (p.sequence == q.sequence) e4 in
    let (e6, store) = both _ (bytes_eq p.store q.store) e5 in
    let (e7, keeper) = both _ (bytes_eq p.keeper q.keeper) e6 in
    let (version, name) = both _ (bytes_eq p.profile q.profile) e7 in
    λ i. record {
      schema = (==_iff _ _).0 version i;
      profile = (bytes_eq_iff _ _).0 name i;
      keeper = (bytes_eq_iff _ _).0 keeper i;
      store = (bytes_eq_iff _ _).0 store i;
      sequence = (==_iff _ _).0 count i;
      prefix_digest = (bytes_eq_iff _ _).0 digest i;
      generation = (==_iff _ _).0 generation i;
      closed_through = (==_iff _ _).0 through i;
      controller_revision = (==_iff _ _).0 revision i;
    }

pinned :
    (sha : Str → Str) (n : ℕ) (p : Pin) (m : Model)
    → (n == p.sequence) ≡ true
    → check_at sha n p m ≡ done tt
    → pin sha m ≡ done p
unfolding check_at check_pin
pinned sha n p m now e0 =
    after (pin sha m) (sym (ap (λ b. if b then check_pin sha p m else done tt) now) ∙ e0)
      (λ q got e. got ∙ ap done (pin_eq-≡ q p (demanded _ _ e)))

replay-PassesPin :
    (sha : Str → Str) (n : ℕ) (p : Pin) (es : List Event) (m m' : Model)
    → n < p.sequence
    → p.sequence ≤ n + length es
    → replay sha n p es m ≡ done m'
    → PassesPin sha n p es m m'
unfolding replay PassesPin run_all
replay-PassesPin sha n p [] m m' low high e = absurd (omega arith)
replay-PassesPin sha n p (ev ∷ es) m m' low high e0 = after (run sha ev m) e0 (λ next step e1.
    after (check_at sha (n + 1) p next) e1 (λ u passed e. elim (Bool-cases (n + 1 == p.sequence)) [
      | inl now ↦ (
        ev ∷ [],
        es,
        next,
        refl,
        ground arith,
        ap (λ o. o >>= run_all sha []) step,
        pinned sha (n + 1) p next now passed,
        replay-run_all sha (n + 1) p es next m' e,
      )
      | inr yet ↦
          let (before, later, at, split, count, start, held, rest) =
            replay-PassesPin sha (n + 1) p es next m' (ground arith) (omega arith) e in
          (
            ev ∷ before,
            later,
            at,
            ap (λ l. ev ∷ l) split,
            omega arith,
            ap (λ o. o >>= run_all sha before) step ∙ start,
            held,
            rest,
          )
    ]))

from_start :
    (sha : Str → Str) (p : Pin) (es : List Event) (m m' : Model)
    → leb p.sequence (length es) ≡ true
    → check_at sha 0 p m ≡ done tt
    → replay sha 0 p es m ≡ done m'
    → PassesPin sha 0 p es m m'
from_start sha p es m m' enough passed e = elim (Bool-cases (0 == p.sequence)) [
  | inl now ↦
      unfold PassesPin run_all in
      (
        [],
        es,
        m,
        refl,
        ground arith,
        refl,
        pinned sha 0 p m now passed,
        replay-run_all sha 0 p es m m' e,
      )
  | inr yet ↦ replay-PassesPin sha 0 p es m m' (ground arith) (ground arith) e
]

-- A checkpoint is restored only by running all its events on a model that is created from its inventory,
-- and this run goes through a model with the pin of the caller, after as many events as the pin counts.
pub restore-PassesPin :
    (sha : Str → Str) (d : Document) (p : Pin) (m' : Model)
    → restore sha d (some p) ≡ done m'
    → (start : Model) × (create d.initial ≡ done start) × PassesPin sha 0 p d.events start m'
unfolding restore
restore-PassesPin sha d p m' e0 = after (check_expected p) e0 (λ _ _ e1.
    after (check_document d) e1 (λ _ _ e2.
      after_demand (leb p.sequence (length d.events)) _ e2 (λ enough e3.
        after (create d.initial) e3 (λ m made e4.
          after (check_at sha 0 p m) e4
            (λ u passed e. (m, made, from_start sha p d.events m m' enough passed e))))))

pin-closed_through :
    (sha : Str → Str) (m : Model) (p : Pin)
    → pin sha m ≡ done p
    → m.closed_through ≡ p.closed_through
unfolding pin
pin-closed_through sha m p e0 =
    after (prefix sha (length m.events) m) e0
      (λ _ _ e. ap (λ q. q.closed_through) (done-injective e))

run-admit :
    (sha : Str → Str) (r : Record) (g rev : ℕ) (m m' : Model)
    → run sha (admit r g rev) m ≡ done m'
    → m.closed_through < g
unfolding run apply apply_admit
run-admit sha r g rev m m' e0 = after_demand (ltb (length m.events) max_events) _ e0 (λ _ e1.
    after (canonical (event_json (admit r g rev))) e1 (λ _ _ e2.
      after (apply_admit r g rev m) e2 (λ trial step _.
        after_demand (leb 1 g && leb g max_generations) _ step (λ _ e3.
          after (check_controller rev m.inventory) e3
            (λ _ _ e4. after_demand (ltb m.closed_through g) _ e4 (λ later _. ground arith))))))

-- What the pin says is closed stays closed: after a restore and further events, no record is admitted to a
-- generation that was closed when the pin was taken.
pub restore-admit :
    (sha : Str → Str) (d : Document) (p : Pin) (m m' m'' : Model) (es : List Event) (r : Record)
    (g rev : ℕ)
    → restore sha d (some p) ≡ done m
    → run_all sha es m ≡ done m'
    → run sha (admit r g rev) m' ≡ done m''
    → p.closed_through < g
unfolding PassesPin
restore-admit sha d p m m' m'' es r g rev back more last =
    let (start, made, through) = restore-PassesPin sha d p m back in
    let (before, later, at, split, count, run_before, held, run_later) = through in
    let at_pin =
      run_all-Advances sha before start at run_before (create-IsLifecycle d.initial start made) in
    let restored = run_all-Advances sha later at m run_later at_pin.0 in
    let now = run_all-Advances sha es m m' more restored.0 in
    let a = restored.1 in
    let b = now.1 in
    let c = pin-closed_through sha at p held in
    let fence = run-admit sha r g rev m' m'' last in omega arith
