-- ===== src/Lifecycle/Model/Stage.antt =====
-- What holds of a model in each phase, and what no event changes: the generations that are closed stay
-- closed.
use peer_application_runtime.Base.{
  ℕ, suc, ◌+◌, ◌≤◌, List, [], ◌∷◌, ◌++◌, true, not, ◌&&◌, Option, none, some, ◌≡◌, refl, ap, subst,
  ◌∙◌, arith, ltb, leb, ◌==◌, length,
}
use peer_application_runtime.Base.Bytes.{bytes_eq, contains}
use peer_application_runtime.Base.Text.{Str, is_hex64}
use peer_application_runtime.Base.Fallible.{done, done-injective, after, after_demand}
use peer_application_runtime.Lifecycle.Json.{Json, canonical}
use peer_application_runtime.Lifecycle.Record.{Record, validate_record, when, is_job, keys_of}
use peer_application_runtime.Lifecycle.Record.Same.{records_eq}
use peer_application_runtime.Lifecycle.Inventory.{Inventory, is_live, validate_inventory}
use peer_application_runtime.Lifecycle.Events.{
  Model, Phase, opened, closed, archived, compacted, Event, admit, close, archive, compact,
  open_next, rotate, Archive, Pending, is_opened, is_closed, is_archived, is_compacted,
  max_generations, max_events, scope, event_json, pending_eq, all_records, last_of,
}
use peer_application_runtime.Lifecycle.Model.{
  names_its_job, check_controller, is_revision, plan_of, full_plan, has_intent, checkpoint, apply,
  apply_admit, apply_close, apply_archive, apply_compact, apply_open, apply_rotate, run, run_all,
  create, add_record, record_event, archive_pending, compact_last, archive_digest,
}

-- The generation, what is closed, the number of archives, and what is pending, in each phase.
unfoldable pub IsStage : Phase → ℕ → ℕ → ℕ → Option Pending → List Record → Type 0
IsStage opened generation through archives pending records =
    (generation ≡ suc through) × (archives ≡ through)
IsStage closed generation through archives pending records =
    (generation ≡ through)
    × (suc archives ≡ generation)
    × ((p : Pending) × (pending ≡ some p) × (p.records ≡ records) × (p.generation ≡ generation))
IsStage archived generation through archives pending records =
    (generation ≡ through)
    × (archives ≡ generation)
    × ((p : Pending) × (pending ≡ some p) × (p.records ≡ records) × (p.generation ≡ generation))
IsStage compacted generation through archives pending records =
    (generation ≡ through) × (archives ≡ generation) × (records ≡ [])

unfoldable pub IsLifecycle : Model → Type 0
IsLifecycle m =
    IsStage m.phase m.generation m.closed_through (length m.archives) m.pending m.inventory.records

pub create-IsLifecycle : (v : Inventory) (m : Model) → create v ≡ done m → IsLifecycle m
unfolding create IsLifecycle IsStage
create-IsLifecycle v m e0 = after (validate_inventory v) e0 (λ _ _ e1.
    after_demand (not (is_live v.source)) _ e1
      (λ _ e. subst IsLifecycle (done-injective e) (refl, refl)))

length-append_one : {A : Type 0} (as' : List A) (a : A) → length (as' ++ a ∷ []) ≡ suc (length as')
length-append_one [] a = refl
length-append_one (b ∷ rest) a = ap suc (length-append_one rest a)

module _ (generation through archives : ℕ) (pending : Option Pending) (records : List Record) where
  while_opened :
      (p : Phase)
      → is_opened p ≡ true
      → IsStage p generation through archives pending records
      → (generation ≡ suc through) × (archives ≡ through)
  unfolding IsStage
  while_opened opened e s = s
  while_opened closed e s = cc
  while_opened archived e s = cc
  while_opened compacted e s = cc

  while_closed :
      (p : Phase)
      → is_closed p ≡ true
      → IsStage p generation through archives pending records
      → IsStage closed generation through archives pending records
  while_closed opened e s = cc
  while_closed closed e s = s
  while_closed archived e s = cc
  while_closed compacted e s = cc

  while_archived :
      (p : Phase)
      → is_archived p ≡ true
      → IsStage p generation through archives pending records
      → (generation ≡ through) × (archives ≡ generation)
  unfolding IsStage
  while_archived opened e s = cc
  while_archived closed e s = cc
  while_archived archived e s = (s.0, s.1)
  while_archived compacted e s = cc

  while_compacted :
      (p : Phase)
      → is_compacted p ≡ true
      → IsStage p generation through archives pending records
      → (generation ≡ through) × (archives ≡ generation)
  unfolding IsStage
  while_compacted opened e s = cc
  while_compacted closed e s = cc
  while_compacted archived e s = cc
  while_compacted compacted e s = (s.0, s.1)

  -- What is closed is never ahead, nor more than one generation behind.
  within :
      (p : Phase) → IsStage p generation through archives pending records → through ≤ generation
  unfolding IsStage
  within opened s = let h = s.0 in omega arith
  within closed s = let h = s.0 in omega arith
  within archived s = let h = s.0 in omega arith
  within compacted s = let h = s.0 in omega arith

  opened-IsStage :
      (p : Phase)
      → is_opened p ≡ true
      → IsStage p generation through archives pending records
      → (pending' : Option Pending) (records' : List Record)
      → IsStage p generation through archives pending' records'
  unfolding IsStage
  opened-IsStage opened e s pending' records' = s
  opened-IsStage closed e s pending' records' = cc
  opened-IsStage archived e s pending' records' = cc
  opened-IsStage compacted e s pending' records' = cc

-- An event keeps the invariant, and what was closed.
abbrev Advances : Model → Model → Type 0
Advances m m' = IsLifecycle m → IsLifecycle m' × (m.closed_through ≤ m'.closed_through)

close-Advances :
    (sha : Str → Str) (expected : Json) (rev : ℕ) (m m' : Model)
    → apply_close sha expected rev m ≡ done m'
    → Advances m m'
unfolding apply_close IsLifecycle IsStage
close-Advances sha expected rev m m' e0 s = after (check_controller rev m.inventory) e0 (λ _ _ e1.
    after_demand (is_opened m.phase) _ e1 (λ now e2. after (plan_of sha m) e2 (λ p _ e3.
      after (full_plan sha p m) e3 (λ whole _ e4. after (canonical expected) e4 (λ given _ e5.
        after (canonical whole) e5 (λ own _ e6. after_demand (bytes_eq given own) _ e6 (λ _ e7.
          after_demand p.model_ready _ e7 (λ _ e.
            let stage =
              while_opened m.generation m.closed_through (length m.archives) m.pending
                m.inventory.records m.phase now s in
            let count : suc (length m.archives) ≡ m.generation =
              let a = stage.0 in let b = stage.1 in omega arith in
            let ahead : m.closed_through ≤ m.generation = let a = stage.0 in omega arith in
            subst (λ n. IsLifecycle n × (m.closed_through ≤ n.closed_through)) (done-injective e)
              ((refl, count, (_, refl, refl, refl)), ahead)))))))))

admit-Advances :
    (r : Record) (g rev : ℕ) (m m' : Model) → apply_admit r g rev m ≡ done m' → Advances m m'
unfolding apply_admit IsLifecycle add_record
admit-Advances r g rev m m' e0 s = after_demand (leb 1 g && leb g max_generations) _ e0 (λ _ e1.
    after (check_controller rev m.inventory) e1 (λ _ _ e2.
      after_demand (ltb m.closed_through g) _ e2 (λ _ e3.
        after_demand (is_opened m.phase) _ e3 (λ now e4.
          after_demand (g == m.generation) _ e4 (λ _ e5. after (validate_record r) e5 (λ _ _ e6.
            after_demand (names_its_job r m) _ e6 (λ _ e7.
              after_demand (not (contains r.key (keys_of (all_records m)))) _ e7 (λ _ e8.
                after_demand
                  (when (is_job r.kind) (not (has_intent r.intent_digest (all_records m)))) _ e8
                  (λ _ e9. after (validate_inventory (scope (add_record r m))) e9 (λ _ _ e.
                    subst (λ n. IsLifecycle n × (m.closed_through ≤ n.closed_through))
                      (done-injective e)
                      (
                        opened-IsStage m.generation m.closed_through (length m.archives) m.pending
                            m.inventory.records m.phase now s m.pending _,
                        omega arith,
                      )))))))))))

archive_pending-Advances :
    (sha : Str → Str) (o : Option Pending) (m m' : Model)
    → is_closed m.phase ≡ true
    → m.pending ≡ o
    → archive_pending sha o m ≡ done m'
    → Advances m m'
unfolding archive_pending IsLifecycle IsStage
archive_pending-Advances sha none m m' now o e s = cc
archive_pending-Advances sha (some p) m m' now o e0 s =
    after_demand (records_eq p.records m.inventory.records) _ e0 (λ same e1.
      after (archive_digest sha p) e1 (λ d _ e.
        let stage =
          while_closed m.generation m.closed_through (length m.archives) m.pending
            m.inventory.records m.phase now s in
        subst (λ n. IsLifecycle n × (m.closed_through ≤ n.closed_through)) (done-injective e)
          ((stage.0, length-append_one m.archives _ ∙ stage.1, stage.2), omega arith)))

compact_last-Advances :
    (sha : Str → Str) (o : Option Archive) (p : Option Pending) (m m' : Model)
    → is_archived m.phase ≡ true
    → compact_last sha o p m ≡ done m'
    → Advances m m'
unfolding compact_last IsLifecycle IsStage
compact_last-Advances sha none p m m' now e s = cc
compact_last-Advances sha (some a) none m m' now e s = cc
compact_last-Advances sha (some a) (some p) m m' now e0 s =
    after (archive_digest sha a.content) e0 (λ d _ e1.
      after_demand (bytes_eq d a.digest && pending_eq a.content p) _ e1 (λ _ e2.
        after_demand (records_eq a.content.records m.inventory.records) _ e2 (λ _ e.
          let stage =
            while_archived m.generation m.closed_through (length m.archives) m.pending
              m.inventory.records m.phase now s in
          subst (λ n. IsLifecycle n × (m.closed_through ≤ n.closed_through)) (done-injective e)
            ((stage.0, stage.1, refl), omega arith))))

open-Advances :
    (sha : Str → Str) (rev : ℕ) (m m' : Model) → apply_open sha rev m ≡ done m' → Advances m m'
unfolding apply_open IsLifecycle IsStage
open-Advances sha rev m m' e0 s = after (check_controller rev m.inventory) e0 (λ _ _ e1.
    after_demand (is_compacted m.phase) _ e1 (λ now e2.
      after_demand (ltb m.generation max_generations) _ e2 (λ _ e.
        let stage =
          while_compacted m.generation m.closed_through (length m.archives) m.pending
            m.inventory.records m.phase now s in
        let more : m.generation + 1 ≡ suc m.closed_through = let a = stage.0 in omega arith in
        let count : length m.archives ≡ m.closed_through = stage.1 ∙ stage.0 in
        subst (λ n. IsLifecycle n × (m.closed_through ≤ n.closed_through)) (done-injective e)
          ((more, count), omega arith))))

rotate-Advances :
    (sha : Str → Str) (public : Str) (rev : ℕ) (m m' : Model)
    → apply_rotate sha public rev m ≡ done m'
    → Advances m m'
unfolding apply_rotate IsLifecycle
rotate-Advances sha public rev m m' e0 s = after_demand (is_hex64 public) _ e0 (λ _ e1.
    after_demand (is_revision rev) _ e1 (λ _ e2. after_demand (is_opened m.phase) _ e2 (λ _ e3.
      after_demand (ltb m.inventory.controller_revision rev) _ e3 (λ _ e.
        subst (λ n. IsLifecycle n × (m.closed_through ≤ n.closed_through)) (done-injective e)
          (s, omega arith)))))

apply-Advances :
    (sha : Str → Str) (e : Event) (m m' : Model) → apply sha e m ≡ done m' → Advances m m'
unfolding apply apply_archive apply_compact
apply-Advances sha (admit r g rev) m m' e = admit-Advances r g rev m m' e
apply-Advances sha (close p rev) m m' e = close-Advances sha p rev m m' e
apply-Advances sha archive m m' e0 =
    after_demand (is_closed m.phase) _ e0
      (λ now e. archive_pending-Advances sha m.pending m m' now refl e)
apply-Advances sha compact m m' e0 =
    after_demand (is_archived m.phase) _ e0
      (λ now e. compact_last-Advances sha (last_of m.archives) m.pending m m' now e)
apply-Advances sha (open_next rev) m m' e = open-Advances sha rev m m' e
apply-Advances sha (rotate public rev) m m' e = rotate-Advances sha public rev m m' e

run-Advances : (sha : Str → Str) (e : Event) (m m' : Model) → run sha e m ≡ done m' → Advances m m'
unfolding run record_event IsLifecycle
run-Advances sha ev m m' e0 s = after_demand (ltb (length m.events) max_events) _ e0 (λ _ e1.
    after (canonical (event_json ev)) e1 (λ _ _ e2. after (apply sha ev m) e2 (λ trial step e3.
      after (checkpoint sha (record_event sha ev trial)) e3 (λ _ _ e.
        subst (λ n. IsLifecycle n × (m.closed_through ≤ n.closed_through)) (done-injective e)
          (apply-Advances sha ev m trial step s)))))

-- Events that the model takes one after the other keep the invariant and close no generation less.
pub run_all-Advances :
    (sha : Str → Str) (es : List Event) (m m' : Model) → run_all sha es m ≡ done m' → Advances m m'
unfolding run_all
run_all-Advances sha [] m m' e s =
    subst (λ n. IsLifecycle n × (m.closed_through ≤ n.closed_through)) (done-injective e)
      (s, omega arith)
run_all-Advances sha (ev ∷ es) m m' e0 s = after (run sha ev m) e0 (λ next step e.
    let one = run-Advances sha ev m next step s in
    let more = run_all-Advances sha es next m' e one.0 in
    let a = one.1 in let b = more.1 in (more.0, omega arith))

-- Every model that is created and then takes events one after the other is in a stage: while open, its
-- generation is the one after those closed, and all of these are archived; once closed, what is pending has
-- the active records; once compacted, the active records are none and there are as many archives as closed
-- generations.
pub reachable-IsLifecycle :
    (sha : Str → Str) (v : Inventory) (es : List Event) (start m : Model)
    → create v ≡ done start
    → run_all sha es start ≡ done m
    → IsLifecycle m
reachable-IsLifecycle sha v es start m made steps =
    (run_all-Advances sha es start m steps (create-IsLifecycle v start made)).0
