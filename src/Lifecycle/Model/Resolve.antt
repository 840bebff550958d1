-- ===== src/Lifecycle/Model/Resolve.antt =====
-- Nothing is lost: a record that resolves goes on to resolve, to the same record, whatever the lifecycle
-- does with it.
use peer_application_runtime.Base.{
  ℕ, List, [], ◌∷◌, ◌++◌, not, ◌&&◌, Option, none, some, ◌≡◌, refl, sym, ap, ap₂, subst, ◌∙◌,
  Option-cases, inl, inr, ltb, leb, ◌==◌, length, append-nil,
}
use peer_application_runtime.Base.Bytes.{bytes_eq, contains}
use peer_application_runtime.Base.Text.{Str, is_hex64}
use peer_application_runtime.Base.Fallible.{
  done, failed, demand, done-injective, after, after_demand, ◌>>◌,
}
use peer_application_runtime.Lifecycle.Json.{Outcome, Json, Code, canonical}
use peer_application_runtime.Lifecycle.Record.{
  Record, validate_record, when, is_job, find, keys_of, not_among, is_ref_key,
}
use peer_application_runtime.Lifecycle.Record.Find.{
  first_of, find-append, find-sorted, find-not_among, contains-keys_of,
}
use peer_application_runtime.Lifecycle.Record.Same.{records_eq, records_eq-≡}
use peer_application_runtime.Lifecycle.Inventory.{validate_inventory}
use peer_application_runtime.Lifecycle.Events.{
  Model, Event, admit, close, archive, compact, open_next, rotate, Archive, Pending,
  archived_records, all_records, last_of, is_opened, is_closed, is_archived, is_compacted,
  max_generations, max_events, scope, event_json, pending_eq,
}
use peer_application_runtime.Lifecycle.Model.{
  names_its_job, check_controller, is_revision, plan_of, full_plan, has_intent, checkpoint, apply,
  apply_admit, apply_close, apply_archive, apply_compact, apply_open, apply_rotate, run, run_all,
  resolve, add_record, record_event, archive_pending, compact_last, archive_digest,
}

-- Where `_all_records` finds a key: in an archive, else among the active records.
abbrev holds : Str → Model → Option Record
holds k m = first_of (find k (archived_records m.archives)) (find k m.inventory.records)

find-all_records : (k : Str) (m : Model) → find k (all_records m) ≡ holds k m
unfolding all_records
find-all_records k m =
    let out = archived_records m.archives in
    find-sorted k (out ++ not_among (keys_of out) m.inventory.records)
    ∙ find-append k out (not_among (keys_of out) m.inventory.records)
    ∙ elim (Option-cases (find k out)) [
      | inl e ↦ rw e (find-not_among k (keys_of out) m.inventory.records (contains-keys_of k out e))
      | inr (r, e) ↦ rw e refl
    ]

-- The second model holds what the first holds.
abbrev Keeps : Model → Model → Type 0
Keeps m m' = (k : Str) (r : Record) → holds k m ≡ some r → holds k m' ≡ some r

first_of_left :
    (a b c : Option Record) (r : Record)
    → (b ≡ some r → c ≡ some r)
    → first_of a b ≡ some r
    → first_of a c ≡ some r
first_of_left none b c r f h = f h
first_of_left (some s) b c r f h = h

first_of_assoc : (a b c : Option Record) → first_of a (first_of b c) ≡ first_of (first_of a b) c
first_of_assoc none b c = refl
first_of_assoc (some r) b c = refl

first_of-none : (a b : Option Record) → first_of a b ≡ none → (a ≡ none) × (b ≡ none)
first_of-none none b h = (refl, h)
first_of-none (some r) b h = cc

add_record-Keeps : (r : Record) (m : Model) → Keeps m (add_record r m)
unfolding add_record
add_record-Keeps r m k s h =
    first_of_left (find k (archived_records m.archives)) _ _ s
      (λ e.
        find-sorted k (m.inventory.records ++ r ∷ [])
        ∙ find-append k m.inventory.records (r ∷ [])
        ∙ rw e refl)
      h

find-archived_append :
    (k : Str) (older : List Archive) (a : Archive)
    → find k (archived_records (older ++ a ∷ []))
      ≡ first_of (find k (archived_records older)) (find k a.content.records)
unfolding archived_records find
find-archived_append k [] a = ap (find k) (append-nil a.content.records)
find-archived_append k (b ∷ older) a =
    find-append k b.content.records (archived_records (older ++ a ∷ []))
    ∙ ap (first_of (find k b.content.records)) (find-archived_append k older a)
    ∙ first_of_assoc (find k b.content.records) _ _
    ∙ ap (λ o. first_of o (find k a.content.records))
        (sym (find-append k b.content.records (archived_records older)))

-- What no archive holds, the last one does not hold.
last_holds :
    (k : Str) (as' : List Archive) (a : Archive)
    → last_of as' ≡ some a
    → find k (archived_records as') ≡ none
    → find k a.content.records ≡ none
unfolding archived_records last_of
last_holds k [] a e h = cc
last_holds k (b ∷ []) a e h =
    sym (ap (λ o. elim o [ none ↦ none | some c ↦ find k c.content.records ]) e)
    ∙ ap (find k) (sym (append-nil b.content.records))
    ∙ h
last_holds k (b ∷ c ∷ more) a e h =
    last_holds k (c ∷ more) a e
      (first_of-none (find k b.content.records) _
        (sym (find-append k b.content.records (archived_records (c ∷ more))) ∙ h)).1

first_of_twice : (a b c : Option Record) → b ≡ c → first_of (first_of a b) c ≡ first_of a c
first_of_twice none none c e = refl
first_of_twice none (some r) c e = e
first_of_twice (some r) b c e = refl

-- A step that leaves the records and the archives as they are.
unmoved :
    (m m' : Model)
    → m.inventory.records ≡ m'.inventory.records
    → m.archives ≡ m'.archives
    → Keeps m m'
unmoved m m' e f k r h =
    ap₂ (λ older active. first_of (find k (archived_records older)) (find k active)) (sym f) (sym e)
    ∙ h

-- An archive of just the active records is appended.
archived-Keeps :
    (m m' : Model) (a : Archive)
    → a.content.records ≡ m.inventory.records
    → m'.archives ≡ m.archives ++ a ∷ []
    → m'.inventory.records ≡ m.inventory.records
    → Keeps m m'
archived-Keeps m m' a same more active k r h =
    ap₂ (λ older now. first_of (find k (archived_records older)) (find k now)) more active
    ∙ ap (λ o. first_of o (find k m.inventory.records)) (find-archived_append k m.archives a)
    ∙ first_of_twice (find k (archived_records m.archives)) _ _ (ap (find k) same)
    ∙ h

-- The active records go, when the last archive has them.
compacted-Keeps :
    (m m' : Model) (a : Archive)
    → last_of m.archives ≡ some a
    → a.content.records ≡ m.inventory.records
    → m'.archives ≡ m.archives
    → m'.inventory.records ≡ []
    → Keeps m m'
unfolding find
compacted-Keeps m m' a last same kept gone k r h =
    ap₂ (λ older now. first_of (find k (archived_records older)) (find k now)) kept gone
    ∙ elim (Option-cases (find k (archived_records m.archives))) [
      | inl e ↦
          let nowhere : none ≡ some r =
            sym (last_holds k m.archives a last e)
            ∙ ap (find k) same
            ∙ sym (ap (λ o. first_of o (find k m.inventory.records)) e)
            ∙ h in
          cc
      | inr (s, e) ↦
          ap (λ o. first_of o none) e
          ∙ sym (ap (λ o. first_of o (find k m.inventory.records)) e)
          ∙ h
    ]

archive_pending-Keeps :
    (sha : Str → Str) (o : Option Pending) (m m' : Model)
    → archive_pending sha o m ≡ done m'
    → Keeps m m'
unfolding archive_pending
archive_pending-Keeps sha none m m' e = cc
archive_pending-Keeps sha (some p) m m' e0 =
    after_demand (records_eq p.records m.inventory.records) _ e0 (λ same e1.
      after (archive_digest sha p) e1 (λ d _ e.
        archived-Keeps m m' (record { content = p; digest = d }) (records_eq-≡ _ _ same)
          (sym (ap (λ n. n.archives) (done-injective e)))
          (sym (ap (λ n. n.inventory.records) (done-injective e)))))

compact_last-Keeps :
    (sha : Str → Str) (o : Option Archive) (p : Option Pending) (m m' : Model)
    → last_of m.archives ≡ o
    → compact_last sha o p m ≡ done m'
    → Keeps m m'
unfolding compact_last
compact_last-Keeps sha none p m m' last e = cc
compact_last-Keeps sha (some a) none m m' last e = cc
compact_last-Keeps sha (some a) (some p) m m' last e0 =
    after (archive_digest sha a.content) e0 (λ d _ e1.
      after_demand (bytes_eq d a.digest && pending_eq a.content p) _ e1 (λ _ e2.
        after_demand (records_eq a.content.records m.inventory.records) _ e2 (λ same e.
          compacted-Keeps m m' a last (records_eq-≡ _ _ same)
            (sym (ap (λ n. n.archives) (done-injective e)))
            (sym (ap (λ n. n.inventory.records) (done-injective e))))))

close-Keeps :
    (sha : Str → Str) (p : Json) (rev : ℕ) (m m' : Model)
    → apply_close sha p rev m ≡ done m'
    → Keeps m m'
unfolding apply_close
close-Keeps sha expected rev m m' e0 = after (check_controller rev m.inventory) e0 (λ _ _ e1.
    after_demand (is_opened m.phase) _ e1 (λ _ e2. after (plan_of sha m) e2 (λ p _ e3.
      after (full_plan sha p m) e3 (λ whole _ e4. after (canonical expected) e4 (λ given _ e5.
        after (canonical whole) e5 (λ own _ e6. after_demand (bytes_eq given own) _ e6 (λ _ e7.
          after_demand p.model_ready _ e7 (λ _ e.
            unmoved m m' (ap (λ n. n.inventory.records) (done-injective e))
              (ap (λ n. n.archives) (done-injective e))))))))))

admit-Keeps : (r : Record) (g rev : ℕ) (m m' : Model) → apply_admit r g rev m ≡ done m' → Keeps m m'
unfolding apply_admit
admit-Keeps r g rev m m' e0 = after_demand (leb 1 g && leb g max_generations) _ e0 (λ _ e1.
    after (check_controller rev m.inventory) e1 (λ _ _ e2.
      after_demand (ltb m.closed_through g) _ e2 (λ _ e3.
        after_demand (is_opened m.phase) _ e3 (λ _ e4.
          after_demand (g == m.generation) _ e4 (λ _ e5. after (validate_record r) e5 (λ _ _ e6.
            after_demand (names_its_job r m) _ e6 (λ _ e7.
              after_demand (not (contains r.key (keys_of (all_records m)))) _ e7 (λ _ e8.
                after_demand
                  (when (is_job r.kind) (not (has_intent r.intent_digest (all_records m)))) _ e8
                  (λ _ e9.
                    after (validate_inventory (scope (add_record r m))) e9
                      (λ _ _ e. subst (Keeps m) (done-injective e) (add_record-Keeps r m)))))))))))

open-Keeps :
    (sha : Str → Str) (rev : ℕ) (m m' : Model) → apply_open sha rev m ≡ done m' → Keeps m m'
unfolding apply_open
open-Keeps sha rev m m' e0 = after (check_controller rev m.inventory) e0 (λ _ _ e1.
    after_demand (is_compacted m.phase) _ e1 (λ _ e2.
      after_demand (ltb m.generation max_generations) _ e2 (λ _ e.
        unmoved m m' (ap (λ n. n.inventory.records) (done-injective e))
          (ap (λ n. n.archives) (done-injective e)))))

rotate-Keeps :
    (sha : Str → Str) (public : Str) (rev : ℕ) (m m' : Model)
    → apply_rotate sha public rev m ≡ done m'
    → Keeps m m'
unfolding apply_rotate
rotate-Keeps sha public rev m m' e0 = after_demand (is_hex64 public) _ e0 (λ _ e1.
    after_demand (is_revision rev) _ e1 (λ _ e2. after_demand (is_opened m.phase) _ e2 (λ _ e3.
      after_demand (ltb m.inventory.controller_revision rev) _ e3 (λ _ e.
        unmoved m m' (ap (λ n. n.inventory.records) (done-injective e))
          (ap (λ n. n.archives) (done-injective e))))))

-- One event.
apply-Keeps : (sha : Str → Str) (e : Event) (m m' : Model) → apply sha e m ≡ done m' → Keeps m m'
unfolding apply apply_archive apply_compact
apply-Keeps sha (admit r g rev) m m' e = admit-Keeps r g rev m m' e
apply-Keeps sha (close p rev) m m' e = close-Keeps sha p rev m m' e
apply-Keeps sha archive m m' e0 =
    after_demand (is_closed m.phase) _ e0 (λ _ e. archive_pending-Keeps sha m.pending m m' e)
apply-Keeps sha compact m m' e0 =
    after_demand (is_archived m.phase) _ e0
      (λ _ e. compact_last-Keeps sha (last_of m.archives) m.pending m m' refl e)
apply-Keeps sha (open_next rev) m m' e = open-Keeps sha rev m m' e
apply-Keeps sha (rotate public rev) m m' e = rotate-Keeps sha public rev m m' e

run-Keeps : (sha : Str → Str) (e : Event) (m m' : Model) → run sha e m ≡ done m' → Keeps m m'
unfolding run record_event
run-Keeps sha ev m m' e0 k r h = after_demand (ltb (length m.events) max_events) _ e0 (λ _ e1.
    after (canonical (event_json ev)) e1 (λ _ _ e2. after (apply sha ev m) e2 (λ trial step e3.
      after (checkpoint sha (record_event sha ev trial)) e3
        (λ _ _ e. ap (holds k) (sym (done-injective e)) ∙ apply-Keeps sha ev m trial step k r h))))

abbrev find_or_fail : Option Record → Outcome Record
find_or_fail none = failed Code.not_found
find_or_fail (some r) = done r

found : (o : Option Record) (r : Record) → find_or_fail o ≡ done r → o ≡ some r
found none r e = cc
found (some s) r e = ap some (done-injective e)

run-resolve :
    (sha : Str → Str) (e : Event) (key : Str) (m m' : Model) (r : Record)
    → run sha e m ≡ done m'
    → resolve key m ≡ done r
    → resolve key m' ≡ done r
unfolding resolve
run-resolve sha ev key m m' r step e0 = after_demand (is_ref_key key) _ e0 (λ ok e.
    ap (λ b. demand b Code.schema >> find_or_fail (find key (all_records m'))) ok
    ∙ ap find_or_fail (
        find-all_records key m'
        ∙ run-Keeps sha ev m m' step key r
            (sym (find-all_records key m) ∙ found (find key (all_records m)) r e)))

-- If a key resolves to a record, and the model takes events one after the other, whichever they are, then
-- the key resolves to the same record after them.
pub run_all-resolve :
    (sha : Str → Str) (es : List Event) (key : Str) (m m' : Model) (r : Record)
    → run_all sha es m ≡ done m'
    → resolve key m ≡ done r
    → resolve key m' ≡ done r
unfolding run_all
run_all-resolve sha [] key m m' r e h = subst (λ n. resolve key n ≡ done r) (done-injective e) h
run_all-resolve sha (ev ∷ es) key m m' r e0 h =
    after (run sha ev m) e0 (λ next step e.
      run_all-resolve sha es key next m' r e (run-resolve sha ev key m next r step h))
