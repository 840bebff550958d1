-- ===== src/Lifecycle/Record/Same.antt =====
-- Python's `==` on records and on lists of them, which compares them part by part.
use peer_application_runtime.Base.{
  List, [], ◌∷◌, Bool, true, false, ◌&&◌, Option, none, some, ◌≡◌, refl, ap, ap₂, ◌==◌, ==_iff,
  both,
}
use peer_application_runtime.Base.Bytes.{bytes_eq, bytes_eq_iff}
use peer_application_runtime.Base.Text.{Str}
use peer_application_runtime.Lifecycle.Record.{Record, Kind, State}

unfoldable pub strs_eq : List Str → List Str → Bool
strs_eq [] [] = true
strs_eq (s ∷ ss) (t ∷ ts) = bytes_eq s t && strs_eq ss ts
strs_eq [] (t ∷ ts) = false
strs_eq (s ∷ ss) [] = false

unfoldable pub optional_eq : Option Str → Option Str → Bool
optional_eq none none = true
optional_eq (some s) (some t) = bytes_eq s t
optional_eq none (some t) = false
optional_eq (some s) none = false

unfoldable pub Kind-discrete : Discrete Kind
Kind-discrete = hlevel

unfoldable pub State-discrete : Discrete State
State-discrete = hlevel

abbrev pub decided : {P : Type 0} → Dec P → Bool
decided (yes p) = true
decided (no p) = false

from_decided : {P : Type 0} (d : Dec P) → decided d ≡ true → P
from_decided (yes p) e = p
from_decided (no p) e = cc

unfoldable pub record_eq : Record → Record → Bool
record_eq a b =
    bytes_eq a.key b.key
    && decided (Kind-discrete a.kind b.kind)
    && bytes_eq a.local_id b.local_id
    && decided (State-discrete a.state b.state)
    && bytes_eq a.intent_digest b.intent_digest
    && bytes_eq a.input_digest b.input_digest
    && bytes_eq a.proof_digest b.proof_digest
    && strs_eq a.refs b.refs
    && optional_eq a.evidence_digest b.evidence_digest
    && a.storage_bytes == b.storage_bytes
    && a.reserved_bytes == b.reserved_bytes

unfoldable pub records_eq : List Record → List Record → Bool
records_eq [] [] = true
records_eq (r ∷ rs) (s ∷ ss) = record_eq r s && records_eq rs ss
records_eq [] (s ∷ ss) = false
records_eq (r ∷ rs) [] = false

strs_eq-≡ : (a b : List Str) → strs_eq a b ≡ true → a ≡ b
unfolding strs_eq
strs_eq-≡ [] [] e = refl
strs_eq-≡ (s ∷ ss) (t ∷ ts) e =
    let h = both (bytes_eq s t) _ e in
    ap₂ (λ x xs. x ∷ xs) ((bytes_eq_iff s t).0 h.0) (strs_eq-≡ ss ts h.1)
strs_eq-≡ [] (t ∷ ts) e = cc
strs_eq-≡ (s ∷ ss) [] e = cc

optional_eq-≡ : (a b : Option Str) → optional_eq a b ≡ true → a ≡ b
unfolding optional_eq
optional_eq-≡ none none e = refl
optional_eq-≡ (some s) (some t) e = ap some ((bytes_eq_iff s t).0 e)
optional_eq-≡ none (some t) e = cc
optional_eq-≡ (some s) none e = cc

record_eq-≡ : (a b : Record) → record_eq a b ≡ true → a ≡ b
unfolding record_eq
record_eq-≡ a b e0 =
    let (e1, reserved) = both _ (a.reserved_bytes == b.reserved_bytes) e0 in
    let (e2, storage) = both _ (a.storage_bytes == b.storage_bytes) e1 in
    let (e3, evidence) = both _ (optional_eq a.evidence_digest b.evidence_digest) e2 in
    let (e4, refs) = both _ (strs_eq a.refs b.refs) e3 in
    let (e5, proof) = both _ (bytes_eq a.proof_digest b.proof_digest) e4 in
    let (e6, input) = both _ (bytes_eq a.input_digest b.input_digest) e5 in
    let (e7, aim) = both _ (bytes_eq a.intent_digest b.intent_digest) e6 in
    let (e8, state) = both _ (decided (State-discrete a.state b.state)) e7 in
    let (e9, local) = both _ (bytes_eq a.local_id b.local_id) e8 in
    let (key, kind) = both _ (decided (Kind-discrete a.kind b.kind)) e9 in
    λ i. record {
      key = (bytes_eq_iff _ _).0 key i;
      kind = from_decided (Kind-discrete a.kind b.kind) kind i;
      local_id = (bytes_eq_iff _ _).0 local i;
      state = from_decided (State-discrete a.state b.state) state i;
      intent_digest = (bytes_eq_iff _ _).0 aim i;
      input_digest = (bytes_eq_iff _ _).0 input i;
      proof_digest = (bytes_eq_iff _ _).0 proof i;
      refs = strs_eq-≡ _ _ refs i;
      evidence_digest = optional_eq-≡ _ _ evidence i;
      storage_bytes = (==_iff _ _).0 storage i;
      reserved_bytes = (==_iff _ _).0 reserved i;
    }

pub records_eq-≡ : (rs ss : List Record) → records_eq rs ss ≡ true → rs ≡ ss
unfolding records_eq
records_eq-≡ [] [] e = refl
records_eq-≡ (r ∷ rs) (s ∷ ss) e =
    let h = both (record_eq r s) _ e in
    ap₂ (λ x xs. x ∷ xs) (record_eq-≡ r s h.0) (records_eq-≡ rs ss h.1)
records_eq-≡ [] (s ∷ ss) e = cc
records_eq-≡ (r ∷ rs) [] e = cc
