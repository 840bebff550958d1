-- ===== src/Lifecycle/Inventory/Fuel.antt =====
-- The walk over the references ends: one more than the records is fuel enough.
use peer_application_runtime.Base.{
  ℕ, zero, suc, ◌≤◌, ◌<◌, List, [], ◌∷◌, true, false, ◌||◌, some, ◌≡◌, refl, sym, ◌⊎◌, ap, ◌∙◌,
  arith, Bool-cases, Option-cases, inl, inr, if◌then◌else◌, length, All,
}
use peer_application_runtime.Base.Bytes.{bytes_eq, bytes_eq_iff, bytes_eq_refl, contains}
use peer_application_runtime.Base.Text.{Str}
use peer_application_runtime.Base.Fallible.{done, failed, ◌>>=◌}
use peer_application_runtime.Lifecycle.Json.{Outcome, reference_cycle, dangling_reference}
use peer_application_runtime.Lifecycle.Record.{Record, find, keys_of}
use peer_application_runtime.Lifecycle.Inventory.{visit_all, visit, check_graph}
use peer_application_runtime.Lifecycle.Inventory.Visited.{IsSeen, check_graph-IsSeen}

-- A result that is the keys visited, a cycle, or a reference to nothing.
abbrev IsFuelled : Outcome (List Str) → Type 0
IsFuelled o =
    ((visited : List Str) × (o ≡ done visited))
    ⊎ ((o ≡ failed reference_cycle) ⊎ (o ≡ failed dangling_reference))

-- How many of the records are not on the path.
unfoldable missing : List Str → List Record → ℕ
missing path [] = 0
missing path (r ∷ rs) = if contains r.key path then missing path rs else suc (missing path rs)

missing-le :
    (k : Str) (path : List Str) (rs : List Record) → missing (k ∷ path) rs ≤ missing path rs
unfolding missing contains
missing-le k path [] = omega arith
missing-le k path (r ∷ rs) = ground (arith, missing-le k path rs)

missing-lt :
    (k : Str) (path : List Str) (rs : List Record) (r : Record)
    → contains k path ≡ false
    → find k rs ≡ some r
    → missing (k ∷ path) rs < missing path rs
unfolding missing find
missing-lt k path [] r h e = cc
missing-lt k path (s ∷ rs) r h e = elim (Bool-cases (bytes_eq s.key k)) [
  | inl same ↦
      let key : s.key ≡ k = (bytes_eq_iff s.key k).0 same in
      let off : contains s.key path ≡ false = ap (λ j. contains j path) key ∙ h in
      let on : contains s.key (k ∷ path) ≡ true =
        ap (λ j. contains j (k ∷ path)) key
        ∙ unfold contains in ap (λ b. b || contains k path) (bytes_eq_refl k) in
      ground (arith, missing-le k path rs, off, on)
  | inr other ↦
      let later : find k rs ≡ some r = sym (ap (λ b. if b then some s else find k rs) other) ∙ e in
      let less = missing-lt k path rs r h later in
      elim (Bool-cases (contains s.key path)) [
        | inl in_path ↦
            let on : contains s.key (k ∷ path) ≡ true =
              unfold contains in ground (arith, in_path) in
            ground (arith, less, in_path, on)
        | inr off ↦ ground (arith, less, off, missing-le k path rs)
      ]
]

missing_all : (rs : List Record) → missing [] rs ≤ length rs
unfolding missing contains
missing_all [] = omega arith
missing_all (r ∷ rs) = ground (arith, missing_all rs)

bound-IsFuelled :
    (o : Outcome (List Str)) (next : List Str → Outcome (List Str))
    → IsFuelled o
    → ((visited : List Str) → IsFuelled (next visited))
    → IsFuelled (o >>= next)
bound-IsFuelled (done visited) next h k = k visited
bound-IsFuelled (failed e) next h k = h

visit_all-IsFuelled :
    (visit' : Str → List Str → Outcome (List Str)) (refs visited : List Str)
    → ((key : Str) (visited' : List Str) → IsFuelled (visit' key visited'))
    → IsFuelled (visit_all visit' refs visited)
unfolding visit_all
visit_all-IsFuelled visit' [] visited h = inl (visited, refl)
visit_all-IsFuelled visit' (ref ∷ refs) visited h =
    bound-IsFuelled (visit' ref visited) _ (h ref visited)
      (λ more. visit_all-IsFuelled visit' refs more h)

visit-IsFuelled :
    (anchored : List Str) (records : List Record) (fuel : ℕ) (path : List Str) (key : Str)
    (visited : List Str)
    → missing path records < fuel
    → IsFuelled (visit anchored records fuel path key visited)
unfolding visit
visit-IsFuelled anchored records zero path key visited h = absurd (omega arith)
visit-IsFuelled anchored records (suc fuel) path key visited h =
    elim (Bool-cases (contains key path)) [
      | inl on ↦ rw on (inr (inl refl))
      | inr off ↦ rw off (elim (Bool-cases (contains key visited || contains key anchored)) [
        | inl seen ↦ rw seen (inl (visited, refl))
        | inr new ↦ rw new (elim (Option-cases (find key records)) [
          | inl gone ↦ rw gone (inr (inr refl))
          | inr (r, here) ↦
              let less = missing-lt key path records r off here in
              rw here (
                bound-IsFuelled _ _
                  (visit_all-IsFuelled _ r.refs visited (λ k more.
                    visit-IsFuelled anchored records fuel (key ∷ path) k more (omega arith)))
                  (λ more. inl (key ∷ more, refl)))
        ])
      ])
    ]

check_graph-ends :
    (anchored : List Str) (records : List Record) → IsFuelled (check_graph anchored records)
unfolding check_graph
check_graph-ends anchored records = visit_all-IsFuelled _ (keys_of records) [] (λ key visited.
    visit-IsFuelled anchored records (suc (length records)) [] key visited
      (let all = missing_all records in omega arith))

-- The keys visited, of which every key of the records is one if it is not an anchor's; or a cycle, or a reference to
-- nothing.
abbrev pub IsAnswer : List Str → List Record → Outcome (List Str) → Type 0
IsAnswer anchored records o =
    ((visited : List Str) × (o ≡ done visited) × All (IsSeen anchored visited) (keys_of records))
    ⊎ ((o ≡ failed reference_cycle) ⊎ (o ≡ failed dangling_reference))

-- The walk over the references of any inventory ends within its fuel. Its result is a list of keys, in which every key
-- of a record is that is not an anchor's, or the error of a cycle, or the error of a reference to nothing, and
-- no other error.
pub check_graph-IsFuelled :
    (anchored : List Str) (records : List Record)
    → IsAnswer anchored records (check_graph anchored records)
check_graph-IsFuelled anchored records = elim (check_graph-ends anchored records) [
  | inl (visited, e) ↦ inl (visited, e, check_graph-IsSeen anchored records visited e)
  | inr refused ↦ inr refused
]
