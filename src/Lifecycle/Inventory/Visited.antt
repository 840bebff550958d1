-- ===== src/Lifecycle/Inventory/Visited.antt =====
-- A walk over the references that ends without an error has seen every key that it was given.
use peer_application_runtime.Base.{
  ℕ, zero, suc, List, [], ◌∷◌, true, ◌||◌, ◌≡◌, subst, arith, Bool-cases, Option-cases, inl, inr,
  length, All,
}
use peer_application_runtime.Base.Bytes.{bytes_eq_refl, contains}
use peer_application_runtime.Base.Text.{Str}
use peer_application_runtime.Base.Fallible.{done, after, done-injective}
use peer_application_runtime.Lifecycle.Json.{Outcome}
use peer_application_runtime.Lifecycle.Record.{Record, find, keys_of}
use peer_application_runtime.Lifecycle.Inventory.{visit_all, visit, check_graph}

-- The key has been visited, or is an anchor's.
abbrev pub IsSeen : List Str → List Str → Str → Type 0
IsSeen anchored visited key = (contains key visited || contains key anchored) ≡ true

abbrev Grows : List Str → List Str → Type 0
Grows visited more = (key : Str) → contains key visited ≡ true → contains key more ≡ true

IsSeen-grow :
    (anchored visited more : List Str) (key : Str)
    → Grows visited more
    → IsSeen anchored visited key
    → IsSeen anchored more key
IsSeen-grow anchored visited more key grow h = elim (Bool-cases (contains key visited)) [
  | inl there ↦ ground (arith, grow key there)
  | inr gone ↦ ground (arith, h, gone)
]

-- A visit loses no key, and sees its own.
abbrev Sees : List Str → (Str → List Str → Outcome (List Str)) → Type 0
Sees anchored visit' =
    (key : Str) (visited more : List Str)
    → visit' key visited ≡ done more
    → Grows visited more × IsSeen anchored more key

visit_all-IsSeen :
    (anchored : List Str) (visit' : Str → List Str → Outcome (List Str)) (refs visited : List Str)
    (more : List Str)
    → Sees anchored visit'
    → visit_all visit' refs visited ≡ done more
    → Grows visited more × All (IsSeen anchored more) refs
unfolding visit_all
visit_all-IsSeen anchored visit' [] visited more h e =
    subst (λ m. Grows visited m × Unit {0}) (done-injective e) (λ key there. there, tt)
visit_all-IsSeen anchored visit' (ref ∷ refs) visited more h e =
    after (visit' ref visited) e λ next one rest.
      let (grow, seen) = h ref visited next one in
      let (grows, all) = visit_all-IsSeen anchored visit' refs next more h rest in
      (
        λ key there. grows key (grow key there),
        (IsSeen-grow anchored next more ref grows seen, all),
      )

own-IsSeen :
    (anchored visited next : List Str) (key : Str)
    → Grows visited next
    → Grows visited (key ∷ next) × IsSeen anchored (key ∷ next) key
unfolding contains
own-IsSeen anchored visited next key grows =
    (λ k there. ground (arith, grows k there), ground (arith, bytes_eq_refl key))

visit-IsSeen :
    (anchored : List Str) (records : List Record) (fuel : ℕ) (path : List Str)
    → Sees anchored (visit anchored records fuel path)
unfolding visit
visit-IsSeen anchored records zero path key visited more e = cc
visit-IsSeen anchored records (suc fuel) path key visited more e =
    elim (Bool-cases (contains key path)) [
      | inl on ↦ let cycle = rw (visit, on) at e in cc
      | inr off ↦ elim (Bool-cases (contains key visited || contains key anchored)) [
        | inl seen ↦
            let same = done-injective (rw (visit, off, seen) at e) in
            subst (λ m. Grows visited m × IsSeen anchored m key) same (λ k there. there, seen)
        | inr new ↦ elim (Option-cases (find key records)) [
          | inl gone ↦ let dangling = rw (visit, off, new, gone) at e in cc
          | inr (r, here) ↦
              after (visit_all (visit anchored records fuel (key ∷ path)) r.refs visited)
                (rw (visit, off, new, here) at e)
                λ next all end.
                  let (grows, seen) =
                    visit_all-IsSeen anchored _ r.refs visited next
                      (visit-IsSeen anchored records fuel (key ∷ path)) all in
                  subst (λ m. Grows visited m × IsSeen anchored m key) (done-injective end)
                    (own-IsSeen anchored visited next key grows)
        ]
      ]
    ]

-- All the keys of the records.
pub check_graph-IsSeen :
    (anchored : List Str) (records : List Record) (visited : List Str)
    → check_graph anchored records ≡ done visited
    → All (IsSeen anchored visited) (keys_of records)
unfolding check_graph
check_graph-IsSeen anchored records visited e =
    (visit_all-IsSeen anchored _ (keys_of records) [] visited
      (visit-IsSeen anchored records (suc (length records)) []) e).1
