-- ===== src/Lifecycle/Record/Find.antt =====
-- Records found by their keys in joined, sorted and filtered lists.
use peer_application_runtime.Base.{
  List, [], ◌∷◌, ◌++◌, true, false, Option, none, some, ◌≡◌, refl, sym, ap, ◌∙◌, arith, Bool-cases,
  inl, inr, if◌then◌else◌,
}
use peer_application_runtime.Base.Bytes.{bytes_eq, bytes_eq_iff, contains}
use peer_application_runtime.Base.Text.{Str, str_lt, str_lt_irrefl}
use peer_application_runtime.Lifecycle.Record.{Record, not_among, find, insert, sorted, keys_of}

-- The first of two that there is.
abbrev pub first_of : Option Record → Option Record → Option Record
first_of none o = o
first_of (some r) o = some r

pub find-append :
    (k : Str) (rs ss : List Record) → find k (rs ++ ss) ≡ first_of (find k rs) (find k ss)
unfolding find
find-append k [] ss = refl
find-append k (r ∷ rs) ss = ground (arith, find-append k rs ss)

-- Only one of two keys in order is `k`.
apart : (a b k : Str) → str_lt a b ≡ true → bytes_eq a k ≡ true → bytes_eq b k ≡ false
apart a b k h e = elim (Bool-cases (bytes_eq b k)) [
  | inl f ↦
      let same : a ≡ b = (bytes_eq_iff a k).0 e ∙ sym ((bytes_eq_iff b k).0 f) in
      absurd (ground (arith, str_lt_irrefl b, ap (λ c. str_lt c b) same))
  | inr f ↦ f
]

-- A record goes past smaller keys only, so it is still found first.
find-insert :
    (k : Str) (r : Record) (rs : List Record)
    → find k (insert r rs) ≡ (if bytes_eq r.key k then some r else find k rs)
unfolding find insert
find-insert k r [] = refl
find-insert k r (s ∷ rs) = ground (arith, find-insert k r rs, apart s.key r.key k)

pub find-sorted : (k : Str) (rs : List Record) → find k (sorted rs) ≡ find k rs
unfolding sorted find
find-sorted k [] = refl
find-sorted k (r ∷ rs) =
    find-insert k r (sorted rs)
    ∙ ap (λ o. if bytes_eq r.key k then some r else o) (find-sorted k rs)

-- A key that is not among those of the filter is found as before.
pub find-not_among :
    (k : Str) (keys : List Str) (rs : List Record)
    → contains k keys ≡ false
    → find k (not_among keys rs) ≡ find k rs
unfolding find not_among
find-not_among k keys [] h = refl
find-not_among k keys (r ∷ rs) h = elim (Bool-cases (bytes_eq r.key k)) [
  | inl e ↦
      let out : contains r.key keys ≡ false =
        ap (λ j. contains j keys) ((bytes_eq_iff r.key k).0 e) ∙ h in
      rw out (rw e refl)
  | inr e ↦ ground (arith, find-not_among k keys rs h)
]

-- A key that no record has is not among the keys.
pub contains-keys_of :
    (k : Str) (rs : List Record) → find k rs ≡ none → contains k (keys_of rs) ≡ false
unfolding find contains
contains-keys_of k [] h = refl
contains-keys_of k (r ∷ rs) h = ground (arith, contains-keys_of k rs)
