-- ===== src/Base/Bytes.antt =====
-- Byte strings compared, and dictionaries that have them as keys, as lists of items in the order of
-- insertion.
use peer_application_runtime.Base.Lists.{length}
use peer_application_runtime.Base.Tests.{Bool-cases, ◌==◌, if◌then◌else◌}
use Prim.Native.Nat.{ℕ, ◌+◌, ◌≤◌}
use mathlib.Core.Path.{◌≡◌, refl, ap, ◌∙◌}
use mathlib.Core.Logic.{◌↔◌, inl, inr}
use mathlib.Core.Bool.{Bool, true, false, ◌&&◌, ◌||◌, not}
use mathlib.Core.Option.{Option, none, some}
use mathlib.Core.List.{List, [], ◌∷◌, ◌++◌}
use native.Mathlib.Omega.{arith}

abbrev pub Bytes : Type 0
Bytes = List ℕ

unfoldable pub bytes_eq : Bytes → Bytes → Bool
bytes_eq [] [] = true
bytes_eq [] (c ∷ cs) = false
bytes_eq (b ∷ bs) [] = false
bytes_eq (b ∷ bs) (c ∷ cs) = b == c && bytes_eq bs cs

pub bytes_eq_iff : (b c : Bytes) → (bytes_eq b c ≡ true) ↔ (b ≡ c)
unfolding bytes_eq
bytes_eq_iff [] [] = (λ e. refl, λ e. refl)
bytes_eq_iff [] (c ∷ cs) = (λ e. cc, λ e. cc)
bytes_eq_iff (b ∷ bs) [] = (λ e. cc, λ e. cc)
bytes_eq_iff (b ∷ bs) (c ∷ cs) =
    (λ e. ground (arith, (bytes_eq_iff bs cs).0), λ e. ground (arith, (bytes_eq_iff bs cs).1))

pub bytes_eq_refl : (b : Bytes) → bytes_eq b b ≡ true
bytes_eq_refl b = (bytes_eq_iff b b).1 refl

-- `b in bs`.
unfoldable pub contains : Bytes → List Bytes → Bool
contains b [] = false
contains b (c ∷ cs) = bytes_eq c b || contains b cs

-- `len(set(bs)) == len(bs)`.
unfoldable pub distinct : List Bytes → Bool
distinct [] = true
distinct (b ∷ bs) = not (contains b bs) && distinct bs

module _ {ℓ} {A : Type ℓ} where
  unfoldable pub lookup : Bytes → List (Bytes × A) → Option A
  lookup k [] = none
  lookup k ((j, v) ∷ m) = if bytes_eq j k then some v else lookup k m

  abbrev pub has_entry : Option A → Bool
  has_entry none = false
  has_entry (some v) = true

  pub lookup-append :
      (k : Bytes) (m n : List (Bytes × A)) (v : A)
      → lookup k m ≡ some v
      → lookup k (m ++ n) ≡ some v
  unfolding lookup
  lookup-append k [] n v e = ground arith
  lookup-append k ((j, w) ∷ m) n v e = ground (arith, lookup-append k m n v)

  pub lookup_last :
      (k : Bytes) (m : List (Bytes × A)) (v : A)
      → lookup k m ≡ none
      → lookup k (m ++ (k, v) ∷ []) ≡ some v
  unfolding lookup
  lookup_last k [] v e = ground (arith, bytes_eq_refl k)
  lookup_last k ((j, w) ∷ m) v e = ground (arith, lookup_last k m v)

  -- `m[k] = v`: the place of a key that is there already stays.
  unfoldable pub put : Bytes → A → List (Bytes × A) → List (Bytes × A)
  put k v [] = (k, v) ∷ []
  put k v ((j, w) ∷ m) = if bytes_eq j k then (k, v) ∷ m else (j, w) ∷ put k v m

  pub lookup-put_other :
      (k j : Bytes) (v : A) (m : List (Bytes × A))
      → bytes_eq j k ≡ false
      → lookup k (put j v m) ≡ lookup k m
  unfolding lookup put
  lookup-put_other k j v [] h = ground arith
  lookup-put_other k j v ((i, w) ∷ m) h = elim (Bool-cases (bytes_eq i j)) [
    | inl e ↦
        let miss : bytes_eq i k ≡ false = ap (λ b. bytes_eq b k) ((bytes_eq_iff i j).0 e) ∙ h in
        rw e (rw h (rw miss refl))
    | inr e ↦ ground (arith, lookup-put_other k j v m h)
  ]

  pub lookup-put : (k : Bytes) (v : A) (m : List (Bytes × A)) → lookup k (put k v m) ≡ some v
  unfolding lookup put
  lookup-put k v [] = ground (arith, bytes_eq_refl k)
  lookup-put k v ((i, w) ∷ m) = ground (arith, bytes_eq_refl k, lookup-put k v m)

  pub length-put_there :
      (k : Bytes) (v : A) (m : List (Bytes × A))
      → has_entry (lookup k m) ≡ true
      → length (put k v m) ≡ length m
  unfolding lookup put
  length-put_there k v [] h = cc
  length-put_there k v ((i, w) ∷ m) h = ground (arith, length-put_there k v m)

  pub length-put : (k : Bytes) (v : A) (m : List (Bytes × A)) → length (put k v m) ≤ length m + 1
  unfolding put
  length-put k v [] = omega arith
  length-put k v ((i, w) ∷ m) = ground (arith, length-put k v m)
