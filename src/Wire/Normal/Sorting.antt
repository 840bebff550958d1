-- ===== src/Wire/Normal/Sorting.antt =====
-- The order in which the encoder writes a dict: ascending, each item once, whatever the values are.
use peer_application_runtime.Base.{
  ℕ, suc, ◌≤◌, ◌≡◌, refl, ap, ◌∙◌, true, false, Option, none, some, arith, leb, ◌==◌, if◌then◌else◌,
  Bool-cases, inl, inr,
}
use peer_application_runtime.Wire.Value.{
  Key, nat, negative_key, other_key, Value, Fields, end, field, len_fields,
}
use peer_application_runtime.Wire.Encode.{insert, sorted, bad_key}
use peer_application_runtime.Wire.Head.{u64_max}
use peer_application_runtime.Wire.Canonical.{Follows}
use peer_application_runtime.Wire.Normal.{normal, normal_fields, has_key, IsObject, IsDict}

-- Every key is a nat of 64 bits, and each is above the one before it.
abbrev pub KeysAscend : Option ℕ → Fields → Type 0
KeysAscend j end = Unit
KeysAscend j (field (nat k) v fs) = Follows j k × (k ≤ u64_max) × KeysAscend (some k) fs
KeysAscend j (field _ v fs) = ⊥

normal_fields-insert :
    (k : Key) (v : Value) (fs : Fields)
    → normal_fields (insert k v fs) ≡ insert k (normal v) (normal_fields fs)
unfolding normal insert
normal_fields-insert k v end = refl
normal_fields-insert (nat k) v (field (nat j) w fs) =
    ground (arith, normal_fields-insert (nat k) v fs)
normal_fields-insert (nat k) v (field (negative_key n) w fs) = refl
normal_fields-insert (nat k) v (field other_key w fs) = refl
normal_fields-insert (negative_key n) v (field j w fs) = refl
normal_fields-insert other_key v (field j w fs) = refl

pub normal_fields-sorted : (fs : Fields) → normal_fields (sorted fs) ≡ sorted (normal_fields fs)
unfolding normal sorted
normal_fields-sorted end = refl
normal_fields-sorted (field k v fs) =
    normal_fields-insert k v (sorted fs) ∙ ap (insert k (normal v)) (normal_fields-sorted fs)

insert-KeysAscend :
    (j : Option ℕ) (k : ℕ) (v : Value) (fs : Fields)
    → k ≤ u64_max
    → Follows j k
    → has_key k fs ≡ false
    → KeysAscend j fs
    → KeysAscend j (insert (nat k) v fs)
unfolding insert has_key
insert-KeysAscend j k v end hk f h a = (f, hk, tt)
insert-KeysAscend j k v (field (nat i) w fs) hk f h a = elim (Bool-cases (leb k i)) [
  | inl le ↦ rw le (f, hk, (ground arith, a.1, a.2))
  | inr gt ↦
      rw gt (a.0, a.1, insert-KeysAscend (some i) k v fs hk (ground arith) (ground arith) a.2)
]
insert-KeysAscend j k v (field (negative_key n) w fs) hk f h a = absurd a
insert-KeysAscend j k v (field other_key w fs) hk f h a = absurd a

has_key-insert :
    (k j : ℕ) (v : Value) (fs : Fields)
    → has_key k (insert (nat j) v fs) ≡ (if j == k then true else has_key k fs)
unfolding insert has_key
has_key-insert k j v end = refl
has_key-insert k j v (field (nat i) w fs) = ground (arith, has_key-insert k j v fs)
has_key-insert k j v (field (negative_key n) w fs) = refl
has_key-insert k j v (field other_key w fs) = refl

has_key-sorted : (k : ℕ) (fs : Fields) → bad_key fs ≡ false → has_key k (sorted fs) ≡ has_key k fs
unfolding sorted has_key bad_key
has_key-sorted k end h = refl
has_key-sorted k (field (nat j) v fs) h =
    has_key-insert k j v (sorted fs) ∙ ground (arith, has_key-sorted k fs)
has_key-sorted k (field (negative_key n) v fs) h = cc
has_key-sorted k (field other_key v fs) h = cc

pub sorted-KeysAscend : (fs : Fields) → bad_key fs ≡ false → IsDict fs → KeysAscend none (sorted fs)
unfolding sorted bad_key IsObject
sorted-KeysAscend end h d = tt
sorted-KeysAscend (field (nat k) v fs) h d =
    let good : bad_key fs ≡ false = ground arith in
    insert-KeysAscend none k v (sorted fs) (ground arith) tt (has_key-sorted k fs good ∙ d.0)
      (sorted-KeysAscend fs good d.2)
sorted-KeysAscend (field (negative_key n) v fs) h d = cc
sorted-KeysAscend (field other_key v fs) h d = cc

len-insert : (k : Key) (v : Value) (fs : Fields) → len_fields (insert k v fs) ≡ suc (len_fields fs)
unfolding insert
len-insert k v end = refl
len-insert (nat k) v (field (nat j) w fs) = ground (arith, len-insert (nat k) v fs)
len-insert (nat k) v (field (negative_key n) w fs) = refl
len-insert (nat k) v (field other_key w fs) = refl
len-insert (negative_key n) v (field j w fs) = refl
len-insert other_key v (field j w fs) = refl

pub len-sorted : (fs : Fields) → len_fields (sorted fs) ≡ len_fields fs
unfolding sorted
len-sorted end = refl
len-sorted (field k v fs) = len-insert k v (sorted fs) ∙ ap suc (len-sorted fs)

-- Sorting keeps the objects that are the values of a dict.
abbrev pub AllValues : Fields → Type 0
AllValues end = Unit
AllValues (field k v fs) = IsObject v × AllValues fs

pub IsDict-AllValues : (fs : Fields) → IsDict fs → AllValues fs
unfolding IsObject
IsDict-AllValues end d = tt
IsDict-AllValues (field (nat k) v fs) d = (d.1, IsDict-AllValues fs d.2)
IsDict-AllValues (field (negative_key n) v fs) d = (d.0, IsDict-AllValues fs d.1)
IsDict-AllValues (field other_key v fs) d = (d.0, IsDict-AllValues fs d.1)

insert-AllValues :
    (k : Key) (v : Value) (fs : Fields) → IsObject v → AllValues fs → AllValues (insert k v fs)
unfolding insert
insert-AllValues k v end h a = (h, a)
insert-AllValues (nat k) v (field (nat j) w fs) h a = elim (Bool-cases (leb k j)) [
  | inl le ↦ rw le (h, a)
  | inr gt ↦ rw gt (a.0, insert-AllValues (nat k) v fs h a.1)
]
insert-AllValues (nat k) v (field (negative_key n) w fs) h a = (h, a)
insert-AllValues (nat k) v (field other_key w fs) h a = (h, a)
insert-AllValues (negative_key n) v (field j w fs) h a = (h, a)
insert-AllValues other_key v (field j w fs) h a = (h, a)

pub sorted-AllValues : (fs : Fields) → AllValues fs → AllValues (sorted fs)
unfolding sorted
sorted-AllValues end a = a
sorted-AllValues (field k v fs) a = insert-AllValues k v (sorted fs) a.0 (sorted-AllValues fs a.1)
