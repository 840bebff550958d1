-- ===== src/Wire/Normal.antt =====
-- Objects up to the order of the items of their dicts, which Python's `==` does not see: `normal`
-- sorts the items of every dict, at every level, as the encoder of codec.py does.
pub mod Sorting
pub mod Written
pub mod Objects
use peer_application_runtime.Base.{ℕ, suc, ◌≡◌, Bool, true, false, if◌then◌else◌, ◌==◌}
use peer_application_runtime.Wire.Value.{
  Key, nat, Value, array, dict, Values, nil, cons, Fields, end, field,
}
use peer_application_runtime.Wire.Encode.{sorted}

unfoldable mutual
  pub normal : Value → Value
  normal (array vs) = array (normal_values vs)
  normal (dict fs) = dict (sorted (normal_fields fs))
  normal v = v

  pub normal_values : Values → Values
  normal_values nil = nil
  normal_values (cons v vs) = cons (normal v) (normal_values vs)

  pub normal_fields : Fields → Fields
  normal_fields end = end
  normal_fields (field k v fs) = field k (normal v) (normal_fields fs)

unfoldable pub has_key : ℕ → Fields → Bool
has_key k end = false
has_key k (field (nat j) v fs) = if j == k then true else has_key k fs
has_key k (field _ v fs) = has_key k fs

-- The invariant of every Python dict: its keys are pairwise distinct.
unfoldable mutual
  pub IsObject : Value → Type 0
  IsObject (array vs) = AllObjects vs
  IsObject (dict fs) = IsDict fs
  IsObject v = Unit

  pub AllObjects : Values → Type 0
  AllObjects nil = Unit
  AllObjects (cons v vs) = IsObject v × AllObjects vs

  pub IsDict : Fields → Type 0
  IsDict end = Unit
  IsDict (field (nat k) v fs) = (has_key k fs ≡ false) × IsObject v × IsDict fs
  IsDict (field _ v fs) = IsObject v × IsDict fs
