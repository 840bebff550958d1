-- ===== src/Wire/Value.antt =====
-- The Python objects that experiments/g0-wire/par_wire/codec.py encodes and decodes.
--
-- A `str` is the list of its code points, a `bytes` the list of its bytes, a `dict` the list of its
-- items in insertion order. `negative n` is the int -(n + 1), and `forbidden` is an object of any
-- other type (a float, a tuple, a set). Objects are trees: one that contains itself, which the
-- encoder refuses by its set of active ids, is no value of this type.
use peer_application_runtime.Base.{ℕ, suc, List, Bool}

pub data Key : Type 0 where
  nat : ℕ → Key
  negative_key : ℕ → Key
  other_key : Key

mutual
  pub data Value : Type 0 where
    null : Value
    bool : Bool → Value
    uint : ℕ → Value
    negative : ℕ → Value
    bytes : List ℕ → Value
    text : List ℕ → Value
    array : Values → Value
    dict : Fields → Value
    forbidden : Value

  pub data Values : Type 0 where
    nil : Values
    cons : Value → Values → Values

  pub data Fields : Type 0 where
    end : Fields
    field : Key → Value → Fields → Fields

abbrev pub len_values : Values → ℕ
len_values nil = 0
len_values (cons v vs) = suc (len_values vs)

abbrev pub len_fields : Fields → ℕ
len_fields end = 0
len_fields (field k v fs) = suc (len_fields fs)
