-- ===== src/Wire/Error.antt =====
-- experiments/g0-wire/par_wire/errors.py: a `WireError` is its stable code. The path that a few of
-- the errors carry is diagnostic text which no code reads, and is left out. `fault` is no
-- WireError: it stands for a KeyError, IndexError, TypeError or ValueError of Python, which
-- `except WireError` lets pass.
use peer_application_runtime.Base.{Bool, true, false, ◌≡◌, refl, ap, ◌⊎◌, inl, inr}

pub data Code : Type 0 where
  uint_range limit depth resource_limit forbidden_type utf8 map_key : Code
  truncated indefinite reserved non_minimal map_order trailing : Code
  length clock timeout closed : Code
  schema message_type identifier negotiation space_binding page_state : Code
  cddl_reference cddl_unsupported : Code
  domain role profile transport_binding app_binding reflection replay : Code
  snapshot_changed cursor cursor_replay duplicate_item : Code
  fault : Code

-- `raised c` is `raise WireError(c)`.
pub data Result {ℓ} (A : Type ℓ) : Type ℓ where
  ok : A → Result A
  raised : Code → Result A

-- `if test: raise WireError(c)`.
abbrev pub refuse : Bool → Code → Result (Unit {0})
refuse test c = elim test [ true ↦ raised c | false ↦ ok tt ]

-- An error passes over the rest of a block.
infixl 5 ◌>>=◌
abbrev pub ◌>>=◌ {ℓ ℓ'} :
    {A : Type ℓ} {C : Type ℓ'} (first : Result A) (rest : A → Result C) → Result C
raised c >>= rest = raised c
ok value >>= rest = rest value

infixl 5 ◌>>◌
abbrev pub ◌>>◌ {ℓ'} : {C : Type ℓ'} (first : Result (Unit {0})) (rest : Result C) → Result C
first >> rest = first >>= λ done. rest

pub Result-cases {ℓ} :
    {A : Type ℓ} (r : Result A) → ((a : A) × (r ≡ ok a)) ⊎ ((c : Code) × (r ≡ raised c))
Result-cases (ok a) = inl (a, refl)
Result-cases (raised c) = inr (c, refl)

-- Inversion of a successful bind.
pub bind_ok :
    {A B : Type 0} (m : Result A) (f : A → Result B) (b : B)
    → (m >>= f) ≡ ok b
    → (a : A) × (m ≡ ok a) × (f a ≡ ok b)
bind_ok (ok a) f b e = (a, refl, e)
bind_ok (raised c) f b e = cc

pub refuse_ok :
    {B : Type 0} (t : Bool) (c : Code) (k : Result B) (b : B)
    → (refuse t c >> k) ≡ ok b
    → (t ≡ false) × (k ≡ ok b)
refuse_ok true c k b e = cc
refuse_ok false c k b e = (refl, e)

abbrev value_or {ℓ} : {A : Type ℓ} → A → Result A → A
value_or d (ok a) = a
value_or d (raised c) = d

pub ok-injective {ℓ} : {A : Type ℓ} {a b : A} → ok a ≡ ok b → a ≡ b
ok-injective {a = a} e = ap (value_or a) e

-- The same, as rules that go on with what is known.
pub on_bind :
    {A B P : Type 0} (m : Result A) {f : A → Result B} {b : B}
    → (m >>= f) ≡ ok b
    → ((a : A) → m ≡ ok a → f a ≡ ok b → P)
    → P
on_bind m {f = f} {b = b} e k = let (a, h, h') = bind_ok m f b e in k a h h'

pub on_refuse :
    {B P : Type 0} (t : Bool) (c : Code) {m : Result B} {b : B}
    → (refuse t c >> m) ≡ ok b
    → (t ≡ false → m ≡ ok b → P)
    → P
on_refuse t c {m = m} {b = b} e k = let (h, h') = refuse_ok t c m b e in k h h'
