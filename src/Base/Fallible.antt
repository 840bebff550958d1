-- ===== src/Base/Fallible.antt =====
-- Values or errors, for the parts with codes of their own, and what a block of them has passed.
use Prim.Native.Nat.{suc}
use mathlib.Core.Path.{◌≡◌, refl, sym, ap, subst, ◌∙◌}
use mathlib.Core.Bool.{Bool, true, false}
use mathlib.Core.Option.{Option, none, some}
use mathlib.Core.List.{List, [], ◌∷◌}
use peer_application_runtime.Base.Lists.{length, All}

pub data Fallible {ℓ} (E : Type 0) (A : Type ℓ) : Type ℓ where
  done : A → Fallible E A
  failed : E → Fallible E A

module _ {E : Type 0} where
  infixl 5 ◌>>=◌
  abbrev pub ◌>>=◌ {ℓ ℓ'} :
      {A : Type ℓ} {C : Type ℓ'} (first : Fallible E A) (next : A → Fallible E C) → Fallible E C
  failed why >>= next = failed why
  done value >>= next = next value

  infixl 5 ◌>>◌
  abbrev pub ◌>>◌ {ℓ'} :
      {C : Type ℓ'} (first : Fallible E (Unit {0})) (next : Fallible E C) → Fallible E C
  first >> next = first >>= λ nothing. next

  -- `if not holds: raise Error(why)`.
  abbrev pub demand : Bool → E → Fallible E (Unit {0})
  demand holds why = elim holds [ true ↦ done tt | false ↦ failed why ]

  -- What a block that has returned a value went through, first step first.
  pub after :
      {A C P : Type 0} (first : Fallible E A) {next : A → Fallible E C} {value : C}
      → (first >>= next) ≡ done value
      → ((a : A) → first ≡ done a → next a ≡ done value → P)
      → P
  after (done a) e k = k a refl e
  after (failed why) e k = cc

  pub after_demand :
      {C P : Type 0} (holds : Bool) (why : E) {next : Fallible E C} {value : C}
      → (demand holds why >> next) ≡ done value
      → (holds ≡ true → next ≡ done value → P)
      → P
  after_demand true why e k = k refl e
  after_demand false why e k = cc

  value_or {ℓ} : {A : Type ℓ} → A → Fallible E A → A
  value_or other (done a) = a
  value_or other (failed e) = other

  pub done-injective {ℓ} : {A : Type ℓ} {a b : A} → ◌≡◌ {A = Fallible E A} (done a) (done b) → a ≡ b
  unfolding value_or
  done-injective {a = a} e = ap (value_or a) e

  pub demanded : (holds : Bool) (why : E) {u : Unit {0}} → demand holds why ≡ done u → holds ≡ true
  demanded true why e = refl
  demanded false why e = cc

  pub after_option :
      {A C P : Type 0} (o : Option A) (why : E) (next : A → Fallible E C) {value : C}
      → (elim o as (λ x. Fallible E C) [ none ↦ failed why | some a ↦ next a ]) ≡ done value
      → ((a : A) → o ≡ some a → next a ≡ done value → P)
      → P
  after_option none why next e k = cc
  after_option (some a) why next e k = k a refl e

  -- `tuple(f(x) for x in xs)`, up to the first that raises.
  unfoldable pub collect : {A B : Type 0} (f : A → Fallible E B) → List A → Fallible E (List B)
  collect f [] = done []
  collect f (x ∷ xs) = f x >>= λ y. collect f xs >>= λ ys. done (y ∷ ys)

  -- What holds of every value `f` returns holds of all that are collected.
  pub collect-All :
      {A B : Type 0} (P : B → Type 0) (f : A → Fallible E B) (xs : List A) {ys : List B}
      → ((x : A) (y : B) → f x ≡ done y → P y)
      → collect f xs ≡ done ys
      → All P ys
  unfolding collect
  collect-All P f [] h e = subst (All P) (done-injective e) tt
  collect-All P f (x ∷ xs) h e = after (f x) e λ y ey rest.
      after (collect f xs) rest
        λ ys eys end. subst (All P) (done-injective end) (h x y ey, collect-All P f xs h eys)

  pub length-collect :
      {A B : Type 0} (f : A → Fallible E B) (xs : List A) {ys : List B}
      → collect f xs ≡ done ys
      → length ys ≡ length xs
  unfolding collect
  length-collect f [] e = ap length (sym (done-injective e))
  length-collect f (x ∷ xs) e = after (f x) e λ y ey rest.
      after (collect f xs) rest
        λ ys eys end. ap length (sym (done-injective end)) ∙ ap suc (length-collect f xs eys)

  pub collect-each :
      {A B : Type 0} (f : A → Fallible E B) (xs : List A) {ys : List B}
      → collect f xs ≡ done ys
      → All (λ x. (y : B) × (f x ≡ done y)) xs
  unfolding collect
  collect-each f [] e = tt
  collect-each f (x ∷ xs) e =
      after (f x) e
        λ y ey rest. after (collect f xs) rest λ ys eys end. ((y, ey), collect-each f xs eys)
