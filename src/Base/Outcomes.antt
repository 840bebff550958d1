-- ===== src/Base/Outcomes.antt =====
-- What holds of the state in each outcome of an operation holds of the state after it.
use mathlib.Core.Path.{◌≡◌, refl}
use mathlib.Core.Bool.{Bool, true, false}
use mathlib.Core.Option.{Option, none, some}
use peer_application_runtime.Base.Tests.{if◌then◌else◌}
use peer_application_runtime.Base.Fallible.{Fallible, done, failed}

module _ {S B : Type 0} (P : S → Type 0) where
  pub on_if :
      (t : Bool) (x y : S × B) → (t ≡ true → P x.0) → (t ≡ false → P y.0) → P (if t then x else y).0
  on_if true x y f g = f refl
  on_if false x y f g = g refl

  pub on_outcome :
      {E A : Type 0} (o : Fallible E A) (f : E → S × B) (g : A → S × B)
      → ((e : E) → P (f e).0)
      → ((a : A) → o ≡ done a → P (g a).0)
      → P (elim o as (λ x. S × B) [ failed e ↦ f e | done a ↦ g a ]).0
  on_outcome (failed e) f g h k = h e
  on_outcome (done a) f g h k = k a refl

  pub on_option :
      {A : Type 0} (o : Option A) (x : S × B) (g : A → S × B)
      → (o ≡ none → P x.0)
      → ((a : A) → o ≡ some a → P (g a).0)
      → P (elim o as (λ y. S × B) [ none ↦ x | some a ↦ g a ]).0
  on_option none x g h k = h refl
  on_option (some a) x g h k = k a refl

-- The same of a whole value.
module _ {C : Type 0} (P : C → Type 0) where
  pub by_outcome :
      {E A : Type 0} (o : Fallible E A) (f : E → C) (g : A → C)
      → ((e : E) → o ≡ failed e → P (f e))
      → ((a : A) → o ≡ done a → P (g a))
      → P (elim o as (λ x. C) [ failed e ↦ f e | done a ↦ g a ])
  by_outcome (failed e) f g h k = h e refl
  by_outcome (done a) f g h k = k a refl
