-- ===== src/Wire/Replay/NoReplay.antt =====
-- What the replay window promises: no digest passes again before its expiry.
use peer_application_runtime.Base.{
  ℕ, ◌≤◌, ◌<◌, List, [], ◌∷◌, false, not, Option, none, some, ◌≡◌, ◌≢◌, ◌⊎◌, inl, inr, refl, arith,
  length, ltb, leb, ◌==◌, Bool-cases, if-both, ltb→lt, ltb→le,
}
use peer_application_runtime.Base.Bytes.{Bytes, lookup, has_entry, lookup-append, lookup_last}
use peer_application_runtime.Wire.Error.{Result, ok}
use peer_application_runtime.Wire.Framing.{is_before}
use peer_application_runtime.Wire.Replay.{Window, prune, admit, remember, run}

abbrev Answer : Type 0
Answer = Window × Result (Unit {0})

-- The clock has reached `expiry`.
abbrev Passed : Option ℕ → ℕ → Type 0
Passed none expiry = ⊥
Passed (some now) expiry = expiry ≤ now

-- The digest is held until `expiry`, or that time has passed.
unfoldable Guards : Bytes → ℕ → Window → Type 0
Guards digest expiry w = (lookup digest w.entries ≡ some expiry) ⊎ Passed w.last expiry

lookup-prune :
    (now : ℕ) (k : Bytes) (m : List (Bytes × ℕ)) (expiry : ℕ)
    → lookup k m ≡ some expiry
    → now < expiry
    → lookup k (prune now m) ≡ some expiry
unfolding lookup prune
lookup-prune now k [] expiry e h = cc
lookup-prune now k ((j, x) ∷ m) expiry e h = ground (arith, lookup-prune now k m expiry)

due :
    (now expiry : ℕ) (last : Option ℕ)
    → is_before now last ≡ false
    → Passed last expiry
    → expiry ≤ now
due now expiry none h p = absurd p
due now expiry (some last) h p = ground arith

prune-Guards :
    (now : ℕ) (digest : Bytes) (expiry : ℕ) (w : Window)
    → is_before now w.last ≡ false
    → Guards digest expiry w
    → Guards digest expiry (record w { last = some now; entries = prune now w.entries })
unfolding Guards
prune-Guards now digest expiry w h (inl e) = elim (Bool-cases (ltb now expiry)) [
  | inl early ↦ inl (lookup-prune now digest w.entries expiry e (ltb→lt now expiry early))
  | inr late ↦ inr (ltb→le now expiry late)
]
prune-Guards now digest expiry w h (inr p) = inr (due now expiry w.last h p)

not_held : {A : Type 0} (o : Option A) → has_entry o ≡ false → o ≡ none
not_held none h = refl
not_held (some a) h = absurd (ground arith)

held-Guards :
    (digest : Bytes) (expiry : ℕ) (w : Window)
    → lookup digest w.entries ≡ some expiry
    → Guards digest expiry w
unfolding Guards
held-Guards digest expiry w e = inl e

module _ (sum : ℕ → ℕ → ℕ) where
  admit-Guards :
      (k : Bytes) (now : ℕ) (digest : Bytes) (expiry : ℕ) (w : Window)
      → Guards digest expiry w
      → Guards digest expiry (admit sum k now w).0
  unfolding admit Guards
  admit-Guards k now digest expiry w g =
      if-both (λ (p : Answer). Guards digest expiry p.0) (has_entry (lookup k w.entries)) _ _
        (λ _. g)
        (λ _.
          if-both (λ (p : Answer). Guards digest expiry p.0) (leb w.capacity (length w.entries)) _ _
            (λ _. g)
            (λ _. elim g [
              | inl e ↦ inl (lookup-append digest w.entries _ expiry e)
              | inr p ↦ inr p
            ]))

  remember-Guards :
      (k : Bytes) (now : Option ℕ) (digest : Bytes) (expiry : ℕ) (w : Window)
      → Guards digest expiry w
      → Guards digest expiry (remember sum k now w).0
  unfolding remember
  remember-Guards k none digest expiry w g =
      if-both (λ (p : Answer). Guards digest expiry p.0) (length k == 32) _ _ (λ _. g) (λ _. g)
  remember-Guards k (some now) digest expiry w g =
      if-both (λ (p : Answer). Guards digest expiry p.0) (not (length k == 32)) _ _ (λ _. g)
        (λ _.
          if-both (λ (p : Answer). Guards digest expiry p.0) (is_before now w.last) _ _ (λ _. g)
            (λ h. admit-Guards k now digest expiry _ (prune-Guards now digest expiry w h g)))

  run-Guards :
      (calls : List (Bytes × Option ℕ)) (digest : Bytes) (expiry : ℕ) (w : Window)
      → Guards digest expiry w
      → Guards digest expiry (run sum calls w)
  unfolding run
  run-Guards [] digest expiry w g = g
  run-Guards ((k, now) ∷ calls) digest expiry w g =
      run-Guards calls digest expiry _ (remember-Guards k now digest expiry w g)

  -- An accepted digest is held until its expiry.
  admit-held :
      (digest : Bytes) (now : ℕ) (w : Window)
      → (admit sum digest now w).1 ≡ ok tt
      → lookup digest (admit sum digest now w).0.entries ≡ some (sum now w.ttl)
  unfolding admit
  admit-held digest now w =
      if-both {A = Answer} (λ p. p.1 ≡ ok tt → lookup digest p.0.entries ≡ some (sum now w.ttl))
        (has_entry (lookup digest w.entries)) _ _ (λ _ e. cc)
        (λ h.
          if-both {A = Answer} (λ p. p.1 ≡ ok tt → lookup digest p.0.entries ≡ some (sum now w.ttl))
            (leb w.capacity (length w.entries)) _ _ (λ _ e. cc)
            (λ _ e. lookup_last digest w.entries _ (not_held (lookup digest w.entries) h)))

  remember-held :
      (digest : Bytes) (now : ℕ) (w : Window)
      → (remember sum digest (some now) w).1 ≡ ok tt
      → lookup digest (remember sum digest (some now) w).0.entries ≡ some (sum now w.ttl)
  unfolding remember
  remember-held digest now w =
      if-both {A = Answer} (λ p. p.1 ≡ ok tt → lookup digest p.0.entries ≡ some (sum now w.ttl))
        (not (length digest == 32)) _ _ (λ _ e. cc)
        (λ _.
          if-both {A = Answer} (λ p. p.1 ≡ ok tt → lookup digest p.0.entries ≡ some (sum now w.ttl))
            (is_before now w.last) _ _ (λ _ e. cc) (λ _. admit-held digest now _))

  -- A digest that is held is refused.
  held-refused :
      (digest : Bytes) (now expiry : ℕ) (w : Window)
      → Guards digest expiry w
      → now < expiry
      → (remember sum digest (some now) w).1 ≢ ok tt
  unfolding remember Guards
  held-refused digest now expiry w g h =
      if-both {A = Answer} (λ p. p.1 ≢ ok tt) (not (length digest == 32)) _ _ (λ _ e. cc)
        (λ _.
          if-both {A = Answer} (λ p. p.1 ≢ ok tt) (is_before now w.last) _ _ (λ _ e. cc)
            (λ c. elim (prune-Guards now digest expiry w c g) [
              | inl e ↦ unfold admit in rw e (λ e'. cc)
              | inr p ↦ absurd (omega arith)
            ]))

  -- However times are added, a digest that the window has accepted is not accepted again before its
  -- expiry, the sum of the time of that call and `ttl`: whatever calls come in between, with any
  -- digests and clocks and whether or not they are accepted.
  pub remember-once :
      (digest : Bytes) (now now' : ℕ) (calls : List (Bytes × Option ℕ)) (w : Window)
      → (remember sum digest (some now) w).1 ≡ ok tt
      → now' < sum now w.ttl
      → (remember sum digest (some now') (run sum calls (remember sum digest (some now) w).0)).1
        ≢ ok tt
  remember-once digest now now' calls w e h =
      held-refused digest now' (sum now w.ttl) _
        (run-Guards calls digest _ _ (held-Guards _ _ _ (remember-held digest now w e))) h
