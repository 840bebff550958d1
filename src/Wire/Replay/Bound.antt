-- ===== src/Wire/Replay/Bound.antt =====
-- The replay window stays within its capacity, and its clock does not go back.
use peer_application_runtime.Base.{
  ℕ, ◌≤◌, List, [], ◌∷◌, true, false, not, Option, none, some, ◌≡◌, refl, arith, length,
  length-append, leb, ◌==◌, if-both,
}
use peer_application_runtime.Base.Bytes.{Bytes, lookup, has_entry}
use peer_application_runtime.Wire.Error.{Result}
use peer_application_runtime.Wire.Framing.{is_before}
use peer_application_runtime.Wire.Replay.{Window, prune, admit, remember, run}

-- The second window has the limits of the first, no more entries than they allow, and no earlier
-- clock.
pub record Follows (w w' : Window) : Type 0 where
  pub capacity : w'.capacity ≡ w.capacity
  pub ttl : w'.ttl ≡ w.ttl
  pub within : length w'.entries ≤ w'.capacity
  pub later : (now : ℕ) → is_before now w.last ≡ true → is_before now w'.last ≡ true

length-prune : (now : ℕ) (m : List (Bytes × ℕ)) → length (prune now m) ≤ length m
unfolding prune
length-prune now [] = omega arith
length-prune now ((k, x) ∷ m) = ground (arith, length-prune now m)

Follows-refl : (w : Window) → length w.entries ≤ w.capacity → Follows w w
Follows-refl w h = record { capacity = refl; ttl = refl; within = h; later = λ now e. e }

Follows-trans : (w v u : Window) → Follows w v → Follows v u → Follows w u
Follows-trans w v u f g = record {
  capacity = cc;
  ttl = cc;
  within = g.within;
  later = λ now e. g.later now (f.later now e);
}

abbrev Kept : Window → Window × Result (Unit {0}) → Type 0
Kept w p = Follows w p.0

later_than :
    (now : ℕ) (last : Option ℕ)
    → is_before now last ≡ false
    → (t : ℕ) → is_before t last ≡ true
    → is_before t (some now) ≡ true
later_than now none h t e = cc
later_than now (some last) h t e = ground arith

module _ (sum : ℕ → ℕ → ℕ) where
  admit-Follows :
      (k : Bytes) (now : ℕ) (w : Window)
      → length w.entries ≤ w.capacity
      → Follows w (admit sum k now w).0
  unfolding admit
  admit-Follows k now w h =
      if-both (Kept w) (has_entry (lookup k w.entries)) _ _ (λ _. Follows-refl w h)
        (λ _.
          if-both (Kept w) (leb w.capacity (length w.entries)) _ _ (λ _. Follows-refl w h)
            (λ room. record {
              capacity = refl;
              ttl = refl;
              within = ground (arith, length-append w.entries ((k, sum now w.ttl) ∷ []));
              later = λ now e. e;
            }))

  remember-Follows :
      (k : Bytes) (now : Option ℕ) (w : Window)
      → length w.entries ≤ w.capacity
      → Follows w (remember sum k now w).0
  unfolding remember
  remember-Follows k none w h =
      if-both (Kept w) (length k == 32) _ _ (λ _. Follows-refl w h) (λ _. Follows-refl w h)
  remember-Follows k (some now) w h =
      if-both (Kept w) (not (length k == 32)) _ _ (λ _. Follows-refl w h)
        (λ _.
          if-both (Kept w) (is_before now w.last) _ _ (λ _. Follows-refl w h)
            (λ c.
              Follows-trans w _ _
                (record {
                  capacity = refl;
                  ttl = refl;
                  within = omega (arith, length-prune now w.entries);
                  later = later_than now w.last c;
                })
                (admit-Follows k now _ (omega (arith, length-prune now w.entries)))))

  -- Any number of calls keeps a window that is within its capacity so, keeps its limits, and never
  -- puts its clock back: a time that was refused as too early stays too early.
  pub run-Follows :
      (calls : List (Bytes × Option ℕ)) (w : Window)
      → length w.entries ≤ w.capacity
      → Follows w (run sum calls w)
  unfolding run
  run-Follows [] w h = Follows-refl w h
  run-Follows ((k, now) ∷ calls) w h =
      let f : Follows w (remember sum k now w).0 = remember-Follows k now w h in
      Follows-trans w _ _ f (run-Follows calls _ f.within)
