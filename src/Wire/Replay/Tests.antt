-- ===== src/Wire/Replay/Tests.antt =====
-- Concrete runs of the replay window, and its theorems at concrete inputs.
use peer_application_runtime.Base.{ℕ, ◌+◌, List, [], ◌∷◌, Option, none, some, ◌≡◌, ◌≢◌, refl, arith}
use peer_application_runtime.Base.Bytes.{Bytes, bytes_eq, lookup}
use peer_application_runtime.Wire.Error.{ok, raised, replay}
use peer_application_runtime.Wire.Replay.{Window, prune, admit, remember, run}
use peer_application_runtime.Wire.Replay.NoReplay.{remember-once}
use peer_application_runtime.Wire.Replay.Bound.{Follows, run-Follows}

-- 32 bytes.
abbrev digest : ℕ → Bytes
digest b =
    b ∷ 0 ∷ 0 ∷ 0 ∷ 0 ∷ 0 ∷ 0 ∷ 0 ∷ 0 ∷ 0 ∷ 0 ∷ 0 ∷ 0 ∷ 0 ∷ 0 ∷ 0 ∷ 0 ∷ 0 ∷ 0 ∷ 0 ∷ 0 ∷ 0 ∷ 0 ∷ 0
    ∷ 0 ∷ 0 ∷ 0 ∷ 0 ∷ 0 ∷ 0 ∷ 0 ∷ 0 ∷ []

-- The sum of two ints.
abbrev plus : ℕ → ℕ → ℕ
plus a b = a + b

abbrev window : Window
window = record { capacity = 2; ttl = 300; entries = []; last = none }

first : (remember plus (digest 7) (some 10) window).1 ≡ ok tt
unfolding remember admit prune lookup
first = refl

-- After `ttl` the digest is accepted again.
expired :
    (remember plus (digest 7) (some 310) (remember plus (digest 7) (some 10) window).0).1 ≡ ok tt
unfolding remember admit prune lookup
expired = refl

again :
    (remember plus (digest 7) (some 309) (remember plus (digest 7) (some 10) window).0).1
    ≡ raised replay
unfolding remember admit prune lookup bytes_eq
again = refl

abbrev calls : List (Bytes × Option ℕ)
calls = (digest 8, some 20) ∷ (digest 9, some 30) ∷ (digest 7, none) ∷ []

remember-once_example :
    (remember plus
      (digest 7)
      (some 309)
      (run plus calls (remember plus (digest 7) (some 10) window).0)).1
    ≢ ok tt
remember-once_example = remember-once plus (digest 7) 10 309 calls window first (omega arith)

run-Follows_example : Follows window (run plus calls window)
run-Follows_example = run-Follows plus calls window (omega arith)
